-- ===== src/TcpConnection/Runs/Invariant.antt =====
-- What holds of a connection in every run.
use htcp_multithread.Prelude.{
  ℕ, ◌≡◌, refl, ap, sym, subst, ◌∙◌, Bool, false, some, List, ◌++◌, append-nil, inl, inr, ◌⊎◌,
}
use htcp_multithread.Buffer
use htcp_multithread.Channel
use htcp_multithread.Buffer.Content.{content}
use htcp_multithread.TcpConnection.{TcpConnection, init}
use htcp_multithread.TcpConnection.Sound.{IsSound, init-IsSound}
use htcp_multithread.TcpConnection.Stream.{written, stream}
use htcp_multithread.TcpConnection.Silence.{sending, ended, line_after}
use htcp_multithread.TcpConnection.Runs.{
  Op, reads, writes, fails, sends, shuts, closes, destroys, establishes, marks, callbacks, said,
  MayCome, run_op, Reach, begun, later,
}
use htcp_multithread.TcpConnection.Runs.Steps.{IsFine, Goes}
use htcp_multithread.TcpConnection.Runs.Calls.{
  marks-Goes, closes-Goes, destroys-Goes, shuts-Goes, sends-Goes,
}
use htcp_multithread.TcpConnection.Runs.Outgoing.{writes-Goes}
use htcp_multithread.TcpConnection.Runs.Incoming.{reads-Goes, fails-Goes, establishes-Goes}

module _ (c h : Bool) where
  run_op-Goes :
      {w : Bool} {s : TcpConnection} {all : List ℕ}
      → IsFine w s all
      → (op : Op) → MayCome op s
      → Goes c h s op (all ++ said op s)
  run_op-Goes {s} {all} v (reads readv so_error time) may =
      rw (append-nil all) (reads-Goes c h v readv so_error time may)
  run_op-Goes {w} {all} v (writes write) may = rw (append-nil all) (writes-Goes c h write may w v)
  run_op-Goes v (sends write address bytes) may = sends-Goes c h v write address bytes may
  run_op-Goes {all} v (fails so_error) may = rw (append-nil all) (fails-Goes c h v so_error)
  run_op-Goes {all} v shuts may = rw (append-nil all) (shuts-Goes c h v)
  run_op-Goes {all} v closes may = rw (append-nil all) (closes-Goes c h v)
  run_op-Goes {all} v destroys may = rw (append-nil all) (destroys-Goes c h v)
  run_op-Goes {all} v (establishes self) may = rw (append-nil all) (establishes-Goes c h v self may)
  run_op-Goes {all} v (marks mark) may = rw (append-nil all) (marks-Goes c h v mark)

  module _ (address sockfd : ℕ) where
    pub Reach-IsFine :
        {s : TcpConnection} {all : List ℕ}
        → Reach (callbacks c h) address sockfd s all
        → (w : Bool) × IsFine w s all
    unfolding init Channel.init
    Reach-IsFine begun = (
      false,
      record {
        r = false;
        sound = init-IsSound address sockfd;
        all_said = Buffer.Content.content-init 1024;
        line = inl refl;
        told = refl;
      },
    )
    Reach-IsFine (later {s} {t} {all} op run may did) =
        let (w, v) = Reach-IsFine run in
        let (u, w', did', fine) = run_op-Goes v op may in
        let same : u ≡ t = cc (sym did' ∙ did) in
        (w', subst (λ x. IsFine w' x (all ++ said op s)) same fine)

    pub Reach-progress :
        {s : TcpConnection} {all : List ℕ}
        → Reach (callbacks c h) address sockfd s all
        → (op : Op) → MayCome op s
        → (t : TcpConnection) × (run_op (callbacks c h) op s ≡ some t)
          × Reach (callbacks c h) address sockfd t (all ++ said op s)
    Reach-progress run op may =
        let (w, v) = Reach-IsFine run in
        let (t, w', did, fine) = run_op-Goes v op may in (t, did, later op run may did)

    -- In every run of a new connection, whichever of its handlers and operations are called and in which
    -- order, its invariant holds, and the bytes that the kernel took, followed by those in the output
    -- buffer, are exactly the bytes that the calls of `send` on the connected connection put in, in
    -- order and each once. A call puts in its data while output is waiting, or when the kernel takes
    -- the data whole; when it takes a part, the part and then what the code takes for the rest
    -- (`puts`). A run has no `send` whose first write fails, only reads and writes that keep to their
    -- manual pages, all calls in the loop's thread, and callbacks that do nothing.
    pub Reach-stream :
        {s : TcpConnection} {all : List ℕ}
        → Reach (callbacks c h) address sockfd s all
        → (r : Bool) × (w : Bool) × IsSound r w s × (stream s ≡ all)
    Reach-stream run = let (w, v) = Reach-IsFine run in (v.r, w, v.sound, v.all_said)

    -- In every run of operations that may come (as in `Reach-stream`), all in the loop's own thread, the
    -- write side is shut down at most once, no bytes are written after that, and when it is shut down
    -- the kernel has taken every byte that the calls of `send` put in.
    pub Reach-line :
        {s : TcpConnection} {all : List ℕ}
        → Reach (callbacks c h) address sockfd s all
        → (line_after s.effects ≡ sending)
          ⊎ ((line_after s.effects ≡ ended) × (written s.effects ≡ all))
    Reach-line {s} run =
        let (w, v) = Reach-IsFine run in
        elim v.line [
          | inl e ↦ inl e
          | inr (e, idle, h, gone_) ↦ inr (
            e,
            sym (append-nil (written s.effects))
                ∙ ap (◌++◌ (written s.effects)) (sym gone_)
                ∙ v.all_said,
          )
        ]
