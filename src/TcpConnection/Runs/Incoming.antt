-- ===== src/TcpConnection/Runs/Incoming.antt =====
-- Reading in a run, and its beginning.
use htcp_multithread.Prelude.{
  ℕ, ◌≡◌, refl, ap, sym, subst, ◌∙◌, Bool, true, some, List, [], ◌∷◌, ◌++◌, inl,
}
use htcp_multithread.Syscall.{
  ReadResult, received, read_failed, SockoptResult, optval, sockopt_failed,
}
use htcp_multithread.Buffer
use htcp_multithread.Buffer.{Buffer}
use htcp_multithread.Buffer.Content.{content}
use htcp_multithread.TcpConnection.{
  TcpConnection, connecting, message_called, error_logged, handle_error,
}
use htcp_multithread.TcpConnection.Sound.{IsSound, outside-IsSound}
use htcp_multithread.TcpConnection.Silence.{HasEnded}
use htcp_multithread.TcpConnection.Closing.{connect_established_lem}
use htcp_multithread.TcpConnection.Reading.{handle_read_lem}
use htcp_multithread.TcpConnection.Runs.Steps.{IsFine, unseen-IsFine, line_live, Goes}
use htcp_multithread.TcpConnection.Runs.Calls.{closes-Goes}
use htcp_multithread.TcpConnection.Runs.{reads, fails, establishes, callbacks, MayCome}

-- A new input buffer.
input-IsFine :
    {w : Bool} {s : TcpConnection} {all : List ℕ} (b : Buffer) (v : IsFine w s all)
    → IsSound v.r w (record s { input_buffer = b })
    → IsFine w (record s { input_buffer = b }) all
input-IsFine b v sound = record {
  r = v.r;
  sound = sound;
  all_said = v.all_said;
  line = v.line;
  told = v.told;
}

-- A connection on which an error was logged.
logged-IsFine :
    {w : Bool} {s : TcpConnection} {all : List ℕ} (errno err : ℕ)
    → IsFine w s all
    → IsFine w (record s { errno = errno; effects = s.effects ++ error_logged err ∷ [] }) all
logged-IsFine {s = s} errno err v =
    unseen-IsFine (error_logged err ∷ []) v v.r (outside-IsSound _ errno v.sound) refl refl refl
      (λ l. refl) refl v.line

module _ (c h : Bool) {w : Bool} {s : TcpConnection} {all : List ℕ} (v : IsFine w s all) where
  reads_error :
      (so_error : SockoptResult) (errno : ℕ)
      → (t : TcpConnection) × (handle_error so_error (record s { errno = errno }) ≡ t)
        × IsFine w t all
  unfolding handle_error
  reads_error (optval err) errno = (_, refl, logged-IsFine errno err v)
  reads_error (sockopt_failed err) errno = (_, refl, logged-IsFine err err v)

  pub fails-Goes : (so_error : SockoptResult) → Goes c h s (fails so_error) all
  fails-Goes so_error =
      let (t, did, fine) = reads_error so_error s.errno in (t, w, ap some did, fine)

  pub reads-Goes :
      (readv : List ℕ → ReadResult) (so_error : SockoptResult) (time : ℕ)
      → MayCome (reads readv so_error time) s
      → Goes c h s (reads readv so_error time) all
  reads-Goes readv so_error time (within, room) = go (readv (Buffer.iovecs s.input_buffer)) refl
    where
      go :
          (result : ReadResult)
          → readv (Buffer.iovecs s.input_buffer) ≡ result
          → Goes c h s (reads readv so_error time) all
      go (received []) e =
          let (b, did, kept, sound) =
            handle_read_lem (callbacks c h) v.r w readv so_error time (λ t x. some x) v.sound within
              room refl (received []) e in
          let (t, w', closed_, fine) = closes-Goes c h (input-IsFine b v sound) in
          (t, w', did ∙ closed_, fine)
      go (received (x ∷ bytes)) e =
          let (b, did, grown, sound) =
            handle_read_lem (callbacks c h) v.r w readv so_error time (λ t x. some x) v.sound within
              room refl (received (x ∷ bytes)) e in
          (
            _,
            w,
            did,
            unseen-IsFine (message_called ∷ []) v v.r (outside-IsSound _ s.errno sound) refl refl
                refl (λ l. refl) refl v.line,
          )
      go (read_failed errno) e =
          let (t, same, fine) = reads_error so_error errno in
          (
            t,
            w,
            handle_read_lem (callbacks c h) v.r w readv so_error time (λ t x. some x) v.sound within
                  room refl (read_failed errno) e
                ∙ ap some same,
            fine,
          )

  pub establishes-Goes : (self : ℕ) → s.state ≡ connecting → Goes c h s (establishes self) all
  establishes-Goes self e =
      let (t, did, sound, st, tie, tied, added, out) =
        connect_established_lem (callbacks c h) v.r w self some refl v.sound e in
      (
        t,
        w,
        did,
        unseen-IsFine _ v true sound added (ap content out) refl (λ l. refl) (sym sound.mask)
            (inl (line_live s.state (subst (λ st. HasEnded st → ⊥) (sym e) (λ x. x)) v.line)),
      )
