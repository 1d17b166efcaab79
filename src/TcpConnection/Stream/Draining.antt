-- ===== src/TcpConnection/Stream/Draining.antt =====
-- `handleWrite` called again and again, whenever the socket has room: how long it takes until all output is
-- gone.
use htcp_multithread.Prelude.{
  ℕ, suc, ◌≤◌, ◌≡◌, ◌≢◌, refl, ap, sym, subst, ◌∙◌, Bool, true, false, Option, some, List, [], ◌∷◌,
  ◌++◌, length, length-drop, arith, ◌>>=◌, append-nil, ℕ_discrete, nil_of_length,
}
use htcp_multithread.Epoll.{All}
use htcp_multithread.Syscall.{WriteResult, sent, WritesWithin}
use htcp_multithread.Buffer.Content.{content}
use htcp_multithread.TcpConnection.{
  TcpConnection, ConnectionCallbacks, Effect, disconnected, handle_write,
}
use htcp_multithread.TcpConnection.Sound.{IsSound}
use htcp_multithread.TcpConnection.Stream.{
  written, stream, drained_effects, sent_on, finished, left, handle_write-drained,
  handle_write-left, stream-sent_on, stream-finished, sent_on-IsSound, finished-IsSound,
}
use htcp_multithread.TcpConnection.Stream.Writes.{handle_write_idle}

-- A kernel that takes at least one byte of what it is handed, as it does when the socket has room.
abbrev pub HasRoom : (List ℕ → WriteResult) → Type 0
HasRoom write =
    WritesWithin write × ((bytes : List ℕ) → bytes ≢ [] → (n : ℕ) × (write bytes ≡ sent (suc n)))

module _ (k : ConnectionCallbacks) where
  -- One call of `handleWrite` for each time that there is room.
  abbrev pub drain : List (List ℕ → WriteResult) → TcpConnection → Option TcpConnection
  drain [] s = some s
  drain (write ∷ writes) s = handle_write k write s >>= drain writes

  drain_idle :
      {r : Bool} {s : TcpConnection} (writes : List (List ℕ → WriteResult))
      → IsSound r false s
      → drain writes s ≡ some s
  drain_idle [] v = refl
  drain_idle (write ∷ writes) v = rw (handle_write_idle k write v) (drain_idle writes v)

  all_written :
      {r : Bool} {s : TcpConnection}
      → IsSound r false s
      → s.state ≢ disconnected
      → written s.effects ≡ stream s
  all_written {s} v live =
      sym (append-nil (written s.effects))
      ∙ ap (◌++◌ (written s.effects)) (sym (v.drained refl live))

  -- The output is gone: every byte was handed to the kernel, writing is switched off, and the last things
  -- done are those that follow the last byte.
  abbrev pub IsDrained : Bool → (all : List ℕ) → List Effect → TcpConnection → Type 0
  IsDrained r all last s =
      IsSound r false s
      × (written s.effects ≡ all)
      × ((es : List Effect) × (s.effects ≡ es ++ last))

  -- Output never stays for ever: if the socket has room at least as often as there are bytes, the calls
  -- of `handleWrite` all succeed, and at the end the kernel has taken every byte, in order; writing is
  -- switched off, the write-complete callback is queued if it is set, and a shutdown that was asked
  -- for is done, as the last thing.
  pub drain_lem :
      {r : Bool} (writes : List (List ℕ → WriteResult)) (s : TcpConnection)
      → IsSound r true s
      → s.state ≢ disconnected
      → All HasRoom writes
      → length (content s.output_buffer) ≤ length writes
      → (s' : TcpConnection) × (drain writes s ≡ some s')
        × IsDrained r (stream s) (drained_effects k r s.state) s'
  drain_lem {r} [] s v live room enough =
      absurd (v.pending refl (nil_of_length (content s.output_buffer) (omega arith)))
  drain_lem {r} (write ∷ writes) s v live ((within, takes), room) enough =
      let (n, e) = takes (content s.output_buffer) (v.pending refl) in
      let h : suc n ≤ length (content s.output_buffer) =
        within (content s.output_buffer) (suc n) e in
      elim (ℕ_discrete (length (content s.output_buffer)) (suc n)) [
        | yes d ↦ (
          finished k v n h,
          rw (handle_write-drained k v n h write e d)
              (drain_idle writes (finished-IsSound k v n h d)),
          (
            finished-IsSound k v n h d,
            all_written (finished-IsSound k v n h d) (unfold finished sent_on in live)
                ∙ stream-finished k v n h,
            ((sent_on k v n h).effects, unfold finished in refl),
          ),
        )
        | no d ↦
            (let same : (sent_on k v n h).state ≡ s.state = (unfold sent_on in refl) in
              let (s', did, (sound, all, last)) =
                drain_lem writes (sent_on k v n h) (sent_on-IsSound k v n h d)
                  (λ z. live (sym same ∙ z)) room
                  (omega (
                    arith,
                    ap length (left k v n h),
                    length-drop (suc n) (content s.output_buffer),
                  )) in
              (
                s',
                rw (handle_write-left k v n h write e d) did,
                (
                  sound,
                  all ∙ stream-sent_on k v n h,
                  subst (λ st. (es : List Effect) × (s'.effects ≡ es ++ drained_effects k r st))
                      same last,
                ),
              ))
      ]
