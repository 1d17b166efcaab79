-- ===== src/TcpConnection/Silence.antt =====
-- What the peer sees of a connection's effects, which is bytes and the end of the stream, and what its
-- poller is told.
use htcp_multithread.Prelude.{ℕ, ◌≡◌, refl, Bool, true, false, List, [], ◌∷◌, ◌++◌, if◌then◌else◌}
use htcp_multithread.TcpConnection.{
  Effect, keep_alive_set, channel_updated, channel_removed, functor_queued, bytes_written,
  write_shut_down, connection_called, message_called, close_called, error_logged, State,
  disconnected, disconnecting,
}

-- Broken is a line on which bytes, or the end once more, came after the end.
pub data Line : Type 0 where
  sending ended broken : Line

abbrev pub after_bytes : Line → Line
after_bytes sending = sending
after_bytes _ = broken

abbrev pub after_end : Line → Line
after_end sending = ended
after_end _ = broken

abbrev pub step : Line → Effect → Line
step line (bytes_written bytes) = after_bytes line
step line write_shut_down = after_end line
step line _ = line

abbrev pub follow : Line → List Effect → Line
follow line [] = line
follow line (e ∷ es) = follow (step line e) es

-- The line to the peer after all effects so far.
abbrev pub line_after : List Effect → Line
line_after es = follow sending es

pub follow-append :
    (line : Line) (xs ys : List Effect) → follow line (xs ++ ys) ≡ follow (follow line xs) ys
follow-append line [] ys = refl
follow-append line (e ∷ xs) ys = follow-append (step line e) xs ys

-- The states in which the program can send no more.
abbrev pub HasEnded : State → Type 0
HasEnded disconnected = Unit
HasEnded disconnecting = Unit
HasEnded _ = ⊥

pub follow-if :
    (line : Line) (b : Bool) (e : Effect)
    → step line e ≡ line
    → follow line (if b then e ∷ [] else []) ≡ line
follow-if line true e h = h
follow-if line false e h = refl

-- The mask that the poller was told last, `m` if it was told none.
abbrev pub masked : (m : ℕ) → List Effect → ℕ
masked m [] = m
masked m (channel_updated events ∷ es) = masked events es
masked m (_ ∷ es) = masked m es

pub masked-append : (m : ℕ) (xs ys : List Effect) → masked m (xs ++ ys) ≡ masked (masked m xs) ys
masked-append m [] ys = refl
masked-append m (channel_updated e ∷ xs) ys = masked-append e xs ys
masked-append m (keep_alive_set ∷ xs) ys = masked-append m xs ys
masked-append m (channel_removed ∷ xs) ys = masked-append m xs ys
masked-append m (functor_queued f ∷ xs) ys = masked-append m xs ys
masked-append m (bytes_written bytes ∷ xs) ys = masked-append m xs ys
masked-append m (write_shut_down ∷ xs) ys = masked-append m xs ys
masked-append m (connection_called st ∷ xs) ys = masked-append m xs ys
masked-append m (message_called ∷ xs) ys = masked-append m xs ys
masked-append m (close_called ∷ xs) ys = masked-append m xs ys
masked-append m (error_logged e ∷ xs) ys = masked-append m xs ys

pub masked-if :
    (m : ℕ) (b : Bool) (e : Effect)
    → masked m (e ∷ []) ≡ m
    → masked m (if b then e ∷ [] else []) ≡ m
masked-if m true e h = h
masked-if m false e h = refl
