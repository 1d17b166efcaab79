-- ===== src/TcpConnection/Runs/Steps.antt =====
-- The invariant of a run, and what carries it from one operation to the next.
use htcp_multithread.Prelude.{
  ℕ, ◌≡◌, refl, ap, sym, subst, ◌∙◌, Bool, true, false, some, List, [], ◌∷◌, ◌++◌, ◌⊎◌, inl, inr,
  append-nil,
}
use htcp_multithread.Buffer.Content.{content}
use htcp_multithread.TcpConnection.{
  TcpConnection, Effect, State, connected, disconnecting, write_shut_down,
}
use htcp_multithread.TcpConnection.Sound.{IsSound, state-IsSound}
use htcp_multithread.TcpConnection.Stream.{written, stream, written-append}
use htcp_multithread.TcpConnection.Silence.{
  masked, masked-append, Line, sending, ended, follow, line_after, follow-append, after_end,
  HasEnded,
}
use htcp_multithread.TcpConnection.Closing.{shut}
use htcp_multithread.TcpConnection.Runs.{Op, callbacks, run_op, said}

-- The line to the peer is open, or it was ended when nothing was left to send and the program could send
-- no more.
abbrev pub FitsLine : Line → (w : Bool) → State → (out : List ℕ) → Type 0
FitsLine line w state out =
    (line ≡ sending) ⊎ ((line ≡ ended) × (w ≡ false) × HasEnded state × (out ≡ []))

-- The invariant of a run: the connection is sound, what was written and what waits is what was given to be
-- sent, the line to the peer fits the state, and the poller was last told what the channel waits for.
pub record IsFine (w : Bool) (s : TcpConnection) (all : List ℕ) : Type 0 where
  pub r : Bool
  pub sound : IsSound r w s
  pub all_said : stream s ≡ all
  pub line : FitsLine (line_after s.effects) w s.state (content s.output_buffer)
  pub told : masked 0 s.effects ≡ s.channel.events

-- Effects that the peer does not see.
abbrev IsUnseen : List Effect → Type 0
IsUnseen es = (line : Line) → follow line es ≡ line

line_unseen : (xs ys : List Effect) → IsUnseen ys → line_after (xs ++ ys) ≡ line_after xs
line_unseen xs ys h = follow-append sending xs ys ∙ h (line_after xs)

-- A step that sends nothing: what it did to the connection, and that the peer sees none of it.
pub unseen-IsFine :
    {w w' : Bool} {s t : TcpConnection} {all : List ℕ} (es : List Effect)
    → IsFine w s all
    → (r' : Bool) → IsSound r' w' t
    → t.effects ≡ s.effects ++ es
    → content t.output_buffer ≡ content s.output_buffer
    → written es ≡ []
    → IsUnseen es
    → masked s.channel.events es ≡ t.channel.events
    → FitsLine (line_after s.effects) w' t.state (content s.output_buffer)
    → IsFine w' t all
unseen-IsFine {s} {t} es v r' sound did same silent unseen tells fits = record {
  r = r';
  sound = sound;
  all_said =
      rw (did, written-append s.effects es, silent, append-nil (written s.effects), same)
        v.all_said;
  line = inl_or t.state (ap line_after did ∙ line_unseen s.effects es unseen) same fits;
  told = ap (masked 0) did ∙ masked-append 0 s.effects es ∙ ap (λ m. masked m es) v.told ∙ tells;
}
  where
    inl_or :
        {l l' : Line} {w' : Bool} (st : State) {out out' : List ℕ}
        → l ≡ l'
        → out ≡ out'
        → FitsLine l' w' st out'
        → FitsLine l w' st out
    inl_or st e f (inl a) = inl (e ∙ a)
    inl_or st e f (inr (a, idle, h, gone_)) = inr (e ∙ a, idle, h, f ∙ gone_)

-- Once the connection waits for nothing, any state in which the program can send no more fits.
pub ended-FitsLine :
    {line : Line} {w : Bool} (state state' : State) {out : List ℕ}
    → HasEnded state'
    → FitsLine line w state out
    → FitsLine line false state' out
ended-FitsLine state state' h (inl e) = inl e
ended-FitsLine state state' h (inr (e, idle, ended_before, gone_)) = inr (e, refl, h, gone_)

-- The line of a connection that can still send.
pub line_live :
    {line : Line} {w : Bool} (state : State) {out : List ℕ}
    → (HasEnded state → ⊥)
    → FitsLine line w state out
    → line ≡ sending
line_live state live (inl e) = e
line_live state live (inr (e, idle, h, gone_)) = absurd (live h)

pub line_waiting :
    {line : Line} (state : State) {out : List ℕ} → FitsLine line true state out → line ≡ sending
line_waiting state (inl e) = e
line_waiting state (inr (e, idle, h, gone_)) = absurd (cc)

pub line_connected :
    {line : Line} {w : Bool} {state : State} {out : List ℕ}
    → state ≡ connected
    → FitsLine line w state out
    → line ≡ sending
line_connected {state} e f = line_live state (subst (λ st. HasEnded st → ⊥) (sym e) (λ x. x)) f

-- The shutdown of a connection: at once, or left to `handleWrite`.
pub shut-IsFine :
    {s : TcpConnection} {all : List ℕ} (w : Bool)
    → IsFine w s all
    → s.state ≡ connected
    → IsFine w (shut w s) all
shut-IsFine {s} true v e = record {
  r = v.r;
  sound = state-IsSound disconnecting s.effects (λ d. cc) v.sound;
  all_said = v.all_said;
  line = inl (line_connected e v.line);
  told = v.told;
}
shut-IsFine {s} false v e = record {
  r = v.r;
  sound = state-IsSound disconnecting (s.effects ++ write_shut_down ∷ []) (λ d. cc) v.sound;
  all_said =
      rw (written-append s.effects (write_shut_down ∷ []), append-nil (written s.effects))
        v.all_said;
  line = inr (
    follow-append sending s.effects (write_shut_down ∷ []) ∙ ap after_end (line_connected e v.line),
    refl,
    tt,
    v.sound.drained refl (λ d. cc),
  );
  told = masked-append 0 s.effects (write_shut_down ∷ []) ∙ v.told;
}

-- The operation succeeds, and keeps the invariant, when `said` is all that was given to be sent by then.
abbrev pub Goes : (c h : Bool) → TcpConnection → Op → (said : List ℕ) → Type 0
Goes c h s op said =
    (t : TcpConnection) × (w' : Bool) × (run_op (callbacks c h) op s ≡ some t) × IsFine w' t said
