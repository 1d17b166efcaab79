-- ===== src/Lifecycle/Phases.antt =====
-- The phases of a connection, and what is in the queues and in the table in each.
use htcp_multithread.Prelude.{
  ℕ, ◌≤◌, ◌<◌, ◌≡◌, ◌≢◌, ap, sym, subst, ◌∙◌, none, some, List, [], length, Bool-cases, inl, inr,
}
use htcp_multithread.TcpServer.{TcpServer, is_same, conn_name, int_max}
use htcp_multithread.TcpServer.Names.{max_ip_port, is_same_self, is_same_sound}
use htcp_multithread.TcpConnection.{State, connecting, disconnected, is_state}
use htcp_multithread.TcpConnection.Ending.{IsUp, IsTallied}
use htcp_multithread.Lifecycle.{Object, System}
use htcp_multithread.Lifecycle.Counts.{establishes, removes, destroys, count, held}

-- So many functors of each kind for the name, and so many entries of the table.
abbrev pub IsCounted : System → List ℕ → (to_establish to_remove to_destroy entries : ℕ) → Type 0
IsCounted s n e r d t =
    (count (establishes n) s.pending ≡ e)
    × (count (removes n) s.pending ≡ r)
    × (count (destroys n) s.pending ≡ d)
    × (held n s.server.connections ≡ t)

-- `s` has an object under this name, in a state, with so many calls of its close callback and removals of
-- its channel so far.
abbrev pub IsObject : System → List ℕ → Object → (State → Type 0) → (closings removals : ℕ) → Type 0
IsObject s n o P c r =
    (s.objects n ≡ some o) × (o.facts.name ≡ n) × P o.body.state × IsTallied c r o.body.effects

abbrev pub IsNew : State → Type 0
IsNew st = st ≡ connecting

abbrev pub IsDown : State → Type 0
IsDown st = st ≡ disconnected

-- The life of a connection: it does not exist; its establishment waits in a queue; it is up; it has
-- closed and its removal waits in the server's queue; it is out of the table and its destruction
-- waits in its loop's queue; it is gone.
pub data Phase (s : System) (n : List ℕ) : Type 0 where
  unborn : s.objects n ≡ none → IsCounted s n 0 0 0 0 → Phase s n
  arriving : (o : Object) → IsObject s n o IsNew 0 0 → IsCounted s n 1 0 0 1 → Phase s n
  up : (o : Object) → IsObject s n o IsUp 0 0 → IsCounted s n 0 0 0 1 → Phase s n
  closing : (o : Object) → IsObject s n o IsDown 1 0 → IsCounted s n 0 1 0 1 → Phase s n
  leaving : (o : Object) → IsObject s n o IsDown 1 0 → IsCounted s n 0 0 1 0 → Phase s n
  gone : (o : Object) → IsObject s n o IsDown 1 1 → IsCounted s n 0 0 0 0 → Phase s n

-- Nothing happened to the name.
pub record IsUnseen (s t : System) (n : List ℕ) : Type 0 where
  pub object : t.objects n ≡ s.objects n
  pub to_establish : count (establishes n) t.pending ≡ count (establishes n) s.pending
  pub to_remove : count (removes n) t.pending ≡ count (removes n) s.pending
  pub to_destroy : count (destroys n) t.pending ≡ count (destroys n) s.pending
  pub entries : held n t.server.connections ≡ held n s.server.connections

module _ {s t : System} {n : List ℕ} (same : IsUnseen s t n) where
  IsCounted-same : (e r d h : ℕ) → IsCounted s n e r d h → IsCounted t n e r d h
  IsCounted-same e r d h (a, b, c, g) =
      (same.to_establish ∙ a, same.to_remove ∙ b, same.to_destroy ∙ c, same.entries ∙ g)

  IsObject-same :
      (o : Object) (P : State → Type 0) (c r : ℕ) → IsObject s n o P c r → IsObject t n o P c r
  IsObject-same o P c r (a, b, p, q) = (same.object ∙ a, b, p, q)

  pub Phase-same : Phase s n → Phase t n
  Phase-same (unborn a k) = unborn (same.object ∙ a) (IsCounted-same 0 0 0 0 k)
  Phase-same (arriving o a k) = arriving o (IsObject-same o IsNew 0 0 a) (IsCounted-same 1 0 0 1 k)
  Phase-same (up o a k) = up o (IsObject-same o IsUp 0 0 a) (IsCounted-same 0 0 0 1 k)
  Phase-same (closing o a k) = closing o (IsObject-same o IsDown 1 0 a) (IsCounted-same 0 1 0 1 k)
  Phase-same (leaving o a k) = leaving o (IsObject-same o IsDown 1 0 a) (IsCounted-same 0 0 1 0 k)
  Phase-same (gone o a k) = gone o (IsObject-same o IsDown 1 1 a) (IsCounted-same 0 0 0 0 k)

-- A step that concerns one name only.
pub phases_but_one :
    {s t : System} (name : List ℕ)
    → ((n : List ℕ) → Phase s n)
    → ((n : List ℕ) → name ≢ n → IsUnseen s t n)
    → Phase t name
    → (n : List ℕ) → Phase t n
phases_but_one {s} {t} name all others here n = elim (Bool-cases (is_same name n)) [
  | inl same ↦ subst (Phase t) (is_same_sound name n same) here
  | inr other ↦
      Phase-same (others n (λ e. cc (sym other ∙ ap (is_same name) (sym e) ∙ is_same_self name)))
        (all n)
]

-- A name that the server has given out.
abbrev pub IsIssued : TcpServer → List ℕ → Type 0
IsIssued server n = (id : ℕ) × (id < server.next_conn_id) × (n ≡ conn_name server id)

-- Every name has a phase, and objects have only names that the server has given out.
pub record IsWhole (s : System) : Type 0 where
  pub phases : (n : List ℕ) → Phase s n
  pub issued : (n : List ℕ) (o : Object) → s.objects n ≡ some o → IsIssued s.server n
  pub collected : s.server.effects ≡ []
  pub short : length s.server.ip_port ≤ max_ip_port
  pub counted : s.server.next_conn_id ≤ int_max

-- No object is lost, none gets other facts, and the same ones are closed.
abbrev pub IsOf : Object → Object → Type 0
IsOf o o' =
    (o'.facts ≡ o.facts)
    × (is_state o'.body.state disconnected ≡ is_state o.body.state disconnected)

abbrev pub Keeps : System → System → Type 0
Keeps s t =
    (n : List ℕ) (o : Object)
    → s.objects n ≡ some o
    → (o' : Object) × (t.objects n ≡ some o') × IsOf o o'
