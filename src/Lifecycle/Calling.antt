-- ===== src/Lifecycle/Calling.antt =====
-- The functors of the queues in the life of connections.
pub mod Establishing
pub mod Destroying
use htcp_multithread.Prelude.{
  ℕ, suc, ◌+◌, ◌≤◌, ◌<◌, ◌≡◌, ◌≢◌, refl, ap, sym, subst, ◌∙◌, Bool, true, false, Option, none, some,
  List, [], ◌∷◌, ◌++◌, length, Bool-cases, inl, inr, arith, ◌>>=◌, if◌then◌else◌,
}
use htcp_multithread.TcpServer.{
  TcpServer, Connection, Task, is_same, conn_name, run_in_loop, queue_in_loop, listen,
  connect_established, connect_destroyed, remove_connection_in_loop_of, erase,
  remove_connection_in_loop,
}
use htcp_multithread.TcpServer.Names.{is_same_self, is_same_sound}
use htcp_multithread.TcpServer.Table.{is_same_ne}
use htcp_multithread.TcpConnection
use htcp_multithread.TcpConnection.{
  TcpConnection, State, connecting, connected, disconnecting, is_state, disconnected, emit,
  channel_removed,
}
use htcp_multithread.TcpConnection.Runs.{callbacks}
use htcp_multithread.TcpConnection.Tally.{heard, silent, is_removal, is_closing}
use htcp_multithread.TcpConnection.Ending.{
  IsUp, IsTallied, Stays, connect_established-Stays, connect_destroyed-Removes,
}
use htcp_multithread.Lifecycle.{Object, System, set_object, collect, change_body, run_task}
use htcp_multithread.Lifecycle.Counts.{
  establishes, removes, destroys, count, held, count-append, count_middle, held-erase,
  held-erase_other, weight, weight-append,
}
use htcp_multithread.Lifecycle.Phases.{
  IsWhole, Phase, IsIssued, IsCounted, IsObject, IsDown, unborn, arriving, up, closing, leaving,
  gone, IsUnseen, IsNew, IsOf, Keeps, Phase-same, phases_but_one,
}

-- An object that is there gets another content.
pub set_object-IsIssued :
    {s : System} (v : IsWhole s) (name : List ℕ) (o o' : Object)
    → s.objects name ≡ some o
    → (n : List ℕ) (p : Object) → set_object name o' s.objects n ≡ some p
    → IsIssued s.server n
set_object-IsIssued {s} v name o o' e n p set = elim (Bool-cases (is_same name n)) [
  | inl same ↦ v.issued n o (ap s.objects (sym (is_same_sound name n same)) ∙ e)
  | inr other ↦ v.issued n p (ap (λ b. if b then some o' else s.objects n) (sym other) ∙ set)
]

pub set_object_other :
    (name n : List ℕ) (o : Object) (objects : List ℕ → Option Object)
    → name ≢ n
    → set_object name o objects n ≡ objects n
set_object_other name n o objects ne = rw (is_same_ne name n ne) refl

pub set_object_here :
    (name : List ℕ) (o : Object) (objects : List ℕ → Option Object)
    → set_object name o objects name ≡ some o
set_object_here name o objects = rw (is_same_self name) refl

pub set_object-Keeps :
    (s t : System) (name : List ℕ) (o o' : Object)
    → s.objects name ≡ some o
    → IsOf o o'
    → ((n : List ℕ) → t.objects n ≡ set_object name o' s.objects n)
    → Keeps s t
set_object-Keeps s t name o o' e same set n p e' = elim (Bool-cases (is_same name n)) [
  | inl here ↦
      (let it : o ≡ p = cc (sym e ∙ ap s.objects (is_same_sound name n here) ∙ e') in
        (
          o',
          set n ∙ ap (λ b. if b then some o' else s.objects n) here,
          subst (λ x. IsOf x o') it same,
        ))
  | inr other ↦ (p, set n ∙ ap (λ b. if b then some o' else s.objects n) other ∙ e', (refl, refl))
]

pub change_body_lem :
    (name : List ℕ) (f : Object → Option TcpConnection) (s : System) (o : Object)
    (body : TcpConnection)
    → s.objects name ≡ some o
    → f o ≡ some body
    → change_body name f s
      ≡ some (record s { objects = set_object name (record o { body = body }) s.objects })
change_body_lem name f s o body e did = rw (change_body, e, did)

pub established_still :
    (a b : State) → IsNew a → IsUp b → is_state b disconnected ≡ is_state a disconnected
established_still a connected new is_up = sym (ap (λ x. is_state x disconnected) new)
established_still a disconnecting new is_up = sym (ap (λ x. is_state x disconnected) new)
established_still a connecting new is_up = absurd is_up
established_still a disconnected new is_up = absurd is_up

module _ (c h : Bool) {s : System} (v : IsWhole s) (xs : List (ℕ × Task)) (l : ℕ) (task : Task)
    (ys : List (ℕ × Task)) (first : s.pending ≡ xs ++ (l, task) ∷ ys) where
  abbrev pub rest : System
  rest = record s { pending = xs ++ ys }

  taken : (p : Task → Bool) → count p s.pending ≡ count p rest.pending + (if p task then 1 else 0)
  taken p = ap (count p) first ∙ count_middle p xs l task ys

  pub not_taken : (p : Task → Bool) → p task ≡ false → count p rest.pending ≡ count p s.pending
  not_taken p e = omega (arith, taken p ∙ ap (λ b. count p rest.pending + (if b then 1 else 0)) e)

  pub was_taken : (p : Task → Bool) → p task ≡ true → count p s.pending ≡ suc (count p rest.pending)
  was_taken p e = omega (arith, taken p ∙ ap (λ b. count p rest.pending + (if b then 1 else 0)) e)

  pub weighed : weight s.pending ≡ weight (xs ++ ys) + weight ((l, task) ∷ [])
  weighed =
      ap weight first
      ∙ weight-append xs ((l, task) ∷ ys)
      ∙ omega (arith, weight-append xs ys, weight-append ((l, task) ∷ []) ys)

  -- The functor is called, the invariant holds after it, and fewer calls are to come.
  abbrev pub Goes : Type 0
  Goes =
      (t : System) × (run_task c h task rest ≡ some t)
      × IsWhole t
      × (weight t.pending < weight s.pending)
      × Keeps s t
