-- ===== src/Poller/Simple.antt =====
-- An epoll instance as a map from descriptors to events, for concrete runs.
use htcp_multithread.Prelude.{
  ℕ, ◌≤◌, ◌≡◌, refl, Bool, true, false, Option, some, none, List, [], ◌∷◌, length, ltb, Bool-cases,
  subst, ◌==◌, if◌then◌else◌, arith, inl, inr,
}
use htcp_multithread.Epoll.{Epoll, EpollEvent, CtlOp, ctl_add, ctl_mod, ctl_del, ready, All}
use htcp_multithread.Poller.{update_map}

abbrev pub Interest : Type 0
Interest = ℕ → Option EpollEvent

abbrev pub ctl_at : CtlOp → EpollEvent → Option EpollEvent → Bool × Option EpollEvent
ctl_at ctl_add e none = (true, some e)
ctl_at ctl_add e (some o) = (false, some o)
ctl_at ctl_mod e none = (false, none)
ctl_at ctl_mod e (some o) = (true, some e)
ctl_at ctl_del e none = (false, none)
ctl_at ctl_del e (some o) = (true, none)

abbrev pub ctl : CtlOp → ℕ → EpollEvent → Interest → Bool × Interest
ctl op fd e k = let (done, o) = ctl_at op e (k fd) in (done, update_map fd o k)

-- Input arrives for descriptor 5, if that is waited for.
abbrev pub events_at : ℕ → Option EpollEvent → List EpollEvent
events_at size none = []
events_at size (some o) = if ltb 0 size then record { events = 1; ptr = o.ptr } ∷ [] else []

pub ctl_add_new :
    (fd : ℕ) (e : EpollEvent) (k : Interest)
    → k fd ≡ none
    → ((ctl ctl_add fd e k).0 ≡ true)
      × ((j : ℕ) → (ctl ctl_add fd e k).1 j ≡ (if fd == j then some e else k j))
ctl_add_new fd e k h = rw h (refl, λ j. refl)

pub ctl_mod_registered :
    (fd : ℕ) (e o : EpollEvent) (k : Interest)
    → k fd ≡ some o
    → ((ctl ctl_mod fd e k).0 ≡ true)
      × ((j : ℕ) → (ctl ctl_mod fd e k).1 j ≡ (if fd == j then some e else k j))
ctl_mod_registered fd e o k h = rw h (refl, λ j. refl)

pub ctl_del_registered :
    (fd : ℕ) (e o : EpollEvent) (k : Interest)
    → k fd ≡ some o
    → ((ctl ctl_del fd e k).0 ≡ true)
      × ((j : ℕ) → (ctl ctl_del fd e k).1 j ≡ (if fd == j then none else k j))
ctl_del_registered fd e o k h = rw h (refl, λ j. refl)

pub length-events_at : (size : ℕ) (o : Option EpollEvent) → length (events_at size o) ≤ size
length-events_at size none = omega arith
length-events_at size (some o) = ground arith

pub events_registered :
    (size : ℕ) (k : Interest) (o : Option EpollEvent)
    → k 5 ≡ o
    → All (λ e. (fd : ℕ) × (o : EpollEvent) × (k fd ≡ some o) × (o.ptr ≡ e.ptr)) (events_at size o)
events_registered size k none h = tt
events_registered size k (some o) h = elim (Bool-cases (ltb 0 size)) [
  | inl e ↦ rw e ((5, o, h, refl), tt)
  | inr e ↦ rw e tt
]

pub same_events : (es es' : List EpollEvent) → ready es ≡ ready es' → es ≡ es'
same_events es es' e = cc

abbrev pub simple_epoll : Epoll
simple_epoll = record {
  Kernel = Interest;
  create = λ _. none;
  interest = λ k. k;
  ctl = ctl;
  wait = λ size k. ready (events_at size (k 5));
  create_empty = λ fd. refl;
  add_new = ctl_add_new;
  mod_registered = ctl_mod_registered;
  del_registered = ctl_del_registered;
  wait_bounded =
      λ size k es e. rw (← same_events (events_at size (k 5)) es e) (length-events_at size (k 5));
  wait_registered = λ size k es e.
      subst (All _) (same_events (events_at size (k 5)) es e) (events_registered size k (k 5) refl);
}
