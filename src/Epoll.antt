-- ===== src/Epoll.antt =====
-- The epoll instance of the kernel, as the interface that EPollPoller.cc relies on: operations, and
-- the part of their manual pages that it uses. Resource limits and closed descriptors, for which
-- `epoll_ctl` fails too, are left aside.
use htcp_multithread.Prelude.{
  ℕ, ◌≤◌, ◌≡◌, Bool, true, Option, some, none, List, [], ◌∷◌, ◌==◌, if◌then◌else◌, length,
}

pub data CtlOp : Type 0 where
  ctl_add ctl_mod ctl_del : CtlOp

-- `epoll_event`: the mask, and the pointer in `data`.
pub record EpollEvent : Type 0 where
  pub events : ℕ
  pub ptr : ℕ

-- The result of `epoll_wait`: the events that came, or -1 with `errno`.
pub data WaitResult : Type 0 where
  ready : List EpollEvent → WaitResult
  wait_failed : ℕ → WaitResult

-- Every element of a list has the property.
abbrev pub All {ℓ κ} : {A : Type ℓ} → (A → Type κ) → List A → Type κ
All P [] = Unit
All P (x ∷ xs) = P x × All P xs

-- `interest k fd` is what descriptor `fd` is registered with. `ctl` returns whether it succeeded.
pub record Epoll : Type 1 where
  pub Kernel : Type 0
  pub create : Kernel
  pub interest : Kernel → ℕ → Option EpollEvent
  pub ctl : CtlOp → ℕ → EpollEvent → Kernel → Bool × Kernel
  pub wait : ℕ → Kernel → WaitResult
  pub create_empty : (fd : ℕ) → interest create fd ≡ none
  pub add_new :
      (fd : ℕ) (e : EpollEvent) (k : Kernel)
      → interest k fd ≡ none
      → ((ctl ctl_add fd e k).0 ≡ true)
        × ((j : ℕ) → interest (ctl ctl_add fd e k).1 j ≡ (if fd == j then some e else interest k j))
  pub mod_registered :
      (fd : ℕ) (e o : EpollEvent) (k : Kernel)
      → interest k fd ≡ some o
      → ((ctl ctl_mod fd e k).0 ≡ true)
        × ((j : ℕ) → interest (ctl ctl_mod fd e k).1 j ≡ (if fd == j then some e else interest k j))
  pub del_registered :
      (fd : ℕ) (e o : EpollEvent) (k : Kernel)
      → interest k fd ≡ some o
      → ((ctl ctl_del fd e k).0 ≡ true)
        × ((j : ℕ) → interest (ctl ctl_del fd e k).1 j ≡ (if fd == j then none else interest k j))
  pub wait_bounded :
      (size : ℕ) (k : Kernel) (es : List EpollEvent) → wait size k ≡ ready es → length es ≤ size
  pub wait_registered :
      (size : ℕ) (k : Kernel) (es : List EpollEvent)
      → wait size k ≡ ready es
      → All (λ e. (fd : ℕ) × (o : EpollEvent) × (interest k fd ≡ some o) × (o.ptr ≡ e.ptr)) es
