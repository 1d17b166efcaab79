-- ===== src/CurrentThread/Cache.antt =====
-- The cached ids are the kernel's, and no thread asks the kernel twice.
use htcp_multithread.Prelude.{
  ℕ, suc, ◌%◌, ◌^◌, ◌≤◌, ◌<◌, ◌≡◌, ◌↔◌, refl, ap, ap₂, sym, ◌∙◌, true, false, List, [], ◌∷◌, map,
  ◌==◌, ==_iff, if◌then◌else◌, Bool-cases, ◌⊎◌, inl, inr, arith,
}
use htcp_multithread.CurrentThread.{
  CurrentThread, init, update, cache_tid, tid, tids, is_in_loop_thread,
}

-- How often a thread made the system call.
abbrev pub count : ℕ → List ℕ → ℕ
count t [] = 0
count t (u ∷ us) = if t == u then suc (count t us) else count t us

-- Every thread knows no id and never asked, or asked once and keeps what it was told.
abbrev pub IsCached : (ℕ → ℕ) → CurrentThread → Type 0
IsCached gettid s =
    (t : ℕ)
    → ((s.t_cached_tid t ≡ 0) × (count t s.asked ≡ 0))
      ⊎ ((s.t_cached_tid t ≡ gettid t) × (count t s.asked ≡ 1))

pub init-IsCached : (gettid : ℕ → ℕ) → IsCached gettid init
init-IsCached gettid t = inl (refl, refl)

-- What the kernel's ids are like: positive, and within a `pid_t`.
abbrev pub IsPid : (ℕ → ℕ) → Type 0
IsPid gettid = (t : ℕ) → (0 < gettid t) × (gettid t < 2 ^ 31)

module _ (gettid : ℕ → ℕ) (pid : IsPid gettid) where
  -- The state in which thread `t` has its id.
  abbrev known : ℕ → CurrentThread → CurrentThread
  known t s = record { t_cached_tid = update t (gettid t) s.t_cached_tid; asked = t ∷ s.asked }

  known-IsCached :
      (t : ℕ) (s : CurrentThread)
      → count t s.asked ≡ 0
      → IsCached gettid s
      → IsCached gettid (known t s)
  known-IsCached t s c v u = elim (Bool-cases (u == t)) [
    | inl e ↦
        (let same : u ≡ t = ground arith in
          rw e (inr (sym (ap gettid same), ap suc (ap (λ x. count x s.asked) same ∙ c))))
    | inr e ↦ rw e (v u)
  ]

  pub tid_lem :
      (t : ℕ) (s : CurrentThread)
      → IsCached gettid s
      → ((tid gettid t s).0 ≡ gettid t) × IsCached gettid (tid gettid t s).1
  unfolding tid cache_tid
  tid_lem t s v = elim (v t) [
    | inl (z, c) ↦ rw (z, small) (own, known-IsCached t s c v)
    | inr (e, c) ↦ rw (nonzero e) (e, v)
  ]
    where
      small : gettid t % 2 ^ 32 ≡ gettid t
      small = omega (arith, (pid t).1)

      own : update t (gettid t) s.t_cached_tid t ≡ gettid t
      own = ground arith

      nonzero : s.t_cached_tid t ≡ gettid t → (s.t_cached_tid t == 0) ≡ false
      nonzero e = ground (arith, (pid t).0)

  tids-IsCached :
      (ts : List ℕ) (s : CurrentThread)
      → IsCached gettid s
      → ((tids gettid ts s).0 ≡ map gettid ts) × IsCached gettid (tids gettid ts s).1
  tids-IsCached [] s v = (refl, v)
  tids-IsCached (t ∷ ts) s v =
      let (e, v₁) = tid_lem t s v in
      let (es, v₂) = tids-IsCached ts (tid gettid t s).1 v₁ in (ap₂ ◌∷◌ e es, v₂)

  -- Whichever threads ask for their ids, how often and in which order, each is told the kernel's id for
  -- it, if the kernel's ids are positive and fit a `pid_t`; and none makes the system call twice.
  pub tids_lem :
      (ts : List ℕ)
      → ((tids gettid ts init).0 ≡ map gettid ts)
        × ((t : ℕ) → count t (tids gettid ts init).1.asked ≤ 1)
  tids_lem ts =
      let (e, v) = tids-IsCached ts init (init-IsCached gettid) in
      (e, λ t. elim (v t) [ inl (z, c) ↦ omega (arith, c) | inr (z, c) ↦ omega (arith, c) ])

  -- `isInLoopThread` says yes exactly in the thread whose id the loop has, whether that thread's id
  -- was cached or not, if the two threads do not have one id; and the cache stays right.
  pub is_in_loop_thread_lem :
      (owner t : ℕ) (s : CurrentThread)
      → (gettid owner ≡ gettid t → owner ≡ t)
      → IsCached gettid s
      → (((is_in_loop_thread gettid (gettid owner) t s).0 ≡ true) ↔ (owner ≡ t))
        × IsCached gettid (is_in_loop_thread gettid (gettid owner) t s).1
  unfolding is_in_loop_thread
  is_in_loop_thread_lem owner t s one v =
      let (e, v₁) = tid_lem t s v in
      (
        rw e (
            (
              λ h. one ((==_iff (gettid owner) (gettid t)).0 h),
              λ h. (==_iff (gettid owner) (gettid t)).1 (ap gettid h),
            )),
        v₁,
      )
