-- ===== src/EventLoopThreadPool/RoundRobin.antt =====
-- Which loop each new connection is given to.
use htcp_multithread.Prelude.{
  nil_of_length, Bool-cases, inl, inr, map, append-nil, append_assoc, length-map, ◌&&◌, dec_lt,
  ℕ_discrete, ap₂, ℕ, zero, suc, ◌+◌, ◌%◌, ◌<◌, ◌≡◌, ◌≢◌, refl, ap, sym, ◌∙◌, Bool, true, false,
  Option, some, List, [], ◌∷◌, ◌++◌, leb, ◌==◌, if◌then◌else◌, length, get_elem?, get_or, ◌>>=◌,
  arith,
}
use htcp_multithread.Prelude.Decimal.{decimal}
use native.Mathlib.Nat.{mod-eq_of_lt, mod_self, suc-mod, mod-lt, mod-add-mod, mod-mod, add-zero}
use htcp_multithread.EventLoopThreadPool.{
  EventLoopThreadPool, init, set_thread_num, start_thread, start_threads, start, get_next_loop,
  get_all_loops,
}

-- `next_` stays inside `loops_`.
abbrev pub IsInside : EventLoopThreadPool → Type 0
IsInside p = p.next < length (get_all_loops p)

-- The loop at a position, counted around.
abbrev pub loop_at : EventLoopThreadPool → ℕ → ℕ
loop_at p i = get_or (get_all_loops p) (i % length (get_all_loops p)) p.base_loop

-- `n` connections, one after the other.
abbrev pub deal : ℕ → EventLoopThreadPool → Option (List ℕ × EventLoopThreadPool)
deal zero p = some ([], p)
deal (suc n) p = do (loop, p₁) ← get_next_loop p; (rest, p₂) ← deal n p₁; some (loop ∷ rest, p₂)

-- The loops at `n` positions from `i` on.
abbrev pub turns : EventLoopThreadPool → (n i : ℕ) → List ℕ
turns p zero i = []
turns p (suc n) i = loop_at p i ∷ turns p n (suc i)

get_elem?-get_or : (xs : List ℕ) (i d : ℕ) → i < length xs → get_elem? xs i ≡ some (get_or xs i d)
get_elem?-get_or [] i d h = absurd (omega arith)
get_elem?-get_or (x ∷ xs) zero d h = refl
get_elem?-get_or (x ∷ xs) (suc i) d h = get_elem?-get_or xs i d (omega arith)

wrap_lem : (i n : ℕ) → i < n → (if leb n (i + 1) then 0 else i + 1) ≡ suc i % n
wrap_lem i n h = elim (dec_lt (suc i) n) [
  | yes inside ↦ rw (mod-eq_of_lt inside) (ground arith)
  | no last ↦ go n (omega arith)
]
  where
    go : (m : ℕ) → m ≡ suc i → (if leb m (i + 1) then 0 else i + 1) ≡ suc i % m
    go m e = rw (e, mod_self (suc i)) (ground arith)

pub get_next_loop_lem :
    (p : EventLoopThreadPool)
    → IsInside p
    → get_next_loop p
      ≡ some (loop_at p p.next, record p { next = suc p.next % length (get_all_loops p) })
unfolding get_next_loop get_all_loops
get_next_loop_lem p h = elim (ℕ_discrete (length p.loops) 0) [
  | yes none_made ↦ alone (nil_of_length p.loops none_made)
  | no some_made ↦ shared some_made
]
  where
    alone :
        p.loops ≡ []
        → get_next_loop p
          ≡ some (loop_at p p.next, record p { next = suc p.next % length (get_all_loops p) })
    alone e =
        let first : p.next ≡ 0 =
          (let h' : p.next < length (get_all_loops p) = h in ground (arith, h', e)) in
        rw (e, first) refl

    shared :
        length p.loops ≢ 0
        → get_next_loop p
          ≡ some (loop_at p p.next, record p { next = suc p.next % length (get_all_loops p) })
    shared ne =
        let all : get_all_loops p ≡ p.loops = ground (arith, ne) in
        let inside : p.next < length p.loops = rw (← all) h in
        let nonzero : (length p.loops == 0) ≡ false = ground (arith, ne) in
        rw
          (
            nonzero,
            get_elem?-get_or p.loops p.next p.base_loop inside,
            wrap_lem p.next (length p.loops) inside,
            mod-eq_of_lt inside,
          )
          refl

pub next-IsInside :
    (p : EventLoopThreadPool)
    → IsInside p
    → IsInside (record p { next = suc p.next % length (get_all_loops p) })
unfolding get_all_loops
next-IsInside p h = mod-lt (suc p.next) {m = length (get_all_loops p)} (omega (arith, h))

turns_mod :
    (p : EventLoopThreadPool) (n i j : ℕ)
    → i % length (get_all_loops p) ≡ j % length (get_all_loops p)
    → turns p n i ≡ turns p n j
turns_mod p zero i j e = refl
turns_mod p (suc n) i j e =
    ap₂ (λ a b. a ∷ b) (ap (λ k. get_or (get_all_loops p) k p.base_loop) e)
      (turns_mod p n (suc i) (suc j) (
        suc-mod i (length (get_all_loops p))
        ∙ ap (λ k. suc k % length (get_all_loops p)) e
        ∙ sym (suc-mod j (length (get_all_loops p)))))

turns_next :
    (p : EventLoopThreadPool) (next n i : ℕ) → turns (record p { next = next }) n i ≡ turns p n i
unfolding get_all_loops
turns_next p next zero i = refl
turns_next p next (suc n) i = ap (λ ls. loop_at p i ∷ ls) (turns_next p next n (suc i))

-- The pool deals the loops out in turn: of any number of connections, each goes to the loop after the
-- one before it, counted around all loops (the base loop alone where no thread was made), and the
-- access to `loops_` is always inside it.
pub deal_from :
    (n : ℕ) (p : EventLoopThreadPool)
    → IsInside p
    → deal n p
      ≡ some (turns p n p.next, record p { next = (p.next + n) % length (get_all_loops p) })
deal_from zero p h = rw (add-zero p.next, mod-eq_of_lt h) refl
deal_from (suc n) p h =
    let L = length (get_all_loops p) in
    let p₁ : EventLoopThreadPool = record p { next = suc p.next % L } in
    let all : get_all_loops p₁ ≡ get_all_loops p = (unfold get_all_loops in refl) in
    let rest = deal_from n p₁ (rw all (mod-lt (suc p.next) {m = L} (omega (arith, h)))) in
    let later =
      turns_next p (suc p.next % L) n (suc p.next % L)
      ∙ turns_mod p n (suc p.next % L) (suc p.next) (mod-mod (suc p.next) L) in
    let position : (suc p.next % L + n) % L ≡ (p.next + suc n) % L =
      mod-add-mod (suc p.next) L n ∙ ap (λ k. k % L) (omega arith) in
    rw (get_next_loop_lem p h, rest)
      (ap₂ (λ ls k. some (loop_at p p.next ∷ ls, record p { next = k })) later
        (ap (λ ls. (suc p.next % L + n) % length ls) all ∙ position))

-- The names of the threads `i`, ..., each the pool's name and a number.
abbrev pub thread_names : List ℕ → (n i : ℕ) → List (List ℕ)
thread_names name zero i = []
thread_names name (suc n) i = (name ++ decimal i) ∷ thread_names name n (suc i)

start_threads_lem :
    (start_loop : List ℕ → ℕ) (n i : ℕ) (p : EventLoopThreadPool)
    → start_threads start_loop n i p ≡ record p {
      threads = p.threads ++ thread_names p.name n i;
      loops = p.loops ++ map start_loop (thread_names p.name n i);
    }
start_threads_lem start_loop zero i p = rw (append-nil p.threads, append-nil p.loops) refl
start_threads_lem start_loop (suc n) i p =
    rw
      (
        start_threads_lem start_loop n (suc i) (start_thread start_loop i p),
        append_assoc p.threads _ _,
        append_assoc p.loops _ _,
      )
      refl

length-thread_names : (name : List ℕ) (n i : ℕ) → length (thread_names name n i) ≡ n
length-thread_names name zero i = refl
length-thread_names name (suc n) i = ap suc (length-thread_names name n (suc i))

abbrev started_pool : (List ℕ → ℕ) → Bool → ℕ → ℕ → List ℕ → EventLoopThreadPool
started_pool start_loop callback_set base_loop n name = record {
  base_loop = base_loop;
  name = name;
  started = true;
  num_threads = n;
  next = 0;
  threads = thread_names name n 0;
  loops = map start_loop (thread_names name n 0);
  inits = if n == 0 && callback_set then base_loop ∷ [] else [];
}

start-started_pool :
    (start_loop : List ℕ → ℕ) (callback_set : Bool) (base_loop n : ℕ) (name : List ℕ)
    → start start_loop callback_set (set_thread_num n (init base_loop name))
      ≡ started_pool start_loop callback_set base_loop n name
unfolding start set_thread_num init
start-started_pool start_loop callback_set base_loop n name =
    elim (Bool-cases (n == 0 && callback_set)) [
      | inl e ↦ rw (start_threads_lem, e) refl
      | inr e ↦ rw (start_threads_lem, e) refl
    ]

-- A pool started with `n` threads has one loop for each, which is the one that its thread made, and
-- deals from the first one on. Without threads the base loop does all the work, and the thread-init
-- callback is called for it here.
pub start_lem :
    (start_loop : List ℕ → ℕ) (callback_set : Bool) (base_loop n : ℕ) (name : List ℕ)
    → let p = start start_loop callback_set (set_thread_num n (init base_loop name)) in
      (p.threads ≡ thread_names name n 0)
      × (p.loops ≡ map start_loop p.threads)
      × (length p.loops ≡ n)
      × IsInside p
      × (p.next ≡ 0)
      × (p.inits ≡ (if n == 0 && callback_set then base_loop ∷ [] else []))
unfolding start set_thread_num init get_all_loops
start_lem start_loop callback_set base_loop n name =
    let count = length-map (thread_names name n 0) start_loop ∙ length-thread_names name n 0 in
    rw (start-started_pool) (refl, refl, count, ground (arith, count), refl, refl)
