-- ===== src/Thread/Life.antt =====
-- Which sequences of `start` and `join` a thread lives through, and which threads can be destroyed.
use htcp_multithread.Prelude.{
  ℕ, suc, ◌≡◌, refl, Bool, true, false, Option, none, some, List, [], ◌∷◌, take, ◌>>=◌,
}
use htcp_multithread.Prelude.Decimal.{decimal}
use htcp_multithread.Thread.{Thread, not_joinable, init, start, join, destroy, set_default_name}

-- What a program does with a thread; the new thread has the id `tid`.
pub data Op : Type 0 where
  starts : ℕ → Op
  joins : Op

abbrev pub step : Op → Thread → Option Thread
step (starts tid) s = start (some tid) s
step joins s = join s

abbrev pub run : List Op → Thread → Option Thread
run [] s = some s
run (op ∷ ops) s = step op s >>= run ops

-- The whole life of a thread: what is done with it, and its destructor.
abbrev pub live : List Op → Thread → Option Thread
live ops s = run ops s >>= destroy

abbrev pub is_some {ℓ} : {A : Type ℓ} → Option A → Bool
is_some none = false
is_some (some a) = true

-- An independent description of the lives that end well. Once a thread was joined, every start is
-- followed by a join.
abbrev is_paired : List Op → Bool
is_paired [] = true
is_paired (starts tid ∷ joins ∷ ops) = is_paired ops
is_paired _ = false

abbrev pub ends_well : List Op → Bool
ends_well (starts tid ∷ []) = true
ends_well ops = is_paired ops

-- A thread that was joined, and one that was joined and started again.
abbrev over : ℕ → List ℕ → Thread
over tid name = record {
  started = true;
  joined = true;
  thread = some not_joinable;
  tid = tid;
  name = name;
}

live-over :
    (ops : List Op) (tid : ℕ) (name : List ℕ) → is_some (live ops (over tid name)) ≡ is_paired ops
unfolding start join destroy
live-over [] tid name = refl
live-over (joins ∷ ops) tid name = refl
live-over (starts t ∷ []) tid name = refl
live-over (starts t ∷ joins ∷ ops) tid name = live-over ops t name
live-over (starts t ∷ starts u ∷ ops) tid name = refl

live-new :
    (ops : List Op) (name : List ℕ)
    → is_some
        (live ops (record { started = false; joined = false; thread = none; tid = 0; name = name }))
      ≡ ends_well ops
unfolding start join destroy
live-new [] name = refl
live-new (joins ∷ ops) name = refl
live-new (starts t ∷ []) name = refl
live-new (starts t ∷ joins ∷ ops) name = live-over ops t name
live-new (starts t ∷ starts u ∷ ops) name = refl

-- A thread lives through a sequence of starts and joins and its destructor exactly if it is never
-- started, or started once, or joined after each start; every other sequence ends the process, also
-- one that joins a thread, starts it again and leaves it running.
pub live_lem :
    (num_created : ℕ) (name : List ℕ) (ops : List Op)
    → is_some (live ops (init num_created name).0) ≡ ends_well ops
unfolding init set_default_name
live_lem num_created [] ops =
    live-new ops (take 31 (84 ∷ 104 ∷ 114 ∷ 101 ∷ 97 ∷ 100 ∷ decimal (suc num_created)))
live_lem num_created (c ∷ cs) ops = live-new ops (c ∷ cs)
