-- ===== src/Thread.antt =====
-- Thread.h and Thread.cc: an operating system thread with its name and its id.
pub mod Life
pub mod Names
mod Tests
use htcp_multithread.Prelude.{
  ℕ, suc, ◌+◌, Bool, true, false, not, ◌&&◌, Option, none, some, List, [], ◌∷◌, ◌++◌, leb,
  if◌then◌else◌, length, take, ◌>>=◌,
}
use htcp_multithread.Prelude.Decimal.{decimal}

-- `std::thread`: it stands for a running thread until it is joined or detached.
pub data StdThread : Type 0 where
  joinable not_joinable : StdThread

-- `thread` is none for the null pointer. `func_` is a program's own; what matters is that a new thread
-- runs it.
pub record Thread : Type 0 where
  pub started : Bool
  pub joined : Bool
  pub thread : Option StdThread
  pub tid : ℕ
  pub name : List ℕ

abbrev is_empty : List ℕ → Bool
is_empty [] = true
is_empty _ = false

-- `snprintf` into 32 bytes: at most 31 characters and a final zero. `num` is the number of the thread,
-- and a name is ASCII.
unfoldable pub set_default_name : (num : ℕ) → Thread → Thread
set_default_name num s =
    if is_empty s.name
    then record s { name = take 31 (84 ∷ 104 ∷ 114 ∷ 101 ∷ 97 ∷ 100 ∷ decimal num) }
    else s

-- The constructor, with `numCreated_` as a second result.
unfoldable pub init : (num_created : ℕ) → (name : List ℕ) → Thread × ℕ
init num_created name =
    let num = suc num_created in
    (
      set_default_name num
          (record { started = false; joined = false; thread = none; tid = 0; name = name }),
      num,
    )

-- The destructor of a `std::thread` that is still joinable ends the process, here none.
abbrev pub release : Option StdThread → Option (Option StdThread)
release (some joinable) = none
release _ = some none

-- `new_tid` is the id of the new thread, none if there can be no more threads. The caller waits
-- until the new thread has stored its id. The object that `thread_` had before is destroyed.
unfoldable pub start : (new_tid : Option ℕ) → Thread → Option Thread
start new_tid s = do
  tid ← new_tid
  _ ← release s.thread
  some (record s { started = true; thread = some joinable; tid = tid })

-- `std::thread::join` and `detach` throw on a thread that is not joinable; a null pointer is a fault.
abbrev pub let_go : Option StdThread → Option (Option StdThread)
let_go (some joinable) = some (some not_joinable)
let_go _ = none

unfoldable pub join : Thread → Option Thread
join s = do thread ← let_go s.thread; some (record s { joined = true; thread = thread })

-- The destructor, and with it that of `thread_`.
unfoldable pub destroy : Thread → Option Thread
destroy s = do
  thread ← if s.started && not s.joined then let_go s.thread else some s.thread
  released ← release thread
  some (record s { thread = released })
