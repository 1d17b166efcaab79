-- ===== src/Syscall.antt =====
-- What the system calls that move bytes report. The calls themselves are parameters of the model:
-- a call is a function from what it is handed to its result.
use htcp_multithread.Prelude.{ℕ, ◌+◌, ◌≤◌, ◌≡◌, List, [], ◌∷◌, length}

-- `readv`: the bytes that arrived, or -1 with `errno`.
pub data ReadResult : Type 0 where
  received : List ℕ → ReadResult
  read_failed : ℕ → ReadResult

-- `write`: how many bytes went out, or -1 with `errno`.
pub data WriteResult : Type 0 where
  sent : ℕ → WriteResult
  write_failed : ℕ → WriteResult

abbrev pub sum : List ℕ → ℕ
sum [] = 0
sum (x ∷ xs) = x + sum xs

-- `readv` never delivers more than the buffers that it is handed can hold.
abbrev pub ReadsWithin : (List ℕ → ReadResult) → Type 0
ReadsWithin readv =
    (lens : List ℕ) (bytes : List ℕ) → readv lens ≡ received bytes → length bytes ≤ sum lens

-- `write` never takes more than it is handed.
abbrev pub WritesWithin : (List ℕ → WriteResult) → Type 0
WritesWithin write = (bytes : List ℕ) (n : ℕ) → write bytes ≡ sent n → n ≤ length bytes

-- `getsockopt(SO_ERROR)`: the pending error of the socket, or -1 with `errno`.
pub data SockoptResult : Type 0 where
  optval : ℕ → SockoptResult
  sockopt_failed : ℕ → SockoptResult

-- The values of `errno` that the program tests for.
abbrev pub ewouldblock : ℕ
ewouldblock = 11

abbrev pub emfile : ℕ
emfile = 24

abbrev pub epipe : ℕ
epipe = 32

abbrev pub econnreset : ℕ
econnreset = 104
