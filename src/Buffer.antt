-- ===== src/Buffer.antt =====
-- Buffer.h and Buffer.cc: the byte buffer between a socket and the program.
pub mod Content
pub mod Append
pub mod Retrieve
pub mod Reads
pub mod Fifo
mod Tests
use htcp_multithread.Syscall.{ReadResult, received, read_failed, WriteResult}
use htcp_multithread.Prelude.{
  ℕ, ◌+◌, ◌-◌, ◌^◌, ◌≤◌, Bool, true, false, List, [], ◌∷◌, ◌++◌, Option, none, some, ltb, leb, ◌==◌,
  if◌then◌else◌, length, take, drop, replicate, add_size, sub_size, ◌>>=◌,
}

abbrev pub cheap_prepend : ℕ
cheap_prepend = 8

abbrev pub initial_size : ℕ
initial_size = 1024

-- The largest size of a `std::vector<char>`; a larger `resize` throws.
abbrev pub max_size : ℕ
max_size = 2 ^ 63 - 1

pub record Buffer : Type 0 where
  pub buffer : List ℕ
  pub reader_index : ℕ
  pub writer_index : ℕ

unfoldable pub init : ℕ → Buffer
init n = record {
  buffer = replicate (add_size cheap_prepend n) 0;
  reader_index = cheap_prepend;
  writer_index = cheap_prepend;
}

unfoldable pub readable_bytes : Buffer → ℕ
readable_bytes b = sub_size b.writer_index b.reader_index

unfoldable pub writable_bytes : Buffer → ℕ
writable_bytes b = sub_size (length b.buffer) b.writer_index

unfoldable pub prependable_bytes : Buffer → ℕ
prependable_bytes b = b.reader_index

-- The bytes of the array from `peek()` on.
unfoldable pub peek : Buffer → List ℕ
peek b = drop b.reader_index b.buffer

-- `n` bytes from offset `i` of an array; a fault where they do not all lie in it.
abbrev pub bytes_at : List ℕ → ℕ → ℕ → Option (List ℕ)
bytes_at xs i n = if leb (i + n) (length xs) then some (take n (drop i xs)) else none

-- `src` copied to offset `i` of an array; a fault where it does not fit.
abbrev pub write_at : List ℕ → ℕ → List ℕ → Option (List ℕ)
write_at xs i src =
    if leb (i + length src) (length xs)
    then some (take i xs ++ (src ++ drop (i + length src) xs))
    else none

-- `std::vector::resize`
abbrev pub resize : List ℕ → ℕ → Option (List ℕ)
resize xs n = if leb n max_size then some (take n xs ++ replicate (n - length xs) 0) else none

unfoldable pub retrieve_all : Buffer → Buffer
retrieve_all b = record b { reader_index = cheap_prepend; writer_index = cheap_prepend }

unfoldable pub retrieve : Buffer → ℕ → Buffer
unfolding readable_bytes retrieve_all
retrieve b len =
    if ltb len (readable_bytes b)
    then record b { reader_index = add_size b.reader_index len }
    else retrieve_all b

-- The string is read from `peek()` on, before the bytes are given back.
unfoldable pub retrieve_as_string : Buffer → ℕ → Option (List ℕ × Buffer)
retrieve_as_string b len = do
  result ← bytes_at b.buffer b.reader_index len
  some (result, retrieve b len)

unfoldable pub retrieve_all_as_string : Buffer → Option (List ℕ × Buffer)
retrieve_all_as_string b = retrieve_as_string b (readable_bytes b)

-- Either the vector grows, or the readable bytes move down to `kCheapPrepend`. The forward
-- `std::copy` there has its target below its source.
unfoldable pub make_space : Buffer → ℕ → Option Buffer
unfolding readable_bytes writable_bytes prependable_bytes
make_space b len =
    if ltb (add_size (writable_bytes b) (prependable_bytes b)) (add_size len cheap_prepend)
    then (do
      grown ← resize b.buffer (add_size b.writer_index len)
      some (record b { buffer = grown }))
    else (do
      let readable = readable_bytes b
      kept ← bytes_at b.buffer b.reader_index readable
      moved ← write_at b.buffer cheap_prepend kept
      some (record {
        buffer = moved;
        reader_index = cheap_prepend;
        writer_index = add_size cheap_prepend readable;
      }))

unfoldable pub ensure_writable_bytes : Buffer → ℕ → Option Buffer
unfolding writable_bytes
ensure_writable_bytes b len = if ltb (writable_bytes b) len then make_space b len else some b

-- `std::copy(data, data + len, beginWrite())` and the new end; `src` is the array that `data` points
-- into, from there on.
unfoldable pub copy_in : List ℕ → ℕ → Buffer → Option Buffer
copy_in src len b = do
  chunk ← bytes_at src 0 len
  written ← write_at b.buffer b.writer_index chunk
  some (record b { buffer = written; writer_index = add_size b.writer_index len })

unfoldable pub append : Buffer → List ℕ → ℕ → Option Buffer
append b src len = ensure_writable_bytes b len >>= copy_in src len

-- What `readFd` leaves behind: the buffer, the number returned (`none` is -1), and the value put
-- into `*saveErrno`, if any.
pub record ReadOutcome : Type 0 where
  pub after : Buffer
  pub count : Option ℕ
  pub saved_errno : Option ℕ

abbrev pub extrabuf_size : ℕ
extrabuf_size = 65536

-- The lengths of the `iovec`s handed to `readv`: the second one is the stack array `extrabuf`.
unfoldable pub iovecs : Buffer → List ℕ
unfolding writable_bytes
iovecs b =
    if ltb (writable_bytes b) extrabuf_size
    then writable_bytes b ∷ extrabuf_size ∷ []
    else writable_bytes b ∷ []

-- The branches after a `readv` that delivered `bytes`: it has filled the room behind
-- `writerIndex_` first, and `extrabuf` with the rest.
unfoldable pub take_in : List ℕ → Buffer → Option Buffer
take_in bytes b = do
  let writable = writable_bytes b
  let n = length bytes
  read ← write_at b.buffer b.writer_index (take writable bytes)
  if leb n writable
      then some (record b { buffer = read; writer_index = add_size b.writer_index n })
      else append (record b { buffer = read; writer_index = length read }) (drop writable bytes)
          (sub_size n writable)

unfoldable pub read_fd : (List ℕ → ReadResult) → Buffer → Option ReadOutcome
read_fd readv b = elim (readv (iovecs b)) [
  | read_failed errno ↦ some (record { after = b; count = none; saved_errno = some errno })
  | received bytes ↦ (do
    after ← take_in bytes b
    some (record { after = after; count = some (length bytes); saved_errno = none }))
]

-- `writeFd` hands all readable bytes to `write` and leaves the buffer alone.
unfoldable pub write_fd : (List ℕ → WriteResult) → Buffer → Option WriteResult
write_fd write b = do
  bytes ← bytes_at b.buffer b.reader_index (readable_bytes b)
  some (write bytes)
