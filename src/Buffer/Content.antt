-- ===== src/Buffer/Content.antt =====
-- What a buffer holds, and the layout invariant that the picture in Buffer.h draws.
use htcp_multithread.Prelude.{
  ℕ, ◌+◌, ◌-◌, ◌≤◌, ◌≡◌, refl, List, arith, length, List, [], window, length-window,
  length-replicate, add_size,
}
use htcp_multithread.Buffer.{
  Buffer, cheap_prepend, max_size, init, readable_bytes, writable_bytes, prependable_bytes,
}

-- The readable bytes, oldest first.
abbrev pub content : Buffer → List ℕ
content b = window b.buffer b.reader_index (b.writer_index - b.reader_index)

-- kCheapPrepend <= readerIndex <= writerIndex <= size
pub record IsValid (b : Buffer) : Type 0 where
  pub prepend : cheap_prepend ≤ b.reader_index
  pub ordered : b.reader_index ≤ b.writer_index
  pub within : b.writer_index ≤ length b.buffer
  pub small : length b.buffer ≤ max_size

pub length-content : {b : Buffer} → IsValid b → length (content b) ≡ b.writer_index - b.reader_index
length-content {b} v =
    length-window b.buffer b.reader_index (b.writer_index - b.reader_index) (omega arith)

-- No difference of indices wraps.
pub readable_bytes_lem : {b : Buffer} → IsValid b → readable_bytes b ≡ length (content b)
unfolding readable_bytes
readable_bytes_lem v = omega (arith, length-content v)

pub readable_bytes_indices :
    {b : Buffer} → IsValid b → readable_bytes b ≡ b.writer_index - b.reader_index
unfolding readable_bytes
readable_bytes_indices v = omega arith

pub writable_bytes_lem :
    {b : Buffer} → IsValid b → writable_bytes b ≡ length b.buffer - b.writer_index
unfolding writable_bytes
writable_bytes_lem v = omega arith

-- The three parts of the picture make up the whole array.
pub parts_total :
    {b : Buffer}
    → IsValid b
    → prependable_bytes b + readable_bytes b + writable_bytes b ≡ length b.buffer
unfolding prependable_bytes readable_bytes writable_bytes
parts_total v = omega arith

pub init-IsValid : (n : ℕ) → cheap_prepend + n ≤ max_size → IsValid (init n)
unfolding init
init-IsValid n h = let e = length-replicate {A = ℕ} (add_size cheap_prepend n) 0 in omega (arith, e)

pub content-init : (n : ℕ) → content (init n) ≡ []
unfolding init
content-init n = refl
