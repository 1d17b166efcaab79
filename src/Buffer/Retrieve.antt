-- ===== src/Buffer/Retrieve.antt =====
-- Taking bytes out of the front of a buffer: `retrieve`, `retrieveAsString`, `retrieveAllAsString`.
use htcp_multithread.Prelude.{
  take-append-drop, length-window, ℕ, ◌+◌, ◌-◌, ◌≤◌, ◌<◌, ◌≡◌, refl, ap, ◌∙◌, sym, List, [], ◌++◌,
  some, arith, length, take, drop, window, take-window, drop-window, take_all, drop_all, dec_lt,
  length-drop,
}
use htcp_multithread.Buffer.{
  Buffer, readable_bytes, retrieve, retrieve_all, retrieve_as_string, retrieve_all_as_string, peek,
  peek,
}
use htcp_multithread.Buffer.Content.{
  content, IsValid, length-content, readable_bytes_lem, readable_bytes_indices,
}
use htcp_multithread.Buffer.Append.{bytes_at_lem}

-- The reading index moves on.
advance : Buffer → ℕ → Buffer
advance b len = record b { reader_index = b.reader_index + len }

module _ {b : Buffer} (v : IsValid b) (len : ℕ) where
  retrieve_some : len < b.writer_index - b.reader_index → retrieve b len ≡ advance b len
  unfolding retrieve advance
  retrieve_some h = ground (arith, readable_bytes_indices v)

  retrieve_rest : b.writer_index - b.reader_index ≤ len → retrieve b len ≡ retrieve_all b
  unfolding retrieve
  retrieve_rest h = ground (arith, readable_bytes_indices v)

  advance-IsValid : len < b.writer_index - b.reader_index → IsValid (advance b len)
  unfolding advance
  advance-IsValid h = omega arith

  content-advance : content (advance b len) ≡ drop len (content b)
  unfolding advance
  content-advance =
      ap (window b.buffer (b.reader_index + len)) {x = b.writer_index - (b.reader_index + len)}
        {y = b.writer_index - b.reader_index - len} (omega arith)
      ∙ sym (drop-window b.buffer b.reader_index (b.writer_index - b.reader_index) len)

  retrieve_all-IsValid : IsValid (retrieve_all b)
  unfolding retrieve_all
  retrieve_all-IsValid = omega arith

pub length-retrieve : (b : Buffer) (len : ℕ) → length (retrieve b len).buffer ≡ length b.buffer
unfolding retrieve
length-retrieve b len = ground arith

pub content-retrieve_all : (b : Buffer) → content (retrieve_all b) ≡ []
unfolding retrieve_all
content-retrieve_all b = refl

-- `retrieve` keeps the layout invariant and drops the first `len` bytes, all of them when fewer are
-- readable.
pub retrieve_lem :
    {b : Buffer} (len : ℕ)
    → IsValid b
    → IsValid (retrieve b len) × (content (retrieve b len) ≡ drop len (content b))
retrieve_lem {b} len v = elim (dec_lt len (b.writer_index - b.reader_index)) [
  | yes left ↦ rw (retrieve_some v len left) (advance-IsValid v len left, content-advance v len)
  | no spent ↦ rw (retrieve_rest v len (omega arith)) (
    retrieve_all-IsValid v len,
    content-retrieve_all b ∙ sym (drop_all len (content b) (omega (arith, length-content v))),
  )
]

-- The string is the first `len` bytes of the content, for a `len` that is readable.
pub retrieve_as_string_lem :
    {b : Buffer} (len : ℕ)
    → IsValid b
    → len ≤ readable_bytes b
    → retrieve_as_string b len ≡ some (take len (content b), retrieve b len)
unfolding retrieve_as_string
retrieve_as_string_lem {b} len v h = rw (
  bytes_at_lem b.buffer b.reader_index len (omega (arith, readable_bytes_indices v)),
  take-window b.buffer b.reader_index (b.writer_index - b.reader_index) len
      (omega (arith, readable_bytes_indices v)),
)

-- `retrieveAllAsString` returns the whole content and leaves an empty valid buffer.
pub retrieve_all_as_string_lem :
    {b : Buffer}
    → IsValid b
    → (r : Buffer) × (retrieve_all_as_string b ≡ some (content b, r))
      × IsValid r
      × (content r ≡ [])
      × (length r.buffer ≡ length b.buffer)
unfolding retrieve_all_as_string
retrieve_all_as_string_lem {b} v = (
  retrieve b (readable_bytes b),
  rw (retrieve_as_string_lem (readable_bytes b) v (omega arith), whole),
  (retrieve_lem (readable_bytes b) v).0,
  (retrieve_lem (readable_bytes b) v).1
      ∙ drop_all (readable_bytes b) (content b) (omega (arith, readable_bytes_lem v)),
  length-retrieve b (readable_bytes b),
)
  where
    whole : take (readable_bytes b) (content b) ≡ content b
    whole = take_all (readable_bytes b) (content b) (omega (arith, readable_bytes_lem v))

-- With more bytes asked for than are readable, the string runs on past `writerIndex_`, into bytes
-- of the array that hold no data.
pub retrieve_as_string_overrun :
    {b : Buffer} (len : ℕ)
    → IsValid b
    → readable_bytes b < len
    → b.reader_index + len ≤ length b.buffer
    → (stale : List ℕ) × (retrieve_as_string b len ≡ some (content b ++ stale, retrieve_all b))
      × (length stale ≡ len - readable_bytes b)
unfolding retrieve_as_string
retrieve_as_string_overrun {b} len v over inside = (
  drop n (window b.buffer b.reader_index len),
  rw
      (
        bytes_at_lem b.buffer b.reader_index len inside,
        retrieve_rest v len (omega (arith, readable_bytes_indices v)),
      )
      (ap (λ xs. some (xs, retrieve_all b)) (sym split)),
  omega (
    arith,
    length-drop n (window b.buffer b.reader_index len),
    length-window b.buffer b.reader_index len inside,
    readable_bytes_indices v,
  ),
)
  where
    n : ℕ
    n = b.writer_index - b.reader_index

    split :
        content b ++ drop n (window b.buffer b.reader_index len)
        ≡ window b.buffer b.reader_index len
    split =
        ap (λ xs. xs ++ drop n (window b.buffer b.reader_index len))
          (sym
            (take-window b.buffer b.reader_index len n (omega (arith, readable_bytes_indices v))))
        ∙ take-append-drop n (window b.buffer b.reader_index len)

-- What `peek()` points at begins with the content.
pub take-peek :
    {b : Buffer} (n : ℕ) → n ≤ length (content b) → IsValid b → take n (peek b) ≡ take n (content b)
unfolding peek
take-peek {b} n h v = sym (
    take-window b.buffer b.reader_index (b.writer_index - b.reader_index) n
      (omega (arith, length-content v)))
