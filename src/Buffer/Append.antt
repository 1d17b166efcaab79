-- ===== src/Buffer/Append.antt =====
-- `makeSpace`, `ensureWritableBytes` and `append`: they never fault while the data fits a vector,
-- and they add exactly the given bytes behind the content.
use htcp_multithread.Prelude.{
  dec_lt, ℕ, ◌+◌, ◌-◌, ◌≤◌, ◌<◌, ◌≡◌, refl, ap, ◌∙◌, List, ◌++◌, some, arith, length, length-append,
  take, drop, window, replicate, length-replicate, length-take, length-drop, take_all,
  window-append, window-splice, window-at, ltb, Bool-cases, ltb→lt, inl, inr,
}
use htcp_multithread.Buffer.{
  Buffer, cheap_prepend, max_size, writable_bytes, make_space, bytes_at, write_at,
  ensure_writable_bytes, append, copy_in,
}
use htcp_multithread.Buffer.Content.{
  content, IsValid, length-content, readable_bytes_indices, writable_bytes_lem,
}

-- What making room for `len` bytes gives: a valid buffer with that room and the old content.
pub record Made (b : Buffer) (len : ℕ) (r : Buffer) : Type 0 where
  pub valid : IsValid r
  pub room : r.writer_index + len ≤ length r.buffer
  pub kept : content r ≡ content b
  pub growth : length r.buffer ≤ length b.buffer + len

pub bytes_at_lem :
    (xs : List ℕ) (i n : ℕ) → i + n ≤ length xs → bytes_at xs i n ≡ some (window xs i n)
bytes_at_lem xs i n h = ground arith

pub write_at_lem :
    (xs : List ℕ) (i : ℕ) (src : List ℕ)
    → i + length src ≤ length xs
    → write_at xs i src ≡ some (take i xs ++ (src ++ drop (i + length src) xs))
write_at_lem xs i src h = ground arith

pub length-write_at :
    (xs : List ℕ) (i : ℕ) (src : List ℕ)
    → i + length src ≤ length xs
    → length (take i xs ++ (src ++ drop (i + length src) xs)) ≡ length xs
length-write_at xs i src h = omega (
  arith,
  length-append (take i xs) (src ++ drop (i + length src) xs),
  length-append src (drop (i + length src) xs),
  length-take i xs,
  length-drop (i + length src) xs,
)

-- The vector grows when the room in front and behind does not suffice.
grown : (b : Buffer) (len : ℕ) → Buffer
grown b len = record b {
  buffer =
      take (b.writer_index + len) b.buffer ++ replicate (b.writer_index + len - length b.buffer) 0;
}

module _ {b : Buffer} (v : IsValid b) (len : ℕ) where
  grown-Made :
      length b.buffer ≤ b.writer_index + len
      → b.writer_index + len ≤ max_size
      → Made b len (grown b len)
  unfolding grown
  grown-Made full fits = record {
    valid = omega (arith, size);
    room = omega (arith, size);
    kept =
        rw all
          (window-append b.buffer _ b.reader_index (b.writer_index - b.reader_index) (omega arith));
    growth = omega (arith, size);
  }
    where
      all : take (b.writer_index + len) b.buffer ≡ b.buffer
      all = take_all (b.writer_index + len) b.buffer full

      size :
          length (
            take (b.writer_index + len) b.buffer
            ++ replicate (b.writer_index + len - length b.buffer) 0)
          ≡ b.writer_index + len
      size = rw all (
          omega (
            arith,
            length-append b.buffer (replicate {A = ℕ} (b.writer_index + len - length b.buffer) 0),
            length-replicate {A = ℕ} (b.writer_index + len - length b.buffer) 0,
          ))

  make_space_grows :
      b.reader_index + (length b.buffer - b.writer_index) < len + cheap_prepend
      → b.writer_index + len ≤ max_size
      → make_space b len ≡ some (grown b len)
  unfolding make_space grown
  make_space_grows short fits = ground (arith, writable_bytes_lem v)

-- The readable bytes stand at `kCheapPrepend`.
moved : (b : Buffer) → Buffer
moved b = record {
  buffer =
      take cheap_prepend b.buffer
      ++ (content b ++ drop (cheap_prepend + length (content b)) b.buffer);
  reader_index = cheap_prepend;
  writer_index = cheap_prepend + (b.writer_index - b.reader_index);
}

module _ {b : Buffer} (v : IsValid b) where
  moved-IsValid : IsValid (moved b) × (length (moved b).buffer ≡ length b.buffer)
  unfolding moved
  moved-IsValid =
      omega (arith, length-content v, length-write_at b.buffer cheap_prepend (content b))

  content-moved : content (moved b) ≡ content b
  unfolding moved
  content-moved =
      ap (λ n. window (moved b).buffer cheap_prepend n)
        {x = cheap_prepend + (b.writer_index - b.reader_index) - cheap_prepend}
        {y = b.writer_index - b.reader_index} (omega arith)
      ∙ window-at b.buffer (content b) _ cheap_prepend (b.writer_index - b.reader_index)
          (omega (arith, length-content v)) (omega arith)

  make_space_moves :
      (len : ℕ)
      → len + cheap_prepend ≤ b.reader_index + (length b.buffer - b.writer_index)
      → make_space b len ≡ some (moved b)
  unfolding make_space moved
  make_space_moves len enough = ground (
    arith,
    writable_bytes_lem v,
    readable_bytes_indices v,
    bytes_at_lem b.buffer b.reader_index (b.writer_index - b.reader_index),
    write_at_lem b.buffer cheap_prepend (content b),
    length-content v,
  )

  moved-Made :
      (len : ℕ)
      → len + cheap_prepend ≤ b.reader_index + (length b.buffer - b.writer_index)
      → Made b len (moved b)
  moved-Made len enough = record {
    valid = moved-IsValid.0;
    room = omega (arith, moved-IsValid.1, moved_writer);
    kept = content-moved;
    growth = omega (arith, moved-IsValid.1);
  }
    where
      moved_writer : (moved b).writer_index ≡ cheap_prepend + (b.writer_index - b.reader_index)
      moved_writer = unfold moved in refl

  -- `makeSpace` is called when the room behind the content is too small.
  make_space-Made :
      (len : ℕ)
      → length b.buffer - b.writer_index < len
      → b.writer_index + len ≤ max_size
      → (r : Buffer) × (make_space b len ≡ some r) × Made b len r
  make_space-Made len short fits =
      elim (dec_lt (b.reader_index + (length b.buffer - b.writer_index)) (len + cheap_prepend)) [
        | yes lack ↦
            (grown b len, make_space_grows v len lack fits, grown-Made v len (omega arith) fits)
        | no enough ↦ (moved b, make_space_moves len (omega arith), moved-Made len (omega arith))
      ]

  ensure_writable_bytes-Made :
      (len : ℕ)
      → b.writer_index + len ≤ max_size
      → (r : Buffer) × (ensure_writable_bytes b len ≡ some r) × Made b len r
  unfolding ensure_writable_bytes
  ensure_writable_bytes-Made len fits = elim (Bool-cases (ltb (writable_bytes b) len)) [
    | inl short ↦
        rw short (make_space-Made len (omega (arith, ltb→lt _ _ short, writable_bytes_lem v)) fits)
    | inr room ↦ rw room (
      b,
      refl,
      record {
        valid = v;
        room = ground (arith, writable_bytes_lem v);
        kept = refl;
        growth = omega arith;
      },
    )
  ]

-- Writing `chunk` into the room behind the content.
unfoldable pub filled : Buffer → List ℕ → Buffer
filled r chunk = record r {
  buffer = take r.writer_index r.buffer ++ (chunk ++ drop (r.writer_index + length chunk) r.buffer);
  writer_index = r.writer_index + length chunk;
}

module _ {r : Buffer} (v : IsValid r) (chunk : List ℕ)
    (room : r.writer_index + length chunk ≤ length r.buffer) where
  pub filled-IsValid : IsValid (filled r chunk)
  unfolding filled
  filled-IsValid = omega (arith, length-write_at r.buffer r.writer_index chunk)

  pub length-filled : length (filled r chunk).buffer ≡ length r.buffer
  unfolding filled
  length-filled = length-write_at r.buffer r.writer_index chunk room

  pub content-filled : content (filled r chunk) ≡ content r ++ chunk
  unfolding filled
  content-filled =
      window-splice r.buffer chunk _ r.reader_index (r.writer_index - r.reader_index) r.writer_index
        (r.writer_index + length chunk - r.reader_index) (omega arith) (omega arith) (omega arith)

pub copy_in-filled :
    {r : Buffer}
    → IsValid r
    → (src : List ℕ) (len : ℕ) → len ≤ length src
    → r.writer_index + length (take len src) ≤ length r.buffer
    → copy_in src len r ≡ some (filled r (take len src))
unfolding copy_in filled
copy_in-filled {r} v src len enough room =
    rw
      (
        bytes_at_lem src 0 len (omega arith),
        write_at_lem r.buffer r.writer_index (take len src) room,
      )
      (ground (arith, length-take len src))

-- Whatever the layout, `append` adds the first `len` bytes at `data` behind the content, and keeps
-- the layout invariant; the array grows by `len` at most. It cannot fault while the vector may grow by `len` and the source holds
-- `len` bytes.
pub append_lem :
    {b : Buffer} (src : List ℕ) (len : ℕ)
    → IsValid b
    → len ≤ length src
    → b.writer_index + len ≤ max_size
    → (r : Buffer) × (append b src len ≡ some r)
      × IsValid r
      × (content r ≡ content b ++ take len src)
      × (length r.buffer ≤ length b.buffer + len)
unfolding append
append_lem {b} src len v enough fits =
    let (r, e, m) = ensure_writable_bytes-Made v len fits in
    let room : r.writer_index + length (take len src) ≤ length r.buffer =
      omega (arith, m.room, length-take len src) in
    (
      filled r (take len src),
      rw e (copy_in-filled m.valid src len enough room),
      filled-IsValid m.valid (take len src) room,
      content-filled m.valid (take len src) room ∙ ap (λ xs. xs ++ take len src) m.kept,
      omega (arith, m.growth, length-filled m.valid (take len src) room),
    )
