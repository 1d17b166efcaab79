-- ===== src/Buffer/Reads.antt =====
-- `readFd` and `writeFd` against any `readv` and `write`.
use htcp_multithread.Prelude.{
  ℕ, ◌+◌, ◌-◌, ◌≤◌, ◌<◌, ◌≡◌, ap, ◌∙◌, List, ◌++◌, some, none, arith, length, take, drop, take_all,
  take-append-drop, length-drop, length-take, dec_lt, append_assoc,
}
use htcp_multithread.Syscall.{ReadResult, received, read_failed, WriteResult, ReadsWithin}
use htcp_multithread.Buffer.{
  Buffer, max_size, extrabuf_size, writable_bytes, append, iovecs, read_fd, write_fd, take_in,
}
use htcp_multithread.Buffer.Content.{content, IsValid, writable_bytes_lem, readable_bytes_indices}
use htcp_multithread.Buffer.Append.{
  bytes_at_lem, length-write_at, write_at_lem, append_lem, filled, filled-IsValid, content-filled,
}

-- A failed `readv` leaves the buffer alone and hands its `errno` on.
pub read_fd_failed :
    (readv : List ℕ → ReadResult) (b : Buffer) (errno : ℕ)
    → readv (iovecs b) ≡ read_failed errno
    → read_fd readv b ≡ some (record { after = b; count = none; saved_errno = some errno })
unfolding read_fd
read_fd_failed readv b errno e = rw (e, read_fd)

module _ {b : Buffer} (v : IsValid b) (bytes : List ℕ) where
  take_in_fits : length bytes ≤ writable_bytes b → take_in bytes b ≡ some (filled b bytes)
  unfolding take_in filled
  take_in_fits fits =
      rw
        (
          take_all (writable_bytes b) bytes fits,
          write_at_lem b.buffer b.writer_index bytes (omega (arith, writable_bytes_lem v)),
        )
        (ground (arith, writable_bytes_lem v))

  -- What `readv` put into the array, and what it put into `extrabuf`.
  chunk : List ℕ
  chunk = take (writable_bytes b) bytes

  extra : List ℕ
  extra = drop (writable_bytes b) bytes

  module _ (over : writable_bytes b < length bytes) where
    length-chunk : length chunk ≡ length b.buffer - b.writer_index
    unfolding chunk
    length-chunk = omega (arith, length-take (writable_bytes b) bytes, writable_bytes_lem v)

    length-extra : length extra ≡ length bytes - writable_bytes b
    unfolding extra
    length-extra = length-drop (writable_bytes b) bytes

    take_in_spills :
        length bytes ≤ max_size
        → take_in bytes b ≡ append (filled b chunk) extra (length bytes - writable_bytes b)
    unfolding take_in filled chunk extra
    take_in_spills short =
        rw (write_at_lem b.buffer b.writer_index chunk (omega (arith, length-chunk))) (
          ground (
            arith,
            writable_bytes_lem v,
            length-chunk,
            length-write_at b.buffer b.writer_index chunk,
          ))

    take_in_spilled :
        length b.buffer + length bytes ≤ max_size
        → (r : Buffer) × (take_in bytes b ≡ some r) × IsValid r × (content r ≡ content b ++ bytes)
    take_in_spilled fits =
        let room : b.writer_index + length chunk ≤ length b.buffer = omega (arith, length-chunk) in
        let (r, e, w, c, _) =
          append_lem extra (length bytes - writable_bytes b) (filled-IsValid v chunk room)
            (omega (arith, length-extra)) (omega (arith, full)) in
        (
          r,
          take_in_spills (omega arith) ∙ e,
          w,
          c
              ∙ ap (λ xs. xs ++ take (length bytes - writable_bytes b) extra)
                  (content-filled v chunk room)
              ∙ append_assoc (content b) chunk (take (length bytes - writable_bytes b) extra)
              ∙ ap (◌++◌ (content b)) whole,
        )
      where
        full : (filled b chunk).writer_index ≤ length b.buffer
        full = unfold filled in omega (arith, length-chunk)

        whole : chunk ++ take (length bytes - writable_bytes b) extra ≡ bytes
        whole =
            ap (◌++◌ chunk)
              (take_all (length bytes - writable_bytes b) extra (omega (arith, length-extra)))
            ∙ (unfold chunk extra in take-append-drop (writable_bytes b) bytes)

-- Every byte that `readv` delivered is behind the old content afterwards, in order, whether it went
-- into the array alone or into `extrabuf` too, and `readFd` returns their number. It cannot fault
-- while the vector may grow by the size of `extrabuf`.
pub read_fd_lem :
    (readv : List ℕ → ReadResult) {b : Buffer} (bytes : List ℕ)
    → IsValid b
    → ReadsWithin readv
    → length b.buffer + length b.buffer + extrabuf_size ≤ max_size
    → readv (iovecs b) ≡ received bytes
    → (r : Buffer) × (read_fd readv b
        ≡ some (record { after = r; count = some (length bytes); saved_errno = none }))
      × IsValid r
      × (content r ≡ content b ++ bytes)
unfolding read_fd
read_fd_lem readv {b} bytes v within fits e =
    let (r, f, w, c) = took in (r, rw (e, read_fd, f), w, c)
  where
    bound : length bytes ≤ length b.buffer + extrabuf_size
    bound = unfold iovecs in ground (arith, within (iovecs b) bytes e, writable_bytes_lem v)

    took : (r : Buffer) × (take_in bytes b ≡ some r) × IsValid r × (content r ≡ content b ++ bytes)
    took = elim (dec_lt (writable_bytes b) (length bytes)) [
      | yes over ↦ take_in_spilled v bytes over (omega (arith, bound))
      | no under ↦
          let room : b.writer_index + length bytes ≤ length b.buffer =
            omega (arith, writable_bytes_lem v) in
          (
            filled b bytes,
            take_in_fits v bytes (omega arith),
            filled-IsValid v bytes room,
            content-filled v bytes room,
          )
    ]

-- `writeFd` hands exactly the content to `write` and returns its result.
pub write_fd_lem :
    (write : List ℕ → WriteResult) {b : Buffer}
    → IsValid b
    → write_fd write b ≡ some (write (content b))
unfolding write_fd
write_fd_lem write {b} v = rw (
  readable_bytes_indices v,
  bytes_at_lem b.buffer b.reader_index (b.writer_index - b.reader_index) (omega arith),
)
