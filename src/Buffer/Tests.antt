-- ===== src/Buffer/Tests.antt =====
-- Buffer.h and Buffer.cc on concrete buffers.
use htcp_multithread.Prelude.{
  ℕ, ◌+◌, ◌-◌, ◌≡◌, refl, List, [], ◌∷◌, some, none, arith, length, leb, if◌then◌else◌,
}
use htcp_multithread.Syscall.{ReadResult, received, sum, ReadsWithin}
use htcp_multithread.Buffer.{
  Buffer, readable_bytes, writable_bytes, prependable_bytes, append, ensure_writable_bytes,
  make_space, copy_in, retrieve, retrieve_all, retrieve_as_string, iovecs, read_fd, take_in,
}
use htcp_multithread.Buffer.Content.{content, IsValid, parts_total}
use htcp_multithread.Buffer.Retrieve.{retrieve_as_string_overrun}
use htcp_multithread.Buffer.Reads.{read_fd_lem}
use htcp_multithread.Buffer.Fifo.{Op, put, discard, take_out, run, run_refines}

-- The bytes 1, 2, 3 with room for one more behind them, and two free bytes in front.
abbrev three : Buffer
three = record {
  buffer = 0 ∷ 0 ∷ 0 ∷ 0 ∷ 0 ∷ 0 ∷ 0 ∷ 0 ∷ 9 ∷ 9 ∷ 1 ∷ 2 ∷ 3 ∷ 7 ∷ [];
  reader_index = 10;
  writer_index = 13;
}

three-IsValid : IsValid three
three-IsValid = omega arith

-- Two bytes more fit when the content moves down.
append_moves :
    append three (4 ∷ 5 ∷ []) 2
    ≡ some (record {
      buffer = 0 ∷ 0 ∷ 0 ∷ 0 ∷ 0 ∷ 0 ∷ 0 ∷ 0 ∷ 1 ∷ 2 ∷ 3 ∷ 4 ∷ 5 ∷ 7 ∷ [];
      reader_index = 8;
      writer_index = 13;
    })
unfolding append ensure_writable_bytes make_space copy_in
append_moves = refl

-- Four bytes more make the vector grow.
append_grows :
    append three (4 ∷ 5 ∷ 6 ∷ 7 ∷ []) 4
    ≡ some (record {
      buffer = 0 ∷ 0 ∷ 0 ∷ 0 ∷ 0 ∷ 0 ∷ 0 ∷ 0 ∷ 9 ∷ 9 ∷ 1 ∷ 2 ∷ 3 ∷ 4 ∷ 5 ∷ 6 ∷ 7 ∷ [];
      reader_index = 10;
      writer_index = 17;
    })
unfolding append ensure_writable_bytes make_space copy_in
append_grows = refl

retrieve_two : retrieve three 2 ≡ record three { reader_index = 12 }
unfolding retrieve
retrieve_two = refl

-- Asked for four bytes of three, the string ends in the byte 7, which was never appended.
beyond_the_content :
    (stale : List ℕ) × (retrieve_as_string three 4 ≡ some (1 ∷ 2 ∷ 3 ∷ stale, retrieve_all three))
    × (length stale ≡ 4 - readable_bytes three)
beyond_the_content =
    retrieve_as_string_overrun {b = three} 4 three-IsValid (unfold readable_bytes in omega arith)
      (omega arith)

overrun_value : retrieve_as_string three 4 ≡ some (1 ∷ 2 ∷ 3 ∷ 7 ∷ [], retrieve_all three)
unfolding retrieve_as_string retrieve
overrun_value = refl

-- A kernel that has two bytes for whoever offers room for them.
abbrev two_bytes : List ℕ → ReadResult
two_bytes lens = if leb 2 (sum lens) then received (4 ∷ 5 ∷ []) else received []

two_bytes-ReadsWithin : ReadsWithin two_bytes
two_bytes-ReadsWithin lens bytes e = ground arith

-- One byte goes into the array and one into `extrabuf`; appending that one moves the content down.
read_spills :
    read_fd two_bytes three
    ≡ some (record {
      after = record {
        buffer = 0 ∷ 0 ∷ 0 ∷ 0 ∷ 0 ∷ 0 ∷ 0 ∷ 0 ∷ 1 ∷ 2 ∷ 3 ∷ 4 ∷ 5 ∷ 4 ∷ [];
        reader_index = 8;
        writer_index = 13;
      };
      count = some 2;
      saved_errno = none;
    })
unfolding read_fd take_in append ensure_writable_bytes make_space copy_in iovecs
read_spills = refl

read_fd_lem_example :
    (r : Buffer) × (read_fd two_bytes three
      ≡ some (record { after = r; count = some 2; saved_errno = none }))
    × IsValid r
    × (content r ≡ 1 ∷ 2 ∷ 3 ∷ 4 ∷ 5 ∷ [])
unfolding iovecs
read_fd_lem_example =
    read_fd_lem two_bytes {b = three} (4 ∷ 5 ∷ []) three-IsValid two_bytes-ReadsWithin (omega arith)
      refl

abbrev calls : List Op
calls = put (4 ∷ 5 ∷ []) ∷ discard 1 ∷ take_out ∷ put (6 ∷ []) ∷ []

run_refines_example :
    (r : Buffer) × (run calls three ≡ some ((2 ∷ 3 ∷ 4 ∷ 5 ∷ []) ∷ [], r))
    × IsValid r
    × (content r ≡ 6 ∷ [])
run_refines_example = run_refines calls three-IsValid (omega arith)

parts_total_example : 10 + 3 + 1 ≡ 14
unfolding prependable_bytes readable_bytes writable_bytes
parts_total_example = parts_total three-IsValid
