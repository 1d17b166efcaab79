-- ===== src/Buffer/Fifo.antt =====
-- A buffer behaves as the queue of its readable bytes, over any sequence of calls.
use htcp_multithread.Prelude.{
  ℕ, ◌+◌, ◌≤◌, ◌≡◌, refl, ap, ap₂, ◌∙◌, List, [], ◌∷◌, ◌++◌, Option, some, arith, length, drop,
  take_all, ◌>>=◌,
}
use htcp_multithread.Buffer.{Buffer, max_size, append, retrieve, retrieve_all_as_string}
use htcp_multithread.Buffer.Content.{content, IsValid}
use htcp_multithread.Buffer.Append.{append_lem}
use htcp_multithread.Buffer.Retrieve.{retrieve_lem, retrieve_all_as_string_lem, length-retrieve}

-- A client's calls: bytes put in, a number of them dropped, all of them taken out.
pub data Op : Type 0 where
  put : List ℕ → Op
  discard : ℕ → Op
  take_out : Op

-- What the calls return, and the buffer that they leave.
pub run : List Op → Buffer → Option (List (List ℕ) × Buffer)
run [] b = some ([], b)
run (put bytes ∷ ops) b = append b bytes (length bytes) >>= run ops
run (discard n ∷ ops) b = run ops (retrieve b n)
run (take_out ∷ ops) b = do
  (bytes, rest) ← retrieve_all_as_string b
  (later, last) ← run ops rest
  some (bytes ∷ later, last)

-- The same calls on a plain queue, oldest byte first.
abbrev pub run_queue : List Op → List ℕ → List (List ℕ) × List ℕ
run_queue [] q = ([], q)
run_queue (put bytes ∷ ops) q = run_queue ops (q ++ bytes)
run_queue (discard n ∷ ops) q = run_queue ops (drop n q)
run_queue (take_out ∷ ops) q = let (later, last) = run_queue ops [] in (q ∷ later, last)

abbrev pub total_put : List Op → ℕ
total_put [] = 0
total_put (put bytes ∷ ops) = length bytes + total_put ops
total_put (_ ∷ ops) = total_put ops

run_holding :
    (ops : List Op) {b : Buffer} (q : List ℕ)
    → IsValid b
    → content b ≡ q
    → length b.buffer + total_put ops ≤ max_size
    → (r : Buffer) × (run ops b ≡ some ((run_queue ops q).0, r))
      × IsValid r
      × (content r ≡ (run_queue ops q).1)
unfolding run
run_holding [] {b} q v h fits = (b, refl, v, h)
run_holding (put bytes ∷ ops) {b} q v h fits =
    let (r, e, w, c, g) = append_lem bytes (length bytes) v (omega arith) (omega arith) in
    let added : content r ≡ q ++ bytes =
      c ∙ ap₂ ◌++◌ h (take_all (length bytes) bytes (omega arith)) in
    let (last, f, u, d) = run_holding ops (q ++ bytes) w added (omega arith) in (last, rw e f, u, d)
run_holding (discard n ∷ ops) {b} q v h fits =
    let (w, c) = retrieve_lem n v in
    run_holding ops (drop n q) w (c ∙ ap (drop n) h) (omega (arith, length-retrieve b n))
run_holding (take_out ∷ ops) {b} q v h fits =
    let (r, e, w, c, g) = retrieve_all_as_string_lem v in
    let (last, f, u, d) = run_holding ops [] w c (omega arith) in (last, rw (e, f, h), u, d)

-- Any sequence of `append`, `retrieve` and `retrieveAllAsString` returns what the queue returns, and
-- leaves the queue as content, while the bytes put in do not outgrow the vector.
pub run_refines :
    (ops : List Op) {b : Buffer}
    → IsValid b
    → length b.buffer + total_put ops ≤ max_size
    → (r : Buffer) × (run ops b ≡ some ((run_queue ops (content b)).0, r))
      × IsValid r
      × (content r ≡ (run_queue ops (content b)).1)
run_refines ops {b} v fits = run_holding ops (content b) v refl fits
