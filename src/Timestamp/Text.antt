-- ===== src/Timestamp/Text.antt =====
-- The text of a moment can be read back.
use htcp_multithread.Prelude.{
  ℕ, zero, suc, ◌+◌, ◌-◌, ◌*◌, ◌≤◌, ◌<◌, ◌≡◌, refl, ap, ap₂, sym, ◌∙◌, List, [], ◌∷◌, ◌++◌, length,
  take, drop, replicate, length-append, length-replicate, take_all, take-append_left,
  drop-append_length, append_assoc, arith,
}
use htcp_multithread.Prelude.Decimal.{decimal, value, value-decimal, length-decimal}
use htcp_multithread.Timestamp.{Timestamp, Tm, pad, to_string}

-- A reader that knows the layout only: a number in the next `width` characters, and what follows the
-- separator behind them. A space counts as nothing.
abbrev pub field : ℕ → List ℕ → ℕ
field width text = value 0 (take width text)

abbrev pub rest : ℕ → List ℕ → List ℕ
rest width text = drop (suc width) text

abbrev pub parse : List ℕ → Tm
parse text =
    let after_year = rest 4 text in
    let after_mon = rest 2 after_year in
    let after_mday = rest 2 after_mon in
    let after_hour = rest 2 after_mday in
    let after_min = rest 2 after_hour in
    record {
      tm_year = field 4 text - 1900;
      tm_mon = field 2 after_year - 1;
      tm_mday = field 2 after_mon;
      tm_hour = field 2 after_mday;
      tm_min = field 2 after_hour;
      tm_sec = field 2 after_min;
    }

-- The ranges that the C library documents, for years of four digits.
abbrev pub IsCalendar : Tm → Type 0
IsCalendar tm =
    (tm.tm_year < 8100)
    × (tm.tm_mon < 12)
    × (tm.tm_mday ≤ 31)
    × (tm.tm_hour < 24)
    × (tm.tm_min < 60)
    × (tm.tm_sec ≤ 60)

length-pad : (width fill n : ℕ) → length (decimal n) ≤ width → length (pad width fill n) ≡ width
length-pad width fill n h = omega (
  arith,
  length-append (replicate (width - length (decimal n)) fill) (decimal n),
  length-replicate (width - length (decimal n)) fill,
)

value-fill : (k fill : ℕ) (ds : List ℕ) → fill ≤ 48 → value 0 (replicate k fill ++ ds) ≡ value 0 ds
value-fill zero fill ds h = refl
value-fill (suc k) fill ds h =
    ap (λ d. value d (replicate k fill ++ ds)) {x = 0 * 10 + (fill - 48)} {y = 0} (omega arith)
    ∙ value-fill k fill ds h

value-pad : (width fill n : ℕ) → fill ≤ 48 → value 0 (pad width fill n) ≡ n
value-pad width fill n h =
    value-fill (width - length (decimal n)) fill (decimal n) h ∙ value-decimal n

module _ (width fill n : ℕ) (low : fill ≤ 48) (short : length (decimal n) ≤ width) where
  field-pad : (zs : List ℕ) → field width (pad width fill n ++ zs) ≡ n
  field-pad zs =
      ap (value 0) (
        take-append_left width (pad width fill n) zs (omega (arith, length-pad width fill n short))
        ∙ take_all width (pad width fill n) (omega (arith, length-pad width fill n short)))
      ∙ value-pad width fill n low

  field-pad_last : field width (pad width fill n) ≡ n
  field-pad_last =
      ap (value 0)
        (take_all width (pad width fill n) (omega (arith, length-pad width fill n short)))
      ∙ value-pad width fill n low

  rest-pad : (c : ℕ) (zs : List ℕ) → rest width (pad width fill n ++ c ∷ zs) ≡ zs
  rest-pad c zs =
      ap (drop (suc width)) (sym (append_assoc (pad width fill n) (c ∷ []) zs))
      ∙ drop-append_length (suc width) (pad width fill n ++ c ∷ []) zs
          (omega (arith, length-append (pad width fill n) (c ∷ []), length-pad width fill n short))

length-field :
    (width fill n : ℕ)
    → length (decimal n) ≤ width
    → (c : ℕ) (zs : List ℕ) → length (pad width fill n ++ c ∷ zs) ≡ width + suc (length zs)
length-field width fill n h c zs =
    omega (arith, length-append (pad width fill n) (c ∷ zs), length-pad width fill n h)

-- Two digits are enough for the numbers below 100.
two_digits : (n : ℕ) → n < 100 → length (decimal n) ≤ 2
two_digits n h = length-decimal 1 n h

module _ (tm : Tm) (v : IsCalendar tm) where
  from_sec : List ℕ
  from_sec = pad 2 48 tm.tm_sec

  from_min : List ℕ
  from_min = pad 2 48 tm.tm_min ++ 58 ∷ from_sec

  from_hour : List ℕ
  from_hour = pad 2 48 tm.tm_hour ++ 58 ∷ from_min

  from_mday : List ℕ
  from_mday = pad 2 48 tm.tm_mday ++ 32 ∷ from_hour

  from_mon : List ℕ
  from_mon = pad 2 48 (tm.tm_mon + 1) ++ 47 ∷ from_mday

  text : List ℕ
  text = pad 4 32 (tm.tm_year + 1900) ++ 47 ∷ from_mon

  abbrev year_short : length (decimal (tm.tm_year + 1900)) ≤ 4
  year_short = length-decimal 3 (tm.tm_year + 1900) (omega (arith, v.0))

  mon_short : length (decimal (tm.tm_mon + 1)) ≤ 2
  mon_short = two_digits (tm.tm_mon + 1) (omega (arith, v.1))

  mday_short : length (decimal tm.tm_mday) ≤ 2
  mday_short = two_digits tm.tm_mday (omega (arith, v.2))

  hour_short : length (decimal tm.tm_hour) ≤ 2
  hour_short = two_digits tm.tm_hour (omega (arith, v.3))

  min_short : length (decimal tm.tm_min) ≤ 2
  min_short = two_digits tm.tm_min (omega (arith, v.4))

  sec_short : length (decimal tm.tm_sec) ≤ 2
  sec_short = two_digits tm.tm_sec (omega (arith, v.5))

  parse-text : parse text ≡ tm
  unfolding text from_mon from_mday from_hour from_min from_sec
  parse-text =
      rw
        (
          field-pad 4 32 (tm.tm_year + 1900) (omega arith) year_short (47 ∷ from_mon),
          rest-pad 4 32 (tm.tm_year + 1900) (omega arith) year_short 47 from_mon,
          field-pad 2 48 (tm.tm_mon + 1) (omega arith) mon_short (47 ∷ from_mday),
          rest-pad 2 48 (tm.tm_mon + 1) (omega arith) mon_short 47 from_mday,
          field-pad 2 48 tm.tm_mday (omega arith) mday_short (32 ∷ from_hour),
          rest-pad 2 48 tm.tm_mday (omega arith) mday_short 32 from_hour,
          field-pad 2 48 tm.tm_hour (omega arith) hour_short (58 ∷ from_min),
          rest-pad 2 48 tm.tm_hour (omega arith) hour_short 58 from_min,
          field-pad 2 48 tm.tm_min (omega arith) min_short (58 ∷ from_sec),
          rest-pad 2 48 tm.tm_min (omega arith) min_short 58 from_sec,
          field-pad_last 2 48 tm.tm_sec (omega arith) sec_short,
        )
        (ap₂ (λ y m. record tm { tm_year = y; tm_mon = m }) {y = tm.tm_year} (omega arith)
          (omega arith))

  length-text : length text ≡ 19
  unfolding text from_mon from_mday from_hour from_min from_sec
  length-text =
      rw
        (
          length-field 4 32 (tm.tm_year + 1900) year_short 47 from_mon,
          length-field 2 48 (tm.tm_mon + 1) mon_short 47 from_mday,
          length-field 2 48 tm.tm_mday mday_short 32 from_hour,
          length-field 2 48 tm.tm_hour hour_short 58 from_min,
          length-field 2 48 tm.tm_min min_short 58 from_sec,
          length-pad 2 48 tm.tm_sec sec_short,
        )
        refl

  to_string-text :
      (localtime : ℕ → Tm) (t : Timestamp)
      → localtime t.micro_seconds_since_epoch ≡ tm
      → to_string localtime t ≡ text
  unfolding to_string text from_mon from_mday from_hour from_min from_sec
  to_string-text localtime t e = rw e (take_all 127 text (omega (arith, length-text)))

-- The text of a moment never overruns its buffer: it has exactly 19 characters, and every field of the
-- broken-down time can be read back from it, if `localtime` keeps to its ranges and the year has at most
-- four digits.
pub to_string_lem :
    (localtime : ℕ → Tm) (t : Timestamp)
    → IsCalendar (localtime t.micro_seconds_since_epoch)
    → (length (to_string localtime t) ≡ 19)
      × (parse (to_string localtime t) ≡ localtime t.micro_seconds_since_epoch)
to_string_lem localtime t v =
    let tm = localtime t.micro_seconds_since_epoch in
    let e = to_string-text tm v localtime t refl in
    (ap length e ∙ length-text tm v, ap parse e ∙ parse-text tm v)
