-- ===== src/Strconv/RoundTrip.antt =====
-- `ParseInt` on what `FormatInt` prints.
use ade_ctld.Common.{
  All, Bool-cases, IsInt64, [], ap, arith, inl, inr, int64_limit, ltb, ltb→lt, negsuc, pos, refl,
  some, suc, zero, ℕ, ℤ, ◌%◌, ◌*◌, ◌+◌, ◌/◌, ◌<◌, ◌∙◌, ◌∷◌, ◌≡◌, ◌≢◌, ◌≤◌,
}
use ade_ctld.Text.{Bytes}
use ade_ctld.Strconv.{format_int, format_uint, parse_int}
use ade_ctld.Strconv.{digits_from, scan, parse_uint, positive, negative, max_uint64}

-- a digit or the minus sign
abbrev pub IsNumeric : ℕ → Type 0
IsNumeric c = (b'-' ≤ c) × (c ≤ b'9')

scan_digit :
    (n d : ℕ) (s : Bytes)
    → d < 10
    → n * 10 + d ≤ max_uint64
    → scan ((b'0' + d) ∷ s) n ≡ scan s (n * 10 + d)
unfolding scan
scan_digit n d s small fits = ground arith

scan-digits_from :
    (f n : ℕ) (out : Bytes) → n < f → n ≤ max_uint64 → scan (digits_from f n out) 0 ≡ scan out n
unfolding digits_from
scan-digits_from zero n out h fits = elim h [ ]
scan-digits_from (suc f) n out h fits = elim (Bool-cases (ltb n 10)) [
  | inl last ↦
      rw last (scan_digit 0 n out (ltb→lt n 10 last) (omega arith) ∙ ap (scan out) (omega arith))
  | inr more ↦
      let ten : 10 ≤ n = ground arith in
      let whole : n / 10 * 10 + n % 10 ≡ n = omega arith in
      rw more (
        scan-digits_from f (n / 10) ((b'0' + n % 10) ∷ out) (omega arith) (omega arith)
        ∙ scan_digit (n / 10) (n % 10) out (omega arith) (omega arith)
        ∙ ap (scan out) whole)
]

digits_from-IsNumeric :
    (f n : ℕ) (out : Bytes) → All IsNumeric out → All IsNumeric (digits_from f n out)
unfolding digits_from
digits_from-IsNumeric zero n out h = h
digits_from-IsNumeric (suc f) n out h = elim (Bool-cases (ltb n 10)) [
  | inl last ↦ rw last (let small : n < 10 = ltb→lt n 10 last in ((omega arith, omega arith), h))
  | inr more ↦
      rw more
        (digits_from-IsNumeric f (n / 10) ((b'0' + n % 10) ∷ out) ((omega arith, omega arith), h))
]

digits_from-ne-nil :
    (f n : ℕ) (out : Bytes)
    → n < f
    → (c : ℕ) × (s : Bytes) × (digits_from f n out ≡ c ∷ s) × (b'0' ≤ c)
unfolding digits_from
digits_from-ne-nil zero n out h = elim h [ ]
digits_from-ne-nil (suc f) n out h = elim (Bool-cases (ltb n 10)) [
  | inl last ↦ (b'0' + n, out, rw last, omega arith)
  | inr more ↦ rw more (
      let ten : 10 ≤ n = ground arith in
      digits_from-ne-nil f (n / 10) ((b'0' + n % 10) ∷ out) (omega arith))
]

parse_uint_digit : (c : ℕ) (s : Bytes) → parse_uint (c ∷ s) ≡ scan (c ∷ s) 0
unfolding parse_uint
parse_uint_digit c s = refl

parse_uint-format_uint : (n : ℕ) → n ≤ max_uint64 → parse_uint (format_uint n) ≡ some n
unfolding format_uint
parse_uint-format_uint n fits =
    let (c, s, e, _) = digits_from-ne-nil (suc n) n [] (omega arith) in
    rw e (
      parse_uint_digit c s
      ∙ rw (← e) (scan-digits_from (suc n) n [] (omega arith) fits ∙ unfold scan in refl))

parse_int_digit : (c : ℕ) (s : Bytes) → b'0' ≤ c → parse_int (c ∷ s) ≡ positive (parse_uint (c ∷ s))
unfolding parse_int
parse_int_digit c s h = ground arith

positive_fits : (n : ℕ) → n < int64_limit → positive (some n) ≡ some (pos n)
unfolding positive
positive_fits n h = ground arith

parse_int_minus : (s : Bytes) → parse_int (b'-' ∷ s) ≡ negative (parse_uint s)
unfolding parse_int
parse_int_minus s = refl

negative_fits : (n : ℕ) → n < int64_limit → negative (some (n + 1)) ≡ some (negsuc n)
unfolding negative
negative_fits n h = ground arith

-- Every `int64` is read back from its decimal print.
pub parse_int-format_int : (i : ℤ) → IsInt64 i → parse_int (format_int i) ≡ some i
unfolding format_int
parse_int-format_int (pos n) fits =
    let (c, s, e, digit) = digits_from-ne-nil (suc n) n [] (omega arith) in
    rw e (
      parse_int_digit c s digit
      ∙ ap positive (rw (← e) (parse_uint-format_uint n (omega arith)))
      ∙ positive_fits n fits)
parse_int-format_int (negsuc n) fits =
    parse_int_minus (format_uint (n + 1))
    ∙ ap negative (parse_uint-format_uint (n + 1) (omega arith))
    ∙ negative_fits n fits

-- The bytes of a print, the first of which is a digit or the minus sign.
pub format_int-IsNumeric : (i : ℤ) → All IsNumeric (format_int i)
unfolding format_int
format_int-IsNumeric (pos n) = unfold format_uint in digits_from-IsNumeric (suc n) n [] tt
format_int-IsNumeric (negsuc n) = (
  (omega arith, omega arith),
  unfold format_uint in digits_from-IsNumeric (suc (n + 1)) (n + 1) [] tt,
)

pub format_int-ne-nil : (i : ℤ) → format_int i ≢ []
unfolding format_int
format_int-ne-nil (pos n) =
    let (c, s, e, _) = digits_from-ne-nil (suc n) n [] (omega arith) in
    unfold format_uint in rw e (cc)
format_int-ne-nil (negsuc n) = cc
