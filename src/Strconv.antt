-- ===== src/Strconv.antt =====
-- Go's `strconv`, as the program calls it: `ParseInt(s, 10, 64)`, `FormatInt(i, 10)`,
-- `FormatUint(n, 10)`, and `%d`, which prints the same digits.
pub mod RoundTrip
use ade_ctld.Common.{
  Bool, Option, [], false, if◌then◌else◌, int64_limit, leb, ltb, negsuc, none, pos, some, suc, true,
  uint64_modulus, zero, ℕ, ℤ, ◌%◌, ◌&&◌, ◌*◌, ◌+◌, ◌-◌, ◌/◌, ◌==◌, ◌∷◌,
}
use ade_ctld.Text.{Bytes}

-- The loop of `FormatUint`: a digit for each division by ten. The first argument is fuel, and
-- more than `n` of it is enough.
digits_from : ℕ → ℕ → Bytes → Bytes
digits_from zero n out = out
digits_from (suc f) n out =
    let rest = digits_from f (n / 10) ((b'0' + n % 10) ∷ out) in
    if ltb n 10 then (b'0' + n) ∷ out else rest

unfoldable pub format_uint : ℕ → Bytes
unfolding digits_from
format_uint n = digits_from (suc n) n []

unfoldable pub format_int : ℤ → Bytes
unfolding format_uint
format_int (pos n) = format_uint n
format_int (negsuc n) = b'-' ∷ format_uint (n + 1)

is_digit : ℕ → Bool
is_digit c = leb b'0' c && leb c b'9'

abbrev max_uint64 : ℕ
max_uint64 = uint64_modulus - 1

-- The loop of `ParseUint`: `none` is a syntax or a range error.
scan : Bytes → ℕ → Option ℕ
unfolding is_digit
scan [] n = some n
scan (c ∷ s) n = elim (is_digit c) [
  | true ↦
      (let m = n * 10 + (c - b'0') in elim (ltb max_uint64 m) [ true ↦ none | false ↦ scan s m ])
  | false ↦ none
]

parse_uint : Bytes → Option ℕ
unfolding scan
parse_uint [] = none
parse_uint (c ∷ s) = scan (c ∷ s) 0

-- the range tests of `ParseInt` behind its call of `ParseUint`
positive : Option ℕ → Option ℤ
positive none = none
positive (some n) = if ltb n int64_limit then some (pos n) else none

negate : ℕ → ℤ
negate zero = pos 0
negate (suc n) = negsuc n

negative : Option ℕ → Option ℤ
unfolding negate
negative none = none
negative (some n) = if leb n int64_limit then some (negate n) else none

unfoldable pub parse_int : Bytes → Option ℤ
unfolding parse_uint positive negative
parse_int [] = none
parse_int (c ∷ s) =
    if c == b'-'
    then negative (parse_uint s)
    else if c == b'+'
    then positive (parse_uint s)
    else positive (parse_uint (c ∷ s))
