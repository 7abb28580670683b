-- ===== src/Wire/Lines.antt =====
-- How the parser takes a single line that a client has written.
use mathlib.Core.List.{reverse-append}
use ade_ctld.Common.{
  All, All-append, Bool, IsInt64, [], arith, false, int64_limit, pos, refl, reverse, subst, sym,
  true, ℕ, ℤ, ◌++◌, ◌<◌, ◌∷◌, ◌≡◌, ◌≢◌,
}
use ade_ctld.Text.{
  Bytes, IsTrimmed-cons, codes, has_prefix, last_width, last_width-IsInk, str_eq, str_eq_iff,
  trim_space, trim_space_line,
}
use ade_ctld.Strconv.{format_int}
use ade_ctld.Strconv.RoundTrip.{
  IsNumeric, format_int-IsNumeric, format_int-ne-nil, parse_int-format_int,
}
use ade_ctld.Parser.{Value, bool_value, int_value, push, read_line, string_value}
use ade_ctld.Parser.Laws.{
  IsTrimmed-IsNumeric, read_line-IsNumeric, read_line-quoted, read_line-words,
}
use ade_ctld.Parser.Input.{IsOneLine}
use ade_ctld.Client.Send.{
  Argument, boolean, format_argument, line_of, other, signed, text, unsigned,
}

-- A text that can be an argument: one line, with no white space at its end.
pub record IsArgument (v : Bytes) : Type 0 where
  pub one_line : IsOneLine v
  pub back : last_width (reverse v) ≡ 0

-- neither quoted nor one of the words that stand for booleans
pub record IsPlain (v : Bytes) : Type 0 where
  pub unquoted : has_prefix v (codes "\"") ≡ false
  pub ne_t : v ≢ codes "t"
  pub ne_f : v ≢ codes "f"
  pub ne_or : v ≢ codes "or"
  pub ne_and : v ≢ codes "and"
  pub ne_not : v ≢ codes "not"

-- The value that the receiver of an argument gets.
pub data Means : Argument → Value → Type 0 where
  means_signed : {i : ℤ} → IsInt64 i → Means (signed i) (int_value i)
  means_unsigned : {n : ℕ} → n < int64_limit → Means (unsigned n) (int_value (pos n))
  means_boolean : {b : Bool} → Means (boolean b) (bool_value b [])
  means_plain : {v : Bytes} → IsArgument v → IsPlain v → Means (text v) (string_value v)
  means_quoted : {v : Bytes} → IsArgument v → Means (text (b'"' ∷ v)) (string_value v)
  means_t : Means (text (codes "t")) (bool_value true [])
  means_f : Means (text (codes "f")) (bool_value false [])
  means_or : Means (text (codes "or")) (bool_value true (codes "or"))
  means_and : Means (text (codes "and")) (bool_value false (codes "and"))
  means_not : Means (text (codes "not")) (bool_value false (codes "not"))
  means_other : {s : Bytes} → IsOneLine s → Means (other s) (string_value (s ++ codes "\""))

-- Line `s` reaches the parser as the value `v`.
pub record Carries (s : Bytes) (v : Value) : Type 0 where
  pub one_line : IsOneLine s
  pub trimmed : trim_space (line_of s) ≡ s
  pub pushes : read_line s ≡ push v

Carries-quoted : {v : Bytes} → IsArgument v → Carries (b'"' ∷ v) (string_value v)
Carries-quoted {v} a =
    let t = IsTrimmed-cons b'"' v (omega arith) a.back in
    record {
      one_line = (omega arith, a.one_line);
      trimmed = trim_space_line (b'"' ∷ v) t;
      pushes = read_line-quoted t;
    }

pub IsOneLine-IsNumeric : (s : Bytes) → All IsNumeric s → IsOneLine s
IsOneLine-IsNumeric [] h = tt
IsOneLine-IsNumeric (c ∷ s) (hc, hs) = (omega arith, IsOneLine-IsNumeric s hs)

Carries-format_int : {i : ℤ} → IsInt64 i → Carries (format_int i) (int_value i)
Carries-format_int {i} fits =
    let digits = format_int-IsNumeric i in
    record {
      one_line = IsOneLine-IsNumeric (format_int i) digits;
      trimmed = trim_space_line (format_int i) (IsTrimmed-IsNumeric (format_int i) digits);
      pushes =
          read_line-IsNumeric (format_int i) (format_int-ne-nil i) digits
            (parse_int-format_int i fits);
    }

module _ {v : Bytes} (p : IsPlain v) where
  open p use {unquoted, ne_t, ne_f, ne_or, ne_and, ne_not}

  format_text-IsPlain : format_argument (text v) ≡ b'"' ∷ v
  unfolding format_argument
  format_text-IsPlain = ground (
    arith,
    unquoted,
    str_eq_iff v (codes "t"),
    str_eq_iff v (codes "f"),
    str_eq_iff v (codes "or"),
    str_eq_iff v (codes "and"),
    str_eq_iff v (codes "not"),
    ne_t,
    ne_f,
    ne_or,
    ne_and,
    ne_not,
  )

-- a text with a quotation mark behind it
IsArgument-quote : (s : Bytes) → IsOneLine s → IsArgument (s ++ codes "\"")
IsArgument-quote s h = record {
  one_line = All-append (λ c. c ≢ b'\n') s (codes "\"") h (omega arith);
  back = rw (reverse-append s (codes "\"")) (last_width-IsInk b'"' (reverse s) (omega arith));
}

Carries-word :
    {s : Bytes} {v : Value}
    → IsOneLine s
    → trim_space (line_of s) ≡ s
    → read_line s ≡ push v
    → Carries s v
Carries-word one trimmed pushed = record { one_line = one; trimmed = trimmed; pushes = pushed }

-- Each argument is written on a line that carries its meaning.
pub format_argument-Carries : {a : Argument} {v : Value} → Means a v → Carries (format_argument a) v
unfolding format_argument str_eq has_prefix format_int trim_space
format_argument-Carries (means_signed fits) = Carries-format_int fits
format_argument-Carries (means_unsigned {n} fits) = Carries-format_int {i = pos n} fits
format_argument-Carries (means_boolean {b = true}) =
    Carries-word (omega arith) refl read_line-words.0
format_argument-Carries (means_boolean {b = false}) =
    Carries-word (omega arith) refl read_line-words.1
format_argument-Carries (means_plain {v} a p) =
    subst (λ s. Carries s (string_value v)) (sym (format_text-IsPlain p)) (Carries-quoted a)
format_argument-Carries (means_quoted a) = Carries-quoted a
format_argument-Carries means_t = Carries-word (omega arith) refl read_line-words.0
format_argument-Carries means_f = Carries-word (omega arith) refl read_line-words.1
format_argument-Carries means_or = Carries-word (omega arith) refl read_line-words.2
format_argument-Carries means_and = Carries-word (omega arith) refl read_line-words.3
format_argument-Carries means_not = Carries-word (omega arith) refl read_line-words.4
format_argument-Carries (means_other {s} h) = Carries-quoted (IsArgument-quote s h)
