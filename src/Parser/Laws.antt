-- ===== src/Parser/Laws.antt =====
-- What `ParseCommand` makes of a single line: strings, integers, the words for booleans, commands.
use ade_ctld.Common.{
  All, Bool-cases, List, [], all, any, ap, arith, false, inl, inr, refl, some, subst, sym, true, ℤ,
  ◌++◌, ◌∙◌, ◌∷◌, ◌≡◌, ◌≢◌,
}
use ade_ctld.Text.{
  Bytes, IsInk, IsTrimmed, IsTrimmed-All, codes, cut_prefix, has_prefix, str_eq, str_eq_iff,
  trim_space, trim_space-IsTrimmed,
}
use ade_ctld.Strconv.{parse_int}
use ade_ctld.Strconv.RoundTrip.{IsNumeric}
use ade_ctld.Parser.Input.{IsOneLine}
use ade_ctld.Parser.{
  Value, bool_value, commands, found, int_value, parse_command, parse_value, push, read_line,
  string_value,
}
use ade_ctld.Parser.{find_command, parse_literal, value_of_line, named}

parse_value_trimmed : {s : Bytes} → IsTrimmed s → parse_value s ≡ value_of_line s
unfolding parse_value
parse_value_trimmed t = ap value_of_line (trim_space-IsTrimmed t)

parse_command_trimmed : {s : Bytes} → IsTrimmed s → parse_command s ≡ find_command s commands
unfolding parse_command
parse_command_trimmed t = ap (λ x. find_command x commands) (trim_space-IsTrimmed t)

value_of_line-quoted : (v : Bytes) → value_of_line (b'"' ∷ v) ≡ some (string_value v)
unfolding value_of_line cut_prefix
value_of_line-quoted v = refl

named-push : (s : Bytes) {v : Value} → parse_value s ≡ some v → named s [] ≡ push v
unfolding named
named-push s h = rw (h, named)

-- A quoted line is pushed as a string, whatever it holds.
pub read_line-quoted :
    {v : Bytes} → IsTrimmed (b'"' ∷ v) → read_line (b'"' ∷ v) ≡ push (string_value v)
unfolding read_line str_eq has_prefix find_command
read_line-quoted {v} t =
    ap (named (b'"' ∷ v)) (parse_command_trimmed t)
    ∙ named-push (b'"' ∷ v) (parse_value_trimmed t ∙ value_of_line-quoted v)

-- a text of digits and signs is none that has another byte
str_eq-IsNumeric : (s t : Bytes) → All IsNumeric s → ¬ All IsNumeric t → str_eq s t ≡ false
str_eq-IsNumeric s t h other = elim (Bool-cases (str_eq s t)) [
  | inl e ↦ absurd (other (subst (All IsNumeric) ((str_eq_iff s t).0 e) h))
  | inr e ↦ e
]

find_command-IsNumeric :
    (s : Bytes) (cmds : List Bytes)
    → All IsNumeric s
    → All (λ cmd. ¬ All IsNumeric cmd) cmds
    → find_command s cmds ≡ []
unfolding find_command
find_command-IsNumeric s [] h others = refl
find_command-IsNumeric s (cmd ∷ cmds) h (other, others) =
    rw (str_eq-IsNumeric s cmd h other, find_command) (find_command-IsNumeric s cmds h others)

commands-not-IsNumeric : All (λ cmd. ¬ All IsNumeric cmd) commands
commands-not-IsNumeric = omega arith

parse_literal-IsNumeric :
    (s : Bytes) {i : ℤ}
    → All IsNumeric s
    → parse_int s ≡ some i
    → parse_literal s ≡ some (int_value i)
unfolding parse_literal
parse_literal-IsNumeric s h parsed = rw (
  str_eq-IsNumeric s (codes "t") h (λ n. omega arith),
  str_eq-IsNumeric s (codes "f") h (λ n. omega arith),
  str_eq-IsNumeric s (codes "or") h (λ n. omega arith),
  str_eq-IsNumeric s (codes "and") h (λ n. omega arith),
  str_eq-IsNumeric s (codes "not") h (λ n. omega arith),
  parsed,
)

value_of_line-IsNumeric : (s : Bytes) → All IsNumeric s → value_of_line s ≡ parse_literal s
unfolding value_of_line cut_prefix
value_of_line-IsNumeric [] h = refl
value_of_line-IsNumeric (c ∷ s) h = ground arith

read_line_numeric : (s : Bytes) → s ≢ [] → All IsNumeric s → read_line s ≡ named s (parse_command s)
unfolding read_line str_eq has_prefix
read_line_numeric [] ne h = absurd (ne refl)
read_line_numeric (c ∷ s) ne h = ground arith

pub IsTrimmed-IsNumeric : (s : Bytes) → All IsNumeric s → IsTrimmed s
IsTrimmed-IsNumeric s h = IsTrimmed-All s (ink s h)
  where
    ink : (r : Bytes) → All IsNumeric r → All IsInk r
    ink [] _ = tt
    ink (c ∷ r) (hc, hr) = ((omega arith, omega arith), ink r hr)

-- A line of digits is pushed as the integer that `ParseInt` reads.
pub read_line-IsNumeric :
    (s : Bytes) {i : ℤ}
    → s ≢ []
    → All IsNumeric s
    → parse_int s ≡ some i
    → read_line s ≡ push (int_value i)
read_line-IsNumeric s {i} ne h parsed =
    let t = IsTrimmed-IsNumeric s h in
    read_line_numeric s ne h
    ∙ ap (named s)
        (parse_command_trimmed t ∙ find_command-IsNumeric s commands h commands-not-IsNumeric)
    ∙ named-push s
        (parse_value_trimmed t ∙ value_of_line-IsNumeric s h ∙ parse_literal-IsNumeric s h parsed)

-- The words that are pushed as booleans.
pub read_line-words :
    (read_line (codes "t") ≡ push (bool_value true []))
    × (read_line (codes "f") ≡ push (bool_value false []))
    × (read_line (codes "or") ≡ push (bool_value true (codes "or")))
    × (read_line (codes "and") ≡ push (bool_value false (codes "and")))
    × (read_line (codes "not") ≡ push (bool_value false (codes "not")))
unfolding read_line parse_command parse_value parse_literal value_of_line str_eq has_prefix
    cut_prefix trim_space
read_line-words = (refl, refl, refl, refl, refl)

-- the name of a command that `parseCommand` knows
abbrev pub IsKnown : Bytes → Type 0
IsKnown name = any (str_eq name) commands ≡ true

find_known :
    (P : Bytes → Type 0) (s : Bytes) (l : List Bytes) → any (str_eq s) l ≡ true → All P l → P s
find_known P s [] h all = absurd (cc)
find_known P s (x ∷ l) h (px, all) = elim (Bool-cases (str_eq s x)) [
  | inl e ↦ subst P (sym ((str_eq_iff s x).0 e)) px
  | inr e ↦ find_known P s l (rw e at h) all
]

abbrev EndsArguments : Bytes → Type 0
EndsArguments name =
    IsOneLine name × (trim_space (name ++ b'\n' ∷ []) ≡ name) × (read_line name ≡ found name)

commands-EndsArguments : All EndsArguments commands
unfolding read_line find_command parse_command str_eq has_prefix trim_space named
commands-EndsArguments = (
  (omega arith, refl, refl),
  (
    (omega arith, refl, refl),
    (
      (omega arith, refl, refl),
      (
        (omega arith, refl, refl),
        (
          (omega arith, refl, refl),
          (
            (omega arith, refl, refl),
            (
              (omega arith, refl, refl),
              (
                (omega arith, refl, refl),
                (
                  (omega arith, refl, refl),
                  ((omega arith, refl, refl), ((omega arith, refl, refl), tt)),
                ),
              ),
            ),
          ),
        ),
      ),
    ),
  ),
)

-- A known name is a line that ends the arguments.
pub read_line-IsKnown :
    (name : Bytes)
    → IsKnown name
    → IsOneLine name × (trim_space (name ++ b'\n' ∷ []) ≡ name) × (read_line name ≡ found name)
read_line-IsKnown name known = find_known EndsArguments name commands known commands-EndsArguments
