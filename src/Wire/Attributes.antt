-- ===== src/Wire/Attributes.antt =====
-- The attributes that `readResponse` of client/exe/client.go collects.
use ade_ctld.Text.{bytes_eq}
use ade_ctld.Common.{
  All, List, [], arith, false, lookup, lookup-insert, none, refl, reverse, some, ◌++◌, ◌∙◌, ◌∷◌,
  ◌≡◌, ◌≢◌,
}
use ade_ctld.Text.{
  Bytes, IsTrimmed, codes, last_width, split_n2, str_eq, trim_space, trim_space_line, width-IsInk,
}
use ade_ctld.Strconv.RoundTrip.{IsNumeric}
use ade_ctld.Parser.Input.{at_end}
use ade_ctld.Parser.Laws.{IsTrimmed-IsNumeric}
use ade_ctld.Client.Send.{line_of}
use ade_ctld.Client.Receive.{Attrs, add_attr, no_blank}
use ade_ctld.Wire.Frame.{IsMarked, after_headers}
use ade_ctld.Wire.Answers.{attrs_of}
use ade_ctld.Wire.Body.{last_width-ascii, reverse-around, reverse-ne-nil}

-- There is no attribute `error`.
abbrev pub NoError : Attrs → Type 0
NoError attrs = lookup (codes "error") attrs ≡ none

-- A line of an attribute with another name.
pub record IsOther (line : Bytes) : Type 0 where
  pub trimmed : IsTrimmed line
  pub key : Bytes
  pub value : Bytes
  pub filled : str_eq line [] ≡ false
  pub parts : split_n2 b':' line ≡ some (key, value)
  pub other_key : str_eq (trim_space key) (codes "error") ≡ false

NoError-add_attr :
    (line : Bytes) (attrs : Attrs)
    → IsOther line
    → NoError attrs
    → NoError (add_attr (line_of line) attrs)
unfolding add_attr
NoError-add_attr line attrs o h =
    rw (trim_space_line line o.trimmed, o.filled, o.parts)
      (lookup-insert (trim_space o.key) (codes "error") (trim_space o.value) attrs
        ∙ (rw o.other_key h))

NoError-headers :
    (ls : List Bytes) (attrs : Attrs)
    → All IsOther ls
    → NoError attrs
    → NoError (after_headers no_blank add_attr at_end ls attrs)
NoError-headers [] attrs h e = e
NoError-headers (l ∷ ls) attrs (h, hs) e =
    NoError-headers ls (add_attr (line_of l) attrs) hs (NoError-add_attr l attrs h e)

pub NoError-attrs_of : (ls : List Bytes) → All IsOther ls → NoError (attrs_of ls)
unfolding attrs_of lookup
NoError-attrs_of ls h = NoError-headers ls [] h refl

-- a text that ends with a space and a number
pub numeric-back :
    (label digits : Bytes)
    → digits ≢ []
    → All IsNumeric digits
    → last_width (reverse (label ++ (b' ' ∷ digits))) ≡ 0
numeric-back label digits ne h = rw (reverse-around b' ' label digits) (
    last_width-ascii b' ' (reverse digits) (reverse label) (omega arith) (reverse-ne-nil digits ne)
      (IsTrimmed-IsNumeric digits h).back)

-- A marked line that does not end with white space, with a colon.
pub IsOther-parts :
    (line key value : Bytes)
    → IsMarked line
    → last_width (reverse line) ≡ 0
    → split_n2 b':' line ≡ some (key, value)
    → str_eq (trim_space key) (codes "error") ≡ false
    → IsOther line
unfolding str_eq
IsOther-parts [] key value m back parts other = elim m [ ]
IsOther-parts (c ∷ s) key value (ink, ne, h) back parts other = record {
  trimmed = record { front = width-IsInk c s ink; back = back };
  key = key;
  value = value;
  filled = refl;
  parts = parts;
  other_key = other;
}
