-- ===== src/Server/Listing/Lines.antt =====
-- The answers of list and list-next, line by line.
use ade_ctld.Text.{bytes_eq}
use mathlib.Core.Option.{some-injective}
use ade_ctld.Common.{
  All, All-drop, All-take, Bool-cases, List, Option, [], ap, append_assoc, arith, drop, inl, inr,
  leb, length, lookup, ltb, map, negsuc, none, not, pos, refl, some, subst, suc, take, zero, ℕ, ℤ,
  ◌&&◌, ◌++◌, ◌-◌, ◌∷◌, ◌≡◌, ◌≢◌, ◌≤◌,
}
use ade_ctld.Text.{Bytes, codes, str_eq}
use ade_ctld.Strconv.{format_int, format_uint}
use ade_ctld.Strconv.RoundTrip.{IsNumeric, format_int-IsNumeric, format_int-ne-nil}
use ade_ctld.Parser.Input.{IsOneLine}
use ade_ctld.Wire.Lines.{IsOneLine-IsNumeric}
use ade_ctld.Index.{Entry}
use ade_ctld.Wire.Frame.{IsMarked, frame, lines_of}
use ade_ctld.Wire.Attributes.{IsOther}
use ade_ctld.Server.State.{write_response}
use ade_ctld.Server.Listing.{
  body, list_next_page, list_page, list_response, page_end, shown_name, slice,
}
use ade_ctld.Server.Listing.Attributes.{
  AreLines, AreLines-append, first_offset-AreLines, len_attr-AreLines, limited_attr-AreLines,
  list_next_attr-AreLines, offset_attr-AreLines,
}
use ade_ctld.Server.Listing.{next_page, next_attr}
use ade_ctld.Server.Answers.Texts.{
  IsFrame, IsOneLine-append, format_uint-IsOneLine, labelled, write_error-IsFrame,
}

-- the line of an entry in the body
abbrev pub entry_line : Bytes → Entry → Bytes
entry_line lang e = format_uint e.id ++ (b' ' ∷ shown_name lang e)

-- The names of an entry have no line feed.
pub record HasCleanNames (e : Entry) : Type 0 where
  pub clean_name : IsOneLine e.name
  pub clean_names : All (λ (n : Bytes × Bytes). IsOneLine n.1) e.names

body-lines :
    (lang : Bytes) (shown : List Entry) → body lang shown ≡ lines_of (map (entry_line lang) shown)
unfolding body
body-lines lang [] = refl
body-lines lang (e ∷ es) = rw (body-lines lang es) (simp append_assoc)

lookup-IsOneLine :
    (key : Bytes) (names : List (Bytes × Bytes)) (default : Bytes)
    → IsOneLine default
    → All (λ (n : Bytes × Bytes). IsOneLine n.1) names
    → IsOneLine (elim (lookup key names) [ some name ↦ name | none ↦ default ])
unfolding lookup
lookup-IsOneLine key [] default h hs = h
lookup-IsOneLine key ((k, v) ∷ names) default h (hv, hs) = elim (Bool-cases (str_eq k key)) [
  | inl e ↦ rw e hv
  | inr e ↦ rw e (lookup-IsOneLine key names default h hs)
]

shown_name-IsOneLine : (lang : Bytes) (e : Entry) → HasCleanNames e → IsOneLine (shown_name lang e)
unfolding shown_name
shown_name-IsOneLine lang e h = elim (Bool-cases (not (str_eq lang []))) [
  | inl b ↦ rw b (lookup-IsOneLine lang e.names e.name h.clean_name h.clean_names)
  | inr b ↦ rw b h.clean_name
]

IsMarked-numeric : (s : Bytes) → s ≢ [] → All IsNumeric s → IsMarked s
IsMarked-numeric [] h d = absurd (h refl)
IsMarked-numeric (c ∷ s) h (d, ds) = (omega arith, omega arith, IsOneLine-IsNumeric s ds)

format_uint-IsMarked : (n : ℕ) → IsMarked (format_uint n)
format_uint-IsMarked n =
    unfold format_int in
    IsMarked-numeric (format_int (pos n)) (format_int-ne-nil (pos n)) (format_int-IsNumeric (pos n))

pub entry_lines-AreMarked :
    (lang : Bytes) (shown : List Entry)
    → All HasCleanNames shown
    → All IsMarked (map (entry_line lang) shown)
entry_lines-AreMarked lang [] h = tt
entry_lines-AreMarked lang (e ∷ es) (h, hs) = (
  labelled (format_uint e.id) (b' ' ∷ shown_name lang e) (format_uint-IsMarked e.id)
      (omega arith, shown_name-IsOneLine lang e h),
  entry_lines-AreMarked lang es hs,
)

-- An answer with a body that lists the entries.
pub record IsListed (lang : Bytes) (shown : List Entry) (bytes : Bytes) : Type 0 where
  pub lines : List Bytes
  pub are_marked : All IsMarked lines
  pub are_other : All IsOther lines
  pub same_bytes : bytes ≡ write_response (frame lines (some (map (entry_line lang) shown)))

IsListed-IsFrame :
    {lang : Bytes} {shown : List Entry} {bytes : Bytes}
    → IsListed lang shown bytes
    → All HasCleanNames shown
    → IsFrame bytes
IsListed-IsFrame {lang} {shown} l clean = record {
  headers = l.lines;
  texts = some (map (entry_line lang) shown);
  marked = l.are_marked;
  body_marked = entry_lines-AreMarked lang shown clean;
  same = l.same_bytes;
}

list_response-IsListed :
    (attrs lang : Bytes) (shown : List Entry)
    → AreLines attrs
    → IsListed lang shown (list_response attrs lang shown)
unfolding list_response
list_response-IsListed attrs lang shown a = record {
  lines = a.lines;
  are_marked = a.are_marked;
  are_other = a.are_other;
  same_bytes = rw (a.same_lines, body-lines lang shown);
}

take-all : {A : Type 0} (n : ℕ) (xs : List A) → length xs ≤ n → take n xs ≡ xs
take-all zero [] h = refl
take-all zero (x ∷ xs) h = absurd (omega arith)
take-all (suc n) [] h = refl
take-all (suc n) (x ∷ xs) h = ap (◌∷◌ x) (take-all n xs (omega arith))

pub list_page-IsListed :
    (lang : Bytes) (limit : ℕ) (filtered : List Entry)
    → IsListed lang (take limit filtered) (list_page lang limit filtered)
unfolding list_page
list_page-IsListed lang limit filtered =
    let len = len_attr-AreLines (length filtered) in
    elim (Bool-cases (ltb limit (length filtered))) [
      | inl more ↦ rw more (
          list_response-IsListed _ lang (take limit filtered) (
            AreLines-append len (
              AreLines-append (limited_attr-AreLines limit)
                (AreLines-append first_offset-AreLines (list_next_attr-AreLines limit limit)))))
      | inr last ↦
          rw (last, take-all limit filtered (ground arith))
            (list_response-IsListed _ lang filtered len)
    ]

pub list_page-IsFrame :
    (lang : Bytes) (limit : ℕ) (filtered : List Entry)
    → All HasCleanNames filtered
    → IsFrame (list_page lang limit filtered)
list_page-IsFrame lang limit filtered clean =
    IsListed-IsFrame (list_page-IsListed lang limit filtered)
      (All-take HasCleanNames limit filtered clean)

next_attr-AreLines : (end_ : ℤ) (limit full_len : ℕ) → AreLines (next_attr end_ limit full_len)
unfolding next_attr
next_attr-AreLines (pos n) limit full_len = elim (Bool-cases (ltb n full_len)) [
  | inl more ↦ rw more (list_next_attr-AreLines n limit)
  | inr last ↦ rw last (record { lines = []; are_marked = tt; are_other = tt; same_lines = refl })
]
next_attr-AreLines (negsuc n) limit full_len = record {
  lines = [];
  are_marked = tt;
  are_other = tt;
  same_lines = refl;
}

slice-All :
    (P : Entry → Type 0) (xs : List Entry) (lo : ℕ) (hi : ℤ) {ys : List Entry}
    → All P xs
    → slice xs lo hi ≡ some ys
    → All P ys
unfolding slice
slice-All P xs lo (negsuc n) h e = absurd (cc e)
slice-All P xs lo (pos hi) {ys} h e = elim (Bool-cases (leb lo hi && leb hi (length xs))) [
  | inl inside ↦
      subst (All P) (some-injective _ _ (rw inside at e))
        (All-take P (hi - lo) (drop lo xs) (All-drop P lo xs h))
  | inr outside ↦ absurd (cc (rw outside at e))
]

next_page-IsFrame :
    (lang : Bytes) (offset limit full_len : ℕ) (shown : Option (List Entry)) (end_ : ℤ)
    (response : Bytes)
    → ((ys : List Entry) → shown ≡ some ys → All HasCleanNames ys)
    → next_page lang offset limit full_len shown end_ ≡ some response
    → IsFrame response
unfolding next_page
next_page-IsFrame lang offset limit full_len none end_ response h e = absurd (cc e)
next_page-IsFrame lang offset limit full_len (some shown) end_ response h e =
    subst IsFrame (some-injective _ _ e) (
      IsListed-IsFrame
        (list_response-IsListed _ lang shown (
          AreLines-append (len_attr-AreLines full_len) (
            AreLines-append (limited_attr-AreLines limit) (
              AreLines-append (offset_attr-AreLines offset)
                (next_attr-AreLines end_ limit full_len)))))
        (h shown refl))

pub list_next_page-IsFrame :
    (lang : Bytes) (offset limit : ℕ) (filtered : List Entry) (response : Bytes)
    → All HasCleanNames filtered
    → list_next_page lang offset limit filtered ≡ some response
    → IsFrame response
unfolding list_next_page
list_next_page-IsFrame lang offset limit filtered response clean e =
    let end_ = page_end offset limit (length filtered) in
    elim (Bool-cases (leb (length filtered) offset)) [
      | inl outside ↦ subst IsFrame (some-injective _ _ (rw outside at e)) (
          write_error-IsFrame (codes "list-next") (codes "offset out of bounds")
            (codes "offset "
              ++ (format_uint offset
                  ++ (codes " exceeds total entries " ++ format_uint (length filtered))))
            (omega arith) (omega arith)
            (IsOneLine-append (codes "offset ") _ (omega arith) (
              IsOneLine-append (format_uint offset) _ (format_uint-IsOneLine offset) (
                IsOneLine-append (codes " exceeds total entries ") _ (omega arith)
                  (format_uint-IsOneLine (length filtered))))))
      | inr inside ↦
          next_page-IsFrame lang offset limit (length filtered) (slice filtered offset end_) end_
            response (λ ys same. slice-All HasCleanNames filtered offset end_ clean same)
            (rw inside at e)
    ]
