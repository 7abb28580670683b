-- ===== src/Server/Listing/Attributes.antt =====
-- The attributes of the answers of list and list-next (server/server.go), line by line.
use ade_ctld.Common.{
  All, All-append, List, [], append_assoc, arith, false, pos, refl, reverse, some, subst, ℕ, ◌++◌,
  ◌∷◌, ◌≡◌,
}
use ade_ctld.Text.{Bytes, codes, last_width, split_n2, str_eq, trim_space}
use ade_ctld.Strconv.{format_int, format_uint}
use ade_ctld.Strconv.RoundTrip.{format_int-IsNumeric, format_int-ne-nil}
use ade_ctld.Wire.Frame.{IsMarked, lines_of}
use ade_ctld.Wire.Attributes.{IsOther, IsOther-parts, numeric-back}
use ade_ctld.Server.Listing.{list_next_attr, number_attr}
use ade_ctld.Server.Answers.Texts.{IsOneLine-append, format_uint-IsOneLine, labelled}

-- Attributes are lines that the client can take apart.
pub record AreLines (attrs : Bytes) : Type 0 where
  pub lines : List Bytes
  pub are_marked : All IsMarked lines
  pub are_other : All IsOther lines
  pub same_lines : attrs ≡ lines_of lines

lines_of-append : (k l : List Bytes) → lines_of (k ++ l) ≡ lines_of k ++ lines_of l
lines_of-append [] l = refl
lines_of-append (x ∷ k) l = rw (lines_of-append k l) (simp append_assoc)

pub AreLines-append : {s t : Bytes} → AreLines s → AreLines t → AreLines (s ++ t)
AreLines-append {s} {t} a b = record {
  lines = a.lines ++ b.lines;
  are_marked = All-append IsMarked a.lines b.lines a.are_marked b.are_marked;
  are_other = All-append IsOther a.lines b.lines a.are_other b.are_other;
  same_lines = rw (lines_of-append a.lines b.lines, a.same_lines, b.same_lines);
}

AreLines-line :
    {s : Bytes} (line : Bytes)
    → IsMarked line
    → IsOther line
    → s ≡ line ++ (b'\n' ∷ [])
    → AreLines s
AreLines-line line m o e = record {
  lines = line ∷ [];
  are_marked = (m, tt);
  are_other = (o, tt);
  same_lines = e;
}

format_uint-back :
    (label : Bytes) (n : ℕ) → last_width (reverse (label ++ (b' ' ∷ format_uint n))) ≡ 0
format_uint-back label n =
    unfold format_int in
    numeric-back label (format_int (pos n)) (format_int-ne-nil (pos n))
      (format_int-IsNumeric (pos n))

number_attr-AreLines :
    (key : Bytes) (n : ℕ)
    → IsMarked (key ++ codes ": ")
    → ((s : Bytes) → split_n2 b':' (key ++ (codes ": " ++ s)) ≡ some (key, b' ' ∷ s))
    → str_eq (trim_space key) (codes "error") ≡ false
    → AreLines (number_attr key n)
unfolding number_attr
number_attr-AreLines key n m parts other =
    let regrouped : (key ++ codes ":") ++ (b' ' ∷ format_uint n)
        ≡ key ++ (codes ": " ++ format_uint n) =
      simp append_assoc in
    let marked : IsMarked (key ++ (codes ": " ++ format_uint n)) =
      subst IsMarked (append_assoc key (codes ": ") (format_uint n))
        (labelled (key ++ codes ": ") (format_uint n) m (format_uint-IsOneLine n)) in
    AreLines-line (key ++ (codes ": " ++ format_uint n)) marked
      (IsOther-parts _ key (b' ' ∷ format_uint n) marked
        (subst (λ s. last_width (reverse s) ≡ 0) regrouped (format_uint-back (key ++ codes ":") n))
        (parts (format_uint n)) other)
      (simp append_assoc)

pub len_attr-AreLines : (n : ℕ) → AreLines (number_attr (codes "len") n)
unfolding split_n2 str_eq trim_space
len_attr-AreLines n = number_attr-AreLines (codes "len") n (omega arith) (λ s. refl) refl

pub limited_attr-AreLines : (n : ℕ) → AreLines (number_attr (codes "limited") n)
unfolding split_n2 str_eq trim_space
limited_attr-AreLines n = number_attr-AreLines (codes "limited") n (omega arith) (λ s. refl) refl

pub offset_attr-AreLines : (n : ℕ) → AreLines (number_attr (codes "offset") n)
unfolding split_n2 str_eq trim_space
offset_attr-AreLines n = number_attr-AreLines (codes "offset") n (omega arith) (λ s. refl) refl

pub first_offset-AreLines : AreLines (codes "offset: 0\n")
unfolding split_n2 str_eq trim_space last_width
first_offset-AreLines =
    AreLines-line (codes "offset: 0") (omega arith)
      (IsOther-parts (codes "offset: 0") (codes "offset") (codes " 0") (omega arith) refl refl refl)
      refl

pub list_next_attr-AreLines : (from limit : ℕ) → AreLines (list_next_attr from limit)
unfolding list_next_attr split_n2 str_eq trim_space
list_next_attr-AreLines from limit =
    let line = codes "list-next: " ++ (format_uint from ++ (b' ' ∷ format_uint limit)) in
    let marked : IsMarked line =
      labelled (codes "list-next: ") (format_uint from ++ (b' ' ∷ format_uint limit)) (omega arith)
        (IsOneLine-append (format_uint from) (b' ' ∷ format_uint limit) (format_uint-IsOneLine from)
          (omega arith, format_uint-IsOneLine limit)) in
    AreLines-line line marked
      (IsOther-parts line (codes "list-next") _ marked
        (format_uint-back (codes "list-next: " ++ format_uint from) limit) refl refl)
      (simp append_assoc)
