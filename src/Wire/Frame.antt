-- ===== src/Wire/Frame.antt =====
-- How the client reads the lines of an answer.
use ade_ctld.Common.{
  ==_iff, All, Bool, Bool-cases, List, Option, [], append-nil, append_assoc, arith, false, inl, inr,
  length, length-append, none, refl, some, subst, suc, true, zero, ℕ, ◌++◌, ◌+◌, ◌<◌, ◌==◌, ◌∷◌,
  ◌≡◌, ◌≢◌, ◌≤◌,
}
use ade_ctld.Text.{Bytes, IsInk, codes, str_eq, str_eq_iff, trim_space, trim_space-head}
use ade_ctld.Parser.Input.{Ending, IsOneLine}
use ade_ctld.Client.Send.{line_of}
use ade_ctld.Client.Receive.{
  Received, is_blank_line_before_body_header, is_end_of_response, read_string, receive,
  receive_line, received,
}

-- A line that starts with an ASCII mark other than `b`, so that it is neither empty nor `body:`.
abbrev pub IsMarked : Bytes → Type 0
IsMarked [] = ⊥
IsMarked (c ∷ s) = IsInk c × (c ≢ b'b') × IsOneLine s

abbrev pub lines_of : List Bytes → Bytes
lines_of [] = []
lines_of (l ∷ ls) = l ++ (b'\n' ∷ lines_of ls)

read_string-line :
    (s rest : Bytes) → IsOneLine s → read_string (s ++ (b'\n' ∷ rest)) ≡ some (line_of s, rest)
unfolding read_string
read_string-line [] rest h = refl
read_string-line (c ∷ s) rest (hc, hs) = elim (Bool-cases (c == b'\n')) [
  | inl e ↦ absurd (hc ((==_iff c b'\n').0 e))
  | inr e ↦ rw (e, read_string) (rw (read_string-line s rest hs))
]

pub one_line : (s : Bytes) → IsMarked s → IsOneLine s
one_line [] h = elim h [ ]
one_line (c ∷ s) (ink, ne, h) = (omega arith, h)

trim_space-ne-body :
    (s : Bytes) → IsMarked s → str_eq (trim_space (line_of s)) (codes "body:") ≡ false
trim_space-ne-body [] h = elim h [ ]
trim_space-ne-body (c ∷ s) (ink, ne, h) =
    elim (Bool-cases (str_eq (trim_space (line_of (c ∷ s))) (codes "body:"))) [
      | inl e ↦
          absurd (ne (trim_space-head c b'b' (line_of s) (codes "ody:") ink ((str_eq_iff _ _).0 e)))
      | inr e ↦ e
    ]

ne_line_feed : (s : Bytes) → IsMarked s → str_eq (line_of s) (codes "\n") ≡ false
unfolding str_eq
ne_line_feed [] h = elim h [ ]
ne_line_feed (c ∷ s) (ink, ne, h) = ground arith

blank_before_body :
    (rest : Bytes) → is_blank_line_before_body_header (codes "body:\n" ++ rest) ≡ true
unfolding is_blank_line_before_body_header str_eq
blank_before_body rest = ground arith

pub regroup : (body l ls : Bytes) → body ++ (l ++ (b'\n' ∷ ls)) ≡ (body ++ line_of l) ++ ls
regroup body l ls = simp append_assoc

-- An answer: its lines, the lines of its body if it has one, and the mark of its end.
abbrev pub frame : List Bytes → Option (List Bytes) → Bytes
frame ls none = lines_of ls ++ codes "\n\n"
frame ls (some texts) = lines_of ls ++ (codes "\nbody:\n" ++ (lines_of texts ++ codes "\n\n"))

abbrev pub frame_body : Option (List Bytes) → Bytes
frame_body none = []
frame_body (some texts) = lines_of texts

abbrev pub AreMarked : Option (List Bytes) → Type 0
AreMarked none = Unit
AreMarked (some texts) = All IsMarked texts

length-lines_of : (ls : List Bytes) → length ls ≤ length (lines_of ls)
length-lines_of [] = omega arith
length-lines_of (l ∷ ls) = omega (arith, length-lines_of ls, length-append l (b'\n' ∷ lines_of ls))

module _ {A : Type 0} (blank header : Bytes → A → A) (ending : Ending) where
  -- `k` rounds are enough to read `input`, with the result `r`.
  abbrev pub Reads : ℕ → Bool → A → Bytes → Bytes → Received A → Type 0
  Reads k seen attrs body input r =
      (f : ℕ) → k ≤ f → receive blank header f ending seen attrs body input ≡ some r

  round :
      (k : ℕ) (seen : Bool) (attrs : A) (body s rest : Bytes) (r : Received A)
      → IsOneLine s
      → ((f : ℕ)
          → k ≤ f
          → receive_line blank header
              (receive blank header f ending)
              seen
              attrs
              body
              (line_of s)
              rest
            ≡ some r)
      → Reads (suc k) seen attrs body (s ++ (b'\n' ∷ rest)) r
  unfolding receive
  round k seen attrs body s rest r one h zero lt = absurd (omega arith)
  round k seen attrs body s rest r one h (suc f) lt =
      rw (read_string-line s rest one, receive) (h f (omega arith))

  pub Reads-header :
      (k : ℕ) (attrs : A) (body s rest : Bytes) (r : Received A)
      → IsMarked s
      → Reads k false (header (line_of s) attrs) body rest r
      → Reads (suc k) false attrs body (s ++ (b'\n' ∷ rest)) r
  unfolding receive_line
  Reads-header k attrs body s rest r m h =
      round k false attrs body s rest r (one_line s m)
        (λ f le. rw (trim_space-ne-body s m, ne_line_feed s m) (h f le))

  pub Reads-text :
      (k : ℕ) (attrs : A) (body s rest : Bytes) (r : Received A)
      → IsMarked s
      → Reads k true attrs (body ++ line_of s) rest r
      → Reads (suc k) true attrs body (s ++ (b'\n' ∷ rest)) r
  unfolding receive_line
  Reads-text k attrs body s rest r m h =
      round k true attrs body s rest r (one_line s m)
        (λ f le. rw (trim_space-ne-body s m, ne_line_feed s m) (h f le))

  pub Reads-end :
      (k : ℕ) (seen : Bool) (attrs : A) (body rest : Bytes)
      → Reads (suc k) seen attrs body (b'\n' ∷ (b'\n' ∷ rest)) (received attrs body rest)
  unfolding receive_line str_eq trim_space is_end_of_response
  Reads-end k seen attrs body rest =
      round k seen attrs body [] (b'\n' ∷ rest) (received attrs body rest) tt (λ f le. refl)

  pub Reads-body :
      (k : ℕ) (attrs : A) (body rest : Bytes) (r : Received A)
      → Reads k true (blank (codes "\n") attrs) body rest r
      → Reads (suc (suc k)) false attrs body (codes "\nbody:\n" ++ rest) r
  unfolding receive_line str_eq trim_space is_end_of_response
  Reads-body k attrs body rest r h =
      round (suc k) false attrs body [] (codes "body:\n" ++ rest) r tt (λ f le.
        let later =
          (round k false (blank (codes "\n") attrs) body (codes "body:") rest r (omega arith)
            (λ g lt. h g lt) f le) in
        rw (blank_before_body rest) later)

  -- what the lines in front of the body come to
  abbrev pub after_headers : List Bytes → A → A
  after_headers [] attrs = attrs
  after_headers (l ∷ ls) attrs = after_headers ls (header (line_of l) attrs)

  pub Reads-headers :
      (ls : List Bytes) (k : ℕ) (attrs : A) (body rest : Bytes) (r : Received A)
      → All IsMarked ls
      → Reads k false (after_headers ls attrs) body rest r
      → Reads (length ls + k) false attrs body (lines_of ls ++ rest) r
  Reads-headers [] k attrs body rest r m h = λ f le. h f (omega arith)
  Reads-headers (l ∷ ls) k attrs body rest r (m, ms) h = λ f le.
      rw (append_assoc l (b'\n' ∷ lines_of ls) rest) (
        Reads-header (length ls + k) attrs body l (lines_of ls ++ rest) r m
          (Reads-headers ls k (header (line_of l) attrs) body rest r ms h) f (omega arith))

  pub Reads-texts :
      (ls : List Bytes) (k : ℕ) (attrs : A) (body rest : Bytes) (r : Received A)
      → All IsMarked ls
      → Reads k true attrs (body ++ lines_of ls) rest r
      → Reads (length ls + k) true attrs body (lines_of ls ++ rest) r
  Reads-texts [] k attrs body rest r m h = λ f le. rw (← append-nil body) (h f (omega arith))
  Reads-texts (l ∷ ls) k attrs body rest r (m, ms) h = λ f le.
      rw (append_assoc l (b'\n' ∷ lines_of ls) rest) (
        Reads-text (length ls + k) attrs body l (lines_of ls ++ rest) r m
          (Reads-texts ls k attrs (body ++ line_of l) rest r ms
            (subst (λ b. Reads k true attrs b rest r) (regroup body l (lines_of ls)) h))
          f (omega arith))

  -- what a whole answer comes to; the empty line in front of a body is a blank one
  abbrev pub frame_attrs : List Bytes → Option (List Bytes) → A → A
  frame_attrs ls none attrs = after_headers ls attrs
  frame_attrs ls (some texts) attrs = blank (codes "\n") (after_headers ls attrs)

  pub Reads-frame :
      (ls : List Bytes) (texts : Option (List Bytes)) (attrs : A) (rest : Bytes) (f : ℕ)
      → All IsMarked ls
      → AreMarked texts
      → length (frame ls texts) < f
      → receive blank header f ending false attrs [] (frame ls texts ++ rest)
        ≡ some (received (frame_attrs ls texts attrs) (frame_body texts) rest)
  Reads-frame ls none attrs rest f ms ts enough =
      rw (append_assoc (lines_of ls) (codes "\n\n") rest) (
        Reads-headers ls 1 attrs [] (codes "\n\n" ++ rest) _ ms
          (Reads-end 0 false (after_headers ls attrs) [] rest) f
          (omega (arith, length-lines_of ls, length-append (lines_of ls) (codes "\n\n"))))
  Reads-frame ls (some texts) attrs rest f ms ts enough =
      let seen = blank (codes "\n") (after_headers ls attrs) in
      rw
        (
          append_assoc (lines_of ls) (codes "\nbody:\n" ++ (lines_of texts ++ codes "\n\n")) rest,
          append_assoc (lines_of texts) (codes "\n\n") rest,
        )
        (Reads-headers ls (suc (suc (length texts + 1))) attrs []
          (codes "\nbody:\n" ++ (lines_of texts ++ (codes "\n\n" ++ rest))) _ ms
          (Reads-body (length texts + 1) (after_headers ls attrs) []
            (lines_of texts ++ (codes "\n\n" ++ rest)) _
            (Reads-texts texts 1 seen [] (codes "\n\n" ++ rest) _ ts
              (Reads-end 0 true seen (lines_of texts) rest)))
          f
          (omega (
            arith,
            length-lines_of ls,
            length-lines_of texts,
            length-append (lines_of ls) (codes "\nbody:\n" ++ (lines_of texts ++ codes "\n\n")),
            length-append (lines_of texts) (codes "\n\n"),
          )))
