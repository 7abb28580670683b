-- ===== src/Parser/Input.antt =====
-- The `bufio.Reader` of the parser: the input that has not been read, by its lines, each with its
-- line feed; an incomplete line behind them is never handed out. Where the input ends, `Read`
-- reports `io.EOF`, or other errors first: the reader forgets an error that it has reported, and
-- reads again.
use ade_ctld.Common.{
  ==_iff, All, Bool-cases, List, [], append_assoc, false, inl, inr, refl, suc, true, ℕ, ◌++◌, ◌==◌,
  ◌∙◌, ◌∷◌, ◌≡◌, ◌≢◌,
}
use ade_ctld.Text.{Bytes}

pub data Ending : Type 0 where
  at_end : Ending
  broken : Bytes → Ending → Ending

-- how many errors are reported before the end
unfoldable pub failures : Ending → ℕ
failures at_end = 0
failures (broken why ending) = suc (failures ending)

pub record Reader : Type 0 where
  pub lines : List Bytes
  pub ending : Ending

-- The complete lines of a text; the first argument is what has been read of the current one.
lines_from : Bytes → Bytes → List Bytes
lines_from cur [] = []
lines_from cur (c ∷ s) = elim (c == b'\n') [
  | true ↦ (cur ++ c ∷ []) ∷ lines_from [] s
  | false ↦ lines_from (cur ++ c ∷ []) s
]

unfoldable pub split_lines : Bytes → List Bytes
unfolding lines_from
split_lines s = lines_from [] s

unfoldable pub reader_of : Bytes → Ending → Reader
unfolding split_lines
reader_of input ending = record { lines = split_lines input; ending = ending }

-- no line feed
abbrev pub IsOneLine : Bytes → Type 0
IsOneLine s = All (λ c. c ≢ b'\n') s

lines_from-append :
    (s cur rest : Bytes)
    → IsOneLine s
    → lines_from cur (s ++ (b'\n' ∷ rest)) ≡ (cur ++ (s ++ b'\n' ∷ [])) ∷ lines_from [] rest
unfolding lines_from
lines_from-append [] cur rest h = refl
lines_from-append (c ∷ s) cur rest (hc, hs) = elim (Bool-cases (c == b'\n')) [
  | inl e ↦ absurd (hc ((==_iff c b'\n').0 e))
  | inr e ↦
      rw (e, lines_from)
        (lines_from-append s (cur ++ c ∷ []) rest hs
          ∙ rw (append_assoc cur (c ∷ []) (s ++ b'\n' ∷ [])))
]

-- A line is split off the text that it stands in front of.
pub split_lines-append :
    (s rest : Bytes)
    → IsOneLine s
    → split_lines (s ++ (b'\n' ∷ rest)) ≡ (s ++ b'\n' ∷ []) ∷ split_lines rest
unfolding split_lines
split_lines-append s rest h = lines_from-append s [] rest h
