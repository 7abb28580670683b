-- ===== src/Text/Scanner.antt =====
-- `bufio.Scanner` with `ScanLines`, and `filepath.Base` on Unix.
use ade_ctld.Common.{Bool, List, [], false, if◌then◌else◌, reverse, suc, true, zero, ℕ, ◌==◌, ◌∷◌}
use ade_ctld.Text.Base.{Bytes, codes}

-- The lines that `Scan` delivers, and whether it stopped at a line that does not fit its buffer.
pub record Scanned : Type 0 where
  pub lines : List Bytes
  pub too_long : Bool

-- 64 KiB, one byte of which is for the line feed
abbrev pub max_line : ℕ
max_line = 65535

-- a carriage return at the end of a line is dropped; the line is given backwards
drop_cr : Bytes → Bytes
drop_cr [] = []
drop_cr (c ∷ r) = if c == b'\r' then reverse r else reverse (c ∷ r)

-- What stands in front of the end of the text: an empty rest is no line.
last_line : Bytes → Scanned
unfolding drop_cr
last_line [] = record { lines = []; too_long = false }
last_line r = record { lines = drop_cr r ∷ []; too_long = false }

-- `room` bytes fit in front of the line feed; `r` is the current line, backwards.
scan_from : ℕ → Bytes → Bytes → Scanned
unfolding drop_cr last_line
scan_from room r [] = last_line r
scan_from room r (c ∷ s) = elim (c == b'\n') [
  | true ↦
      (let rest = scan_from max_line [] s in
        record { lines = drop_cr r ∷ rest.lines; too_long = rest.too_long })
  | false ↦ elim room [
    | zero ↦ record { lines = []; too_long = true }
    | suc k ↦ scan_from k (c ∷ r) s
  ]
]

unfoldable pub scan_lines : Bytes → Scanned
unfolding scan_from
scan_lines s = scan_from max_line [] s

drop_slashes : Bytes → Bytes
drop_slashes [] = []
drop_slashes (c ∷ r) = elim (c == b'/') [ true ↦ drop_slashes r | false ↦ c ∷ r ]

until_slash : Bytes → Bytes
until_slash [] = []
until_slash (c ∷ r) = elim (c == b'/') [ true ↦ [] | false ↦ c ∷ until_slash r ]

or_slash : Bytes → Bytes
or_slash [] = codes "/"
or_slash r = reverse r

unfoldable pub base_name : Bytes → Bytes
unfolding drop_slashes until_slash or_slash
base_name [] = codes "."
base_name (c ∷ s) = or_slash (until_slash (drop_slashes (reverse (c ∷ s))))
