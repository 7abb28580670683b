-- ===== src/Parser/Progress.antt =====
-- How far a call of `ParseCommand` reads.
use ade_ctld.Common.{
  List, Option, [], arith, inl, inr, length, refl, some, suc, zero, ℕ, ◌++◌, ◌+◌, ◌<◌, ◌∷◌, ◌≡◌,
  ◌⊎◌,
}
use ade_ctld.Text.{Bytes, trim_space}
use ade_ctld.Parser.{
  Command, Line, Parsed, Parser, Value, command, eof, found, parse_error, parse_lines, parse_next,
  push, read_all_commands, read_commands, read_line, read_round, refuse, skip,
}
use ade_ctld.Parser.Input.{Ending, Reader, at_end, broken, failures}

-- what is left to read: the lines, and the errors behind them
abbrev pub left : Reader → ℕ
left d = length d.lines + failures d.ending

-- What a call may return and how much it leaves, by the reader before it.
pub data Progress (d : Reader) : Parsed × Reader → Type 0 where
  reads_command :
      {rest : List Bytes} {cmd : Command}
      → length rest < length d.lines
      → Progress d (command cmd, record { lines = rest; ending = d.ending })
  reads_error : {e : Reader} {why : Bytes} → left e < left d → Progress d (parse_error why, e)
  reads_end : {e : Reader} → Progress d (eof, e)

Progress-cons :
    {lines : List Bytes} {ending : Ending} {r : Parsed × Reader} (line : Bytes)
    → Progress (record { lines = lines; ending = ending }) r
    → Progress (record { lines = line ∷ lines; ending = ending }) r
Progress-cons line (reads_command h) = reads_command (omega arith)
Progress-cons line (reads_error h) = reads_error (omega arith)
Progress-cons line reads_end = reads_end

-- a line in front of lines that are read as far
line-Progress :
    (stack : List Value) (line : Bytes) (lines : List Bytes) (ending : Ending) (l : Line)
    → ((longer : List Value)
        → Progress (record { lines = lines; ending = ending }) (parse_lines longer lines ending))
    → Progress
        (record { lines = line ∷ lines; ending = ending })
        (elim l [
          | skip ↦ parse_lines stack lines ending
          | found cmd ↦ (
            command (record { name = cmd; args = stack }),
            record { lines = lines; ending = ending },
          )
          | push v ↦ parse_lines (stack ++ v ∷ []) lines ending
          | refuse why ↦ (parse_error why, record { lines = lines; ending = ending })
        ])
line-Progress stack line lines ending skip h = Progress-cons line (h stack)
line-Progress stack line lines ending (found cmd) h = reads_command (omega arith)
line-Progress stack line lines ending (push v) h = Progress-cons line (h (stack ++ v ∷ []))
line-Progress stack line lines ending (refuse why) h = reads_error (omega arith)

pub parse_lines-Progress :
    (stack : List Value) (lines : List Bytes) (ending : Ending)
    → Progress (record { lines = lines; ending = ending }) (parse_lines stack lines ending)
unfolding parse_lines failures
parse_lines-Progress stack [] at_end = reads_end
parse_lines-Progress stack [] (broken why ending) = reads_error (omega arith)
parse_lines-Progress stack (line ∷ lines) ending =
    line-Progress stack line lines ending (read_line (trim_space line))
      (λ longer. parse_lines-Progress longer lines ending)

abbrev pub with_reader : Parser → Reader → Parser
with_reader p reader = record p { reader = reader }

abbrev Returns : Option (List Command ⊎ Bytes) → Type 0
Returns o = (r : List Command ⊎ Bytes) × (o ≡ some r)

read_round-Returns :
    (f : ℕ) (p : Parser) (done : List Command) (r : Parsed × Reader)
    → length p.reader.lines < suc f
    → ((q : Parser) (longer : List Command)
        → length q.reader.lines < f
        → Returns (read_commands f q longer))
    → Progress p.reader r
    → Returns (read_round (read_commands f) done (r.0, with_reader p r.1))
unfolding read_round
read_round-Returns f p done (command cmd, rest) h continue (reads_command less) =
    continue (with_reader p (record { lines = _; ending = p.reader.ending })) (done ++ cmd ∷ [])
      (omega arith)
read_round-Returns f p done (parse_error why, rest) h continue g = (inr why, refl)
read_round-Returns f p done (eof, rest) h continue g = (inl done, refl)

-- a round for each line, and one more, is enough, since each round but the last consumes a line
read_commands-Returns :
    (f : ℕ) (p : Parser) (done : List Command)
    → length p.reader.lines < f
    → Returns (read_commands f p done)
unfolding read_commands parse_next
read_commands-Returns zero p done h = absurd (omega arith)
read_commands-Returns (suc f) p done h =
    read_round-Returns f p done (parse_lines [] p.reader.lines p.reader.ending) h
      (λ q longer less. read_commands-Returns f q longer less)
      (parse_lines-Progress [] p.reader.lines p.reader.ending)

-- `ReadAllCommands` returns on every input, with the commands or with an error.
pub read_all_commands-total :
    (p : Parser) → (r : List Command ⊎ Bytes) × (read_all_commands p ≡ some r)
unfolding read_all_commands
read_all_commands-total p = read_commands-Returns (suc (length p.reader.lines)) p [] (omega arith)
