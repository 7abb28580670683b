-- ===== src/Wire/Answers.antt =====
-- What `readResponse` and `ReadResponse` of client/exe/client.go make of a whole answer.
use ade_ctld.Common.{
  All, List, Option, [], ap, append-nil, arith, false, length, length-append, ltb, none, refl, some,
  suc, sym, ℕ, ◌++◌, ◌∙◌, ◌∷◌, ◌≡◌,
}
use ade_ctld.Text.{Bytes, codes}
use ade_ctld.Parser.Input.{Ending, at_end}
use ade_ctld.Client.Send.{line_of}
use ade_ctld.Client.Receive.{
  Attrs, add_attr, add_line, no_blank, of_received, print_response, printed, read_response,
  response,
}
use ade_ctld.Wire.Frame.{
  AreMarked, IsMarked, Reads-frame, after_headers, frame, frame_attrs, frame_body, lines_of,
  regroup,
}
use ade_ctld.Server.State.{write_response}

unfoldable pub attrs_of : List Bytes → Attrs
attrs_of ls = after_headers no_blank add_attr at_end ls []

long_enough : (n : ℕ) → ltb (suc (suc (suc (suc (suc n))))) 5 ≡ false
long_enough n = ground arith

-- The client reads an answer with the attributes and the body that it was made of, and stops behind
-- its last byte, whatever follows. Each line of the answer has to start with an ASCII mark that is
-- not `b`, and to hold no line feed.
pub read_response-frame :
    (ls : List Bytes) (texts : Option (List Bytes)) (rest : Bytes) (ending : Ending)
    → All IsMarked ls
    → AreMarked texts
    → read_response (write_response (frame ls texts) ++ rest) ending
      ≡ some (response (attrs_of ls) (frame_body texts) rest)
unfolding read_response of_received
read_response-frame ls texts rest ending ms ts =
    let n = length (frame ls texts ++ rest) in
    rw (long_enough n) (
      ap of_received (
        Reads-frame no_blank add_attr ending ls texts [] rest (suc (suc (suc (suc (suc (suc n))))))
          ms ts (omega (arith, length-append (frame ls texts) rest)))
      ∙ by_body texts)
  where
    by_body :
        (b : Option (List Bytes))
        → some (response (frame_attrs no_blank add_attr ending ls b []) (frame_body b) rest)
          ≡ some (response (attrs_of ls) (frame_body b) rest)
    by_body none = unfold attrs_of in refl
    by_body (some ts') = unfold attrs_of in refl

-- what `ReadResponse` prints of an answer: its attributes, and the empty line in front of the body
abbrev pub printed_lines : List Bytes → Option (List Bytes) → Bytes
printed_lines ls none = lines_of ls
printed_lines ls (some texts) = lines_of ls ++ codes "\n"

after_headers-add_line :
    (ls : List Bytes) (ending : Ending) (attrs : Bytes)
    → after_headers add_line add_line ending ls attrs ≡ attrs ++ lines_of ls
unfolding add_line
after_headers-add_line [] ending attrs = sym (append-nil attrs)
after_headers-add_line (l ∷ ls) ending attrs =
    after_headers-add_line ls ending (attrs ++ line_of l) ∙ sym (regroup attrs l (lines_of ls))

-- `ReadResponse` prints the attributes of an answer and nothing of its body.
pub print_response-frame :
    (ls : List Bytes) (texts : Option (List Bytes)) (rest : Bytes) (ending : Ending)
    → All IsMarked ls
    → AreMarked texts
    → print_response (write_response (frame ls texts) ++ rest) ending
      ≡ some (printed_lines ls texts)
unfolding print_response printed
print_response-frame ls texts rest ending ms ts =
    let n = length (frame ls texts ++ rest) in
    rw (long_enough n) (
      ap printed (
        Reads-frame add_line add_line ending ls texts [] rest (suc (suc (suc (suc (suc (suc n))))))
          ms ts (omega (arith, length-append (frame ls texts) rest)))
      ∙ by_body texts)
  where
    by_body :
        (b : Option (List Bytes))
        → some (frame_attrs add_line add_line ending ls b []) ≡ some (printed_lines ls b)
    by_body none = ap some (after_headers-add_line ls ending [])
    by_body (some ts') =
        unfold add_line in ap (λ t. some (t ++ codes "\n")) (after_headers-add_line ls ending [])
