-- ===== src/Client/Total.antt =====
-- The loop in which the client (client/exe/client.go) reads an answer comes to an end.
use ade_ctld.Common.{
  Bool, Bool-cases, Option, [], arith, drop, false, inl, inr, length, length-drop, ltb, none, not,
  refl, some, suc, true, zero, ℕ, ◌++◌, ◌<◌, ◌==◌, ◌∷◌, ◌≡◌,
}
use ade_ctld.Text.{Bytes, codes, str_eq, trim_space}
use ade_ctld.Parser.Input.{Ending}
use ade_ctld.Client.Receive.{
  Attrs, Received, add_attr, is_blank_line_before_body_header, is_end_of_response, no_blank,
  of_received, read_error, read_response, read_string, receive, receive_line, received,
}
use ade_ctld.Server.Outcomes.{by_test}

-- Less is left behind a line.
data Shorter (s : Bytes) : Option (Bytes × Bytes) → Type 0 where
  no_line : Shorter s none
  a_line : {line rest : Bytes} → length rest < length s → Shorter s (some (line, rest))

Shorter-cons :
    (c : ℕ) (s : Bytes) (o : Option (Bytes × Bytes))
    → Shorter s o
    → Shorter (c ∷ s) (elim o [ none ↦ none | some (line, rest) ↦ some (c ∷ line, rest) ])
Shorter-cons c s none no_line = no_line
Shorter-cons c s (some (line, rest)) (a_line less) = a_line (omega arith)

read_string-Shorter : (s : Bytes) → Shorter s (read_string s)
unfolding read_string
read_string-Shorter [] = no_line
read_string-Shorter (c ∷ s) = elim (Bool-cases (c == b'\n')) [
  | inl e ↦ rw (e, read_string) (a_line (omega arith))
  | inr e ↦ rw (e, read_string) (Shorter-cons c s (read_string s) (read_string-Shorter s))
]

abbrev pub Returns : {A : Type 0} → Option A → Type 0
Returns {A} o = (r : A) × (o ≡ some r)

module _ {A : Type 0} (blank header : Bytes → A → A) where
  receive_line-Returns :
      (continue : Bool → A → Bytes → Bytes → Option (Received A)) (seen : Bool) (attrs : A)
      (body line rest : Bytes)
      → ((seen' : Bool) (attrs' : A) (body' : Bytes) → Returns (continue seen' attrs' body' rest))
      → Returns (receive_line blank header continue seen attrs body line rest)
  unfolding receive_line
  receive_line-Returns continue seen attrs body line rest h =
      by_test Returns (str_eq (trim_space line) (codes "body:")) _ _ (λ e. h true attrs body)
        (by_test Returns (str_eq line (codes "\n")) _ _
          (λ e.
            by_test Returns (is_end_of_response rest) _ _ (λ e. (_, refl))
              (by_test Returns (is_blank_line_before_body_header rest) _ _
                (λ e. h seen (blank line attrs) body)
                (by_test Returns (not seen) _ _ (λ e. h seen (blank line attrs) body)
                  (h seen attrs (body ++ line)))))
          (by_test Returns (not seen) _ _ (λ e. h seen (header line attrs) body)
            (h seen attrs (body ++ line))))

  round-Returns :
      (continue : Bool → A → Bytes → Bytes → Option (Received A)) (seen : Bool) (attrs : A)
      (body input : Bytes) (last : Received A) (o : Option (Bytes × Bytes))
      → Shorter input o
      → ((seen' : Bool) (attrs' : A) (body' rest : Bytes)
          → length rest < length input
          → Returns (continue seen' attrs' body' rest))
      → Returns (elim o [
        | none ↦ some last
        | some (line, rest) ↦ receive_line blank header continue seen attrs body line rest
      ])
  round-Returns continue seen attrs body input last none no_line h = (last, refl)
  round-Returns continue seen attrs body input last (some (line, rest)) (a_line less) h =
      receive_line-Returns continue seen attrs body line rest
        (λ seen' attrs' body'. h seen' attrs' body' rest less)

  -- One round for each byte, and one more, are enough.
  pub receive-Returns :
      (f : ℕ) (ending : Ending) (seen : Bool) (attrs : A) (body input : Bytes)
      → length input < f
      → Returns (receive blank header f ending seen attrs body input)
  unfolding receive
  receive-Returns zero ending seen attrs body input h = absurd (omega arith)
  receive-Returns (suc f) ending seen attrs body input h =
      round-Returns (receive blank header f ending) seen attrs body input _ (read_string input)
        (read_string-Shorter input)
        (λ seen' attrs' body' rest less.
          receive-Returns f ending seen' attrs' body' rest (omega arith))

of_received-Returns : (o : Option (Received Attrs)) → Returns o → Returns (of_received o)
unfolding of_received
of_received-Returns (some (received attrs body rest)) r = (_, refl)
of_received-Returns (some (read_error attrs body why)) r = (_, refl)
of_received-Returns none (r, e) = absurd (cc e)

-- `readResponse` returns, whatever arrives and however the stream ends.
pub read_response-Returns : (input : Bytes) (ending : Ending) → Returns (read_response input ending)
unfolding read_response
read_response-Returns input ending =
    by_test Returns (ltb (length input) 5) _ _ (λ e. (_, refl))
      (of_received-Returns _ (
        receive-Returns no_blank add_attr (suc (length input)) ending false [] [] (drop 5 input)
          (omega (arith, length-drop 5 input))))
