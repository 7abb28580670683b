-- ===== src/Server/Answers/Texts.antt =====
-- The texts of the answers, line by line.
use ade_ctld.Common.{
  All, All-append, List, Option, [], append_assoc, arith, none, pos, refl, ℕ, ℤ, ◌++◌, ◌∙◌, ◌∷◌,
  ◌≡◌, ◌≢◌,
}
use ade_ctld.Text.{Bytes, codes}
use ade_ctld.Strconv.{format_int, format_uint}
use ade_ctld.Strconv.RoundTrip.{format_int-IsNumeric}
use ade_ctld.Parser.Input.{IsOneLine}
use ade_ctld.Wire.Lines.{IsOneLine-IsNumeric}
use ade_ctld.Wire.Frame.{AreMarked, IsMarked, frame}
use ade_ctld.Server.State.{success, write_error, write_response}
use ade_ctld.Server.Launch.{run_response}

-- The bytes are those of one answer that the client can take apart.
pub record IsFrame (bytes : Bytes) : Type 0 where
  pub headers : List Bytes
  pub texts : Option (List Bytes)
  pub marked : All IsMarked headers
  pub body_marked : AreMarked texts
  pub same : bytes ≡ write_response (frame headers texts)

pub format_uint-IsOneLine : (n : ℕ) → IsOneLine (format_uint n)
format_uint-IsOneLine n = unfold format_int in IsOneLine-IsNumeric _ (format_int-IsNumeric (pos n))

format_int-IsOneLine : (i : ℤ) → IsOneLine (format_int i)
format_int-IsOneLine i = IsOneLine-IsNumeric _ (format_int-IsNumeric i)

pub IsOneLine-append : (s t : Bytes) → IsOneLine s → IsOneLine t → IsOneLine (s ++ t)
IsOneLine-append s t = All-append (λ c. c ≢ b'\n') s t

-- A label and a text behind it.
pub labelled : (label text : Bytes) → IsMarked label → IsOneLine text → IsMarked (label ++ text)
labelled [] text m h = elim m [ ]
labelled (c ∷ label) text (ink, ne, one) h = (ink, ne, IsOneLine-append label text one h)

abbrev without_body : List Bytes → Bytes
without_body ls = write_response (frame ls none)

pub plain-IsFrame : (ls : List Bytes) → All IsMarked ls → IsFrame (without_body ls)
plain-IsFrame ls ms = record {
  headers = ls;
  texts = none;
  marked = ms;
  body_marked = tt;
  same = refl;
}

pub IsFrame-same : {s t : Bytes} → IsFrame t → s ≡ t → IsFrame s
IsFrame-same f e = record {
  headers = f.headers;
  texts = f.texts;
  marked = f.marked;
  body_marked = f.body_marked;
  same = e ∙ f.same;
}

pub write_error-IsFrame :
    (cmd err_type desc : Bytes)
    → IsOneLine cmd
    → IsOneLine err_type
    → IsOneLine desc
    → IsFrame (write_error cmd err_type desc)
unfolding write_error
write_error-IsFrame cmd err_type desc hc ht hd =
    IsFrame-same
      (plain-IsFrame
        ((codes "error-cmd: " ++ cmd)
          ∷ (codes "error: " ++ err_type)
          ∷ (codes "desc: " ++ desc)
          ∷ [])
        (
          labelled (codes "error-cmd: ") cmd (omega arith) hc,
          (
            labelled (codes "error: ") err_type (omega arith) ht,
            (labelled (codes "desc: ") desc (omega arith) hd, tt),
          ),
        ))
      (simp append_assoc)

pub success-IsFrame : (name : Bytes) → IsOneLine name → IsFrame (success name)
success-IsFrame name h =
    IsFrame-same
      (plain-IsFrame ((codes "cmd: " ++ name) ∷ codes "status: 0" ∷ [])
        (labelled (codes "cmd: ") name (omega arith) h, (omega arith, tt)))
      (simp append_assoc)

pub run_response-IsFrame : (id : ℤ) (pid : ℕ) → IsFrame (run_response id pid)
unfolding run_response
run_response-IsFrame id pid =
    IsFrame-same
      (plain-IsFrame
        (codes "cmd: run"
          ∷ (codes "idx: " ++ format_int id)
          ∷ codes "status: 0"
          ∷ (codes "pid: " ++ format_uint pid)
          ∷ [])
        (
          omega arith,
          (
            labelled (codes "idx: ") (format_int id) (omega arith) (format_int-IsOneLine id),
            (
              omega arith,
              (
                labelled (codes "pid: ") (format_uint pid) (omega arith)
                    (format_uint-IsOneLine pid),
                tt,
              ),
            ),
          ),
        ))
      (simp append_assoc)

-- the answers of `lang` and `reindex`: the command, the status, and one attribute
pub attribute-IsFrame :
    (cmd label text : Bytes)
    → IsMarked cmd
    → IsMarked label
    → IsOneLine text
    → IsFrame
        (write_response ((cmd ++ codes "\nstatus: 0\n") ++ (label ++ (text ++ codes "\n\n\n"))))
attribute-IsFrame cmd label text mc ml ht =
    IsFrame-same
      (plain-IsFrame (cmd ∷ codes "status: 0" ∷ (label ++ text) ∷ [])
        (mc, (omega arith, (labelled label text ml ht, tt))))
      (simp append_assoc)
