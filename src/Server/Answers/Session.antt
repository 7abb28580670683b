-- ===== src/Server/Answers/Session.antt =====
-- A whole connection of server/server.go, and the client (client/exe/client.go) that reads its
-- answers.
use ade_ctld.Common.{
  All, List, [], ap, append-nil, append_assoc, arith, length, refl, some, subst, suc, sym, ℕ, ◌++◌,
  ◌<◌, ◌∙◌, ◌∷◌, ◌≡◌,
}
use ade_ctld.Text.{Bytes, Unicode, codes}
use ade_ctld.Parser.{Command, Value}
use ade_ctld.Parser.Input.{Ending, IsOneLine, at_end, split_lines}
use ade_ctld.Parser.Laws.{read_line-IsKnown}
use ade_ctld.RunIndex.{Bolt}
use ade_ctld.Config.{Config}
use ade_ctld.Client.Send.{Argument, proto_ver}
use ade_ctld.Client.Receive.{Attrs, read_response}
use ade_ctld.Client.Receive
use ade_ctld.Wire.Frame.{frame_body}
use ade_ctld.Wire.Answers.{attrs_of, read_response-frame}
use ade_ctld.Wire.Lines.{
  Means, means_and, means_boolean, means_f, means_not, means_or, means_other, means_plain,
  means_quoted, means_signed, means_t, means_unsigned,
}
use ade_ctld.Wire.Request.{MeansAll, none_left, one_more}
use ade_ctld.Wire.Session.{MeansRequests, Request, all_read, next_request, requests}
use ade_ctld.Server.State.{Host, Outcome, Server, done, panic}
use ade_ctld.Server.Listing.Filtered.{IsFair}
use ade_ctld.Server.Dispatch.{Served, closed, crashed, execute_command, handle_connection, running}
use ade_ctld.Server.Dispatch.Step.{IsServer, Keeps, execute_command-Keeps, returns}
use ade_ctld.Server.Dispatch.Requests.{and_then, handle_connection-requests, run_commands}
use ade_ctld.Server.Answers.Texts.{IsFrame, IsOneLine-append}
use ade_ctld.Server.Answers.Commands.{
  Framed, IsClean, IsCleanCommand, IsCleanHost, execute_command-Framed, framed,
}
use ade_ctld.Server.Answers.Clean.{StaysClean, execute_command-StaysClean, stays_clean}

-- `n` calls of `readResponse` in a row succeed, and what they leave of the first bytes are the
-- last.
pub data ReadsAnswers (ending : Ending) : ℕ → Bytes → Bytes → Type 0 where
  reads_none : {input : Bytes} → ReadsAnswers ending 0 input input
  reads_one_more :
      {n : ℕ} {attrs : Attrs} {text input more rest : Bytes}
      → read_response input ending ≡ some (Receive.response attrs text more)
      → ReadsAnswers ending n more rest
      → ReadsAnswers ending (suc n) input rest

-- `n` answers, one behind the other
pub data AreFrames : ℕ → Bytes → Type 0 where
  no_frames : AreFrames 0 []
  next_frame :
      {n : ℕ} {bytes more : Bytes}
      → IsFrame bytes
      → AreFrames n more
      → AreFrames (suc n) (bytes ++ more)

pub AreFrames-append :
    {n : ℕ} {bytes response : Bytes}
    → AreFrames n bytes
    → IsFrame response
    → AreFrames (suc n) (bytes ++ response)
AreFrames-append {response} no_frames f =
    subst (AreFrames 1) (append-nil response) (next_frame f no_frames)
AreFrames-append {response} (next_frame {n} {bytes} {more} g fs) f =
    subst (AreFrames (suc (suc n))) (sym (append_assoc bytes more response))
      (next_frame g (AreFrames-append fs f))

pub AreFrames-ReadsAnswers :
    {n : ℕ} {bytes : Bytes} (rest : Bytes) (ending : Ending)
    → AreFrames n bytes
    → ReadsAnswers ending n (bytes ++ rest) rest
AreFrames-ReadsAnswers rest ending no_frames = reads_none
AreFrames-ReadsAnswers rest ending (next_frame {n} {bytes} {more} f fs) =
    subst (λ input. ReadsAnswers ending (suc n) input rest) (sym (append_assoc bytes more rest))
      (reads_one_more {attrs = attrs_of f.headers} {text = frame_body f.texts}
        (ap (λ b. read_response (b ++ (more ++ rest)) ending) f.same
          ∙ read_response-frame f.headers f.texts (more ++ rest) ending f.marked f.body_marked)
        (AreFrames-ReadsAnswers rest ending fs))

-- what a client sends holds no line feeds but the ends of its lines
Means-IsOneLine : {a : Argument} {v : Value} → Means a v → IsOneLine v.str
Means-IsOneLine (means_signed fits) = tt
Means-IsOneLine (means_unsigned fits) = tt
Means-IsOneLine means_boolean = tt
Means-IsOneLine (means_plain a p) = a.one_line
Means-IsOneLine (means_quoted a) = a.one_line
Means-IsOneLine means_t = tt
Means-IsOneLine means_f = tt
Means-IsOneLine means_or = omega arith
Means-IsOneLine means_and = omega arith
Means-IsOneLine means_not = omega arith
Means-IsOneLine (means_other {s} one) = IsOneLine-append s (codes "\"") one (omega arith)

MeansAll-IsOneLine :
    {as' : List Argument} {vs : List Value}
    → MeansAll as' vs
    → All (λ (v : Value). IsOneLine v.str) vs
MeansAll-IsOneLine none_left = tt
MeansAll-IsOneLine (one_more m ms) = (Means-IsOneLine m, MeansAll-IsOneLine ms)

MeansRequests-IsCleanCommand :
    {qs : List Request} {cmds : List Command} → MeansRequests qs cmds → All IsCleanCommand cmds
MeansRequests-IsCleanCommand all_read = tt
MeansRequests-IsCleanCommand (next_request {q} known ms m) = (
  record { clean_command = (read_line-IsKnown q.name known).0; clean_args = MeansAll-IsOneLine ms },
  MeansRequests-IsCleanCommand m,
)

-- hosts that are fair and clean for every command
pub record AreGood (hosts : ℕ → Host) : Type 0 where
  pub all_fair : (n : ℕ) → IsFair (hosts n)
  pub all_clean : (n : ℕ) → IsCleanHost (hosts n)

module _ (bolt : Bolt) (u : Unicode) (cfg : Config) where
  -- The connection has come to its end with a well-formed and clean server and `n` answers behind
  -- `out`, or the process has died.
  data ServedWell (n : ℕ) (out : Bytes) : Served bolt.Db → Type 0 where
    ends_well :
        {t : Server bolt.Db} {answers : Bytes}
        → IsServer bolt t
        → IsClean t
        → AreFrames n answers
        → ServedWell n out (closed t (out ++ answers))
    dies : ServedWell n out crashed

  ServedWell-one_more :
      {n : ℕ} (out response : Bytes) {r : Served bolt.Db}
      → IsFrame response
      → ServedWell n (out ++ response) r
      → ServedWell (suc n) out r
  ServedWell-one_more {n} out response f (ends_well {t} {answers} v clean fs) =
      subst (λ b. ServedWell (suc n) out (closed t b)) (sym (append_assoc out response answers))
        (ends_well v clean (next_frame f fs))
  ServedWell-one_more out response f dies = dies

  and_then-ServedWell :
      (n : ℕ) (out : Bytes) (cmd : Command) (next : Server bolt.Db → Bytes → Served bolt.Db)
      (o : Outcome bolt.Db)
      → Keeps bolt cmd o
      → Framed o
      → StaysClean o
      → ((t : Server bolt.Db) (more : Bytes)
          → IsServer bolt t
          → IsClean t
          → ServedWell n more (next t more))
      → ServedWell (suc n) out (and_then bolt u cfg o next out)
  and_then-ServedWell n out cmd next (done t response) (returns v) (framed f) (stays_clean c) h =
      ServedWell-one_more out response f (h t (out ++ response) v c)
  and_then-ServedWell n out cmd next panic k f c h = dies

  run_commands-ServedWell :
      (hosts : ℕ → Host) (cmds : List Command) (s : Server bolt.Db) (out : Bytes)
      → AreGood hosts
      → All IsCleanCommand cmds
      → IsServer bolt s
      → IsClean s
      → ServedWell (length cmds) out (run_commands bolt u cfg hosts cmds s out)
  unfolding run_commands
  run_commands-ServedWell hosts [] s out good h v clean =
      subst (λ b. ServedWell 0 out (closed s b)) (append-nil out) (ends_well v clean no_frames)
  run_commands-ServedWell hosts (cmd ∷ cmds) s out good (hc, hs) v clean =
      let fair = good.all_fair 0 in
      and_then-ServedWell (length cmds) out cmd (run_commands bolt u cfg (λ n. hosts (suc n)) cmds)
        (execute_command bolt u cfg (hosts 0) s cmd)
        (execute_command-Keeps bolt u cfg (hosts 0) s v cmd fair)
        (execute_command-Framed bolt u cfg (hosts 0) s cmd v clean fair (good.all_clean 0) hc)
        (execute_command-StaysClean bolt u cfg (hosts 0) s cmd v clean fair (good.all_clean 0) hc)
        (λ t more w c.
          run_commands-ServedWell (λ n. hosts (suc n)) cmds t more
            (record {
              all_fair = λ n. good.all_fair (suc n);
              all_clean = λ n. good.all_clean (suc n);
            })
            hs w c)

  -- The client can read `n` answers from the connection, and then nothing is left; or the process
  -- has died.
  abbrev pub AnswersAll : ℕ → Served bolt.Db → Type 0
  AnswersAll n (closed t out) =
      IsServer bolt t
      × IsClean t
      × ((rest : Bytes) (ending : Ending) → ReadsAnswers ending n (out ++ rest) rest)
  AnswersAll n crashed = Unit
  AnswersAll n running = ⊥

  ServedWell-AnswersAll : {n : ℕ} {r : Served bolt.Db} → ServedWell n [] r → AnswersAll n r
  ServedWell-AnswersAll (ends_well v clean fs) =
      (v, clean, λ rest ending. AreFrames-ReadsAnswers rest ending fs)
  ServedWell-AnswersAll dies = tt

  length-MeansRequests :
      {qs : List Request} {cmds : List Command} → MeansRequests qs cmds → length cmds ≡ length qs
  length-MeansRequests all_read = refl
  length-MeansRequests (next_request known ms m) = ap suc (length-MeansRequests m)

  -- A client sends known commands with any arguments that have a meaning, and ends its stream. The
  -- connection comes to its end within one round for each line and one more, the server is then
  -- well-formed and clean if it was, and the client can read exactly one answer for each command,
  -- whatever follows on its side; or a handler has panicked. The system around the server is fair
  -- and reports no line feeds.
  pub handle_connection-answers :
      (fuel : ℕ) (hosts : ℕ → Host) (qs : List Request) (cmds : List Command) (s : Server bolt.Db)
      → MeansRequests qs cmds
      → length (split_lines (requests qs)) < fuel
      → AreGood hosts
      → IsServer bolt s
      → IsClean s
      → AnswersAll
          (length qs)
          (handle_connection bolt u cfg fuel hosts (proto_ver ++ requests qs) at_end s)
  handle_connection-answers fuel hosts qs cmds s m enough good v clean =
      subst (AnswersAll (length qs))
        (sym (handle_connection-requests bolt u cfg fuel hosts qs cmds s m enough))
        (subst (λ n. AnswersAll n (run_commands bolt u cfg hosts cmds s []))
          (length-MeansRequests m)
          (ServedWell-AnswersAll (
            run_commands-ServedWell hosts cmds s [] good (MeansRequests-IsCleanCommand m) v clean)))
