-- ===== src/Server/Answers/Interleaved.antt =====
-- Several connections at once (server/server.go): `Start` runs `handleConnection` for each of them
-- in a goroutine, and all of them work on one server. A handler is one step.
use ade_ctld.Common.{
  ==_iff, All, Bool-cases, List, [], ap, arith, if◌then◌else◌, inl, inr, length, subst, suc, ℕ,
  ◌++◌, ◌+◌, ◌==◌, ◌∷◌, ◌≡◌,
}
use ade_ctld.Text.{Bytes, Unicode}
use ade_ctld.Parser.{Command}
use ade_ctld.Index.{Index, values}
use ade_ctld.Parser.Input.{Ending}
use ade_ctld.Indexer.Overlap.{Indexes, clears, fills}
use ade_ctld.Indexer.Overlap.Commands.{Indexes-IsIndex}
use ade_ctld.RunIndex.{Bolt}
use ade_ctld.Config.{Config}
use ade_ctld.Server.State.{Host, Server, done}
use ade_ctld.Server.Listing.Filtered.{IsFair}
use ade_ctld.Server.Listing.Lines.{HasCleanNames}
use ade_ctld.Server.Dispatch.{execute_command}
use ade_ctld.Server.Dispatch.Step.{IsServer, Keeps, execute_command-Keeps, returns}
use ade_ctld.Server.Answers.Texts.{IsFrame}
use ade_ctld.Server.Answers.Commands.{
  Framed, IsClean, IsCleanCommand, IsCleanHost, execute_command-Framed, framed,
}
use ade_ctld.Server.Answers.Clean.{
  HasCleanEntries, StaysClean, add-HasCleanEntries, execute_command-StaysClean, stays_clean,
}
use ade_ctld.Server.Answers.Session.{
  AreFrames, AreFrames-ReadsAnswers, AreFrames-append, AreGood, ReadsAnswers, no_frames,
}

-- what a connection has still to execute, and what has been written to it
pub record Connection : Type 0 where
  pub todo : List Command
  pub out : Bytes

-- the server and its connections, by their numbers
pub record Shared (Db : Type 0) : Type 0 where
  pub server : Server Db
  pub connections : ℕ → Connection

abbrev pub set_connection : ℕ → Connection → (ℕ → Connection) → ℕ → Connection
set_connection i c connections j = if i == j then c else connections j

-- connections that have sent their commands and not been answered
abbrev pub accepted : (ℕ → List Command) → ℕ → Connection
accepted cmds i = record { todo = cmds i; out = [] }

-- The names of an entry that is added hold no line feeds.
abbrev pub AddsClean : {idx changed : Index} → Indexes idx changed → Type 0
AddsClean clears = Unit
AddsClean (fills e) = HasCleanNames e

Indexes-HasCleanEntries :
    {idx changed : Index} (x : Indexes idx changed)
    → AddsClean x
    → HasCleanEntries idx
    → HasCleanEntries changed
unfolding values
Indexes-HasCleanEntries clears h v = tt
Indexes-HasCleanEntries {idx} (fills e) h v = add-HasCleanEntries e idx h v

module _ (bolt : Bolt) (u : Unicode) where
  -- Connection `i` executes its next command, whatever the others are doing.
  pub data Executes (cfg : Config) (host : Host) : Shared bolt.Db → Shared bolt.Db → Type 0 where
    executes :
        {w : Shared bolt.Db} (i : ℕ) {cmd : Command} {rest : List Command} {t : Server bolt.Db}
        {response : Bytes}
        → (w.connections i).todo ≡ cmd ∷ rest
        → execute_command bolt u cfg host w.server cmd ≡ done t response
        → Executes cfg host w (record {
          server = t;
          connections =
              set_connection i
                (record { todo = rest; out = (w.connections i).out ++ response })
                w.connections;
        })

  -- Commands of any connections, one after the other, and what indexing runs do to the index in
  -- between; the settings, which the watcher of indexd.rc may change, and the hosts are those of the
  -- commands to come.
  pub data Executions : (ℕ → Config) → (ℕ → Host) → Shared bolt.Db → Shared bolt.Db → Type 0 where
    no_more :
        {cfgs : ℕ → Config} {hosts : ℕ → Host} {w : Shared bolt.Db} → Executions cfgs hosts w w
    one_more_execution :
        {cfgs : ℕ → Config} {hosts : ℕ → Host} {w v t : Shared bolt.Db}
        → Executes (cfgs 0) (hosts 0) w v
        → Executions (λ n. cfgs (suc n)) (λ n. hosts (suc n)) v t
        → Executions cfgs hosts w t
    index_changes :
        {cfgs : ℕ → Config} {hosts : ℕ → Host} {w t : Shared bolt.Db} {idx : Index}
        → Indexes w.server.index idx
        → Executions cfgs hosts (record w { server = record w.server { index = idx } }) t
        → Executions cfgs hosts w t

  -- all entries that are added meanwhile
  abbrev pub AllAddClean :
      {cfgs : ℕ → Config} {hosts : ℕ → Host} {w t : Shared bolt.Db}
      → Executions cfgs hosts w t
      → Type 0
  AllAddClean no_more = Unit
  AllAddClean (one_more_execution x xs) = AllAddClean xs
  AllAddClean (index_changes x xs) = AddsClean x × AllAddClean xs

  -- Connection `c` has had an answer to each of its `n` commands that it has executed.
  pub record IsAnswered (n : ℕ) (c : Connection) : Type 0 where
    pub answered : ℕ
    pub frames : AreFrames answered c.out
    pub counted : answered + length c.todo ≡ n
    pub clean_todo : All IsCleanCommand c.todo

  pub record IsShared (sent : ℕ → List Command) (w : Shared bolt.Db) : Type 0 where
    pub well_formed : IsServer bolt w.server
    pub clean : IsClean w.server
    pub all_answered : (i : ℕ) → IsAnswered (length (sent i)) (w.connections i)

  returned-IsServer :
      {cmd : Command} {t : Server bolt.Db} {response : Bytes}
      → Keeps bolt cmd (done t response)
      → IsServer bolt t
  returned-IsServer (returns v) = v

  returned-IsFrame :
      {t : Server bolt.Db} {response : Bytes} → Framed (done t response) → IsFrame response
  returned-IsFrame (framed f) = f

  returned-IsClean :
      {t : Server bolt.Db} {response : Bytes} → StaysClean (done t response) → IsClean t
  returned-IsClean (stays_clean c) = c

  IsAnswered-step :
      (n : ℕ) (c : Connection) (cmd : Command) (rest : List Command) (response : Bytes)
      → c.todo ≡ cmd ∷ rest
      → IsFrame response
      → IsAnswered n c
      → IsAnswered n (record { todo = rest; out = c.out ++ response })
  IsAnswered-step n c cmd rest response e f a = record {
    answered = suc a.answered;
    frames = AreFrames-append a.frames f;
    counted = omega (arith, a.counted, ap length e);
    clean_todo = (subst (All IsCleanCommand) e a.clean_todo).1;
  }

  Executes-IsShared :
      (sent : ℕ → List Command) (cfg : Config) {host : Host} {w v : Shared bolt.Db}
      → Executes cfg host w v
      → IsFair host
      → IsCleanHost host
      → IsShared sent w
      → IsShared sent v
  Executes-IsShared sent cfg {host} (executes {w} i {cmd} {rest} {t} {response} e done_) fair
        clean_host s =
      let mine = s.all_answered i in
      let clean_cmd = (subst (All IsCleanCommand) e mine.clean_todo).0 in
      let v = s.well_formed in
      let f = returned-IsFrame (
        subst Framed done_ (
          execute_command-Framed bolt u cfg host w.server cmd v s.clean fair clean_host
            clean_cmd)) in
      record {
        well_formed = returned-IsServer (
            subst (Keeps bolt cmd) done_
              (execute_command-Keeps bolt u cfg host w.server v cmd fair));
        clean = returned-IsClean (
            subst StaysClean done_ (
              execute_command-StaysClean bolt u cfg host w.server cmd v s.clean fair clean_host
                clean_cmd));
        all_answered = λ j. elim (Bool-cases (i == j)) [
          | inl same ↦ rw same (
              subst
                (λ k.
                  IsAnswered (length (sent k))
                    (record { todo = rest; out = (w.connections i).out ++ response }))
                ((==_iff i j).0 same)
                (IsAnswered-step (length (sent i)) (w.connections i) cmd rest response e f mine))
          | inr other ↦ rw other (s.all_answered j)
        ];
      }

  Executions-IsShared :
      (sent : ℕ → List Command) {cfgs : ℕ → Config} {hosts : ℕ → Host} {w v : Shared bolt.Db}
      (xs : Executions cfgs hosts w v)
      → AllAddClean xs
      → AreGood hosts
      → IsShared sent w
      → IsShared sent v
  Executions-IsShared sent no_more adds good s = s
  Executions-IsShared sent (one_more_execution x xs) adds good s =
      Executions-IsShared sent xs adds
        (record { all_fair = λ n. good.all_fair (suc n); all_clean = λ n. good.all_clean (suc n) })
        (Executes-IsShared sent _ x (good.all_fair 0) (good.all_clean 0) s)
  Executions-IsShared sent (index_changes x xs) (first, adds) good s =
      Executions-IsShared sent xs adds good (record {
        well_formed = record {
          entries = Indexes-IsIndex x s.well_formed.entries;
          runs = s.well_formed.runs;
        };
        clean = record {
          clean_lang = s.clean.clean_lang;
          clean_entries = Indexes-HasCleanEntries x first s.clean.clean_entries;
        };
        all_answered = s.all_answered;
      })

  -- However the commands of any number of connections interleave, with one another and with what
  -- indexing runs do to the index between two commands: the server stays well-formed and
  -- clean of line feeds, and on each connection the client can read, one after the other, as many
  -- answers as it has sent commands, but for those that are still to be executed. (A handler that
  -- panics ends the process.) The commands hold no line feeds; the system around the server is fair
  -- and reports none.
  pub Executions-answers :
      (sent : ℕ → List Command) (cfgs : ℕ → Config) (hosts : ℕ → Host) (s : Server bolt.Db)
      {w : Shared bolt.Db}
      (xs : Executions cfgs hosts (record { server = s; connections = accepted sent }) w)
      → AllAddClean xs
      → AreGood hosts
      → IsServer bolt s
      → IsClean s
      → ((i : ℕ) → All IsCleanCommand (sent i))
      → IsServer bolt w.server
        × IsClean w.server
        × ((i : ℕ) (rest : Bytes) (ending : Ending)
            → (n : ℕ) × (n + length (w.connections i).todo ≡ length (sent i))
              × ReadsAnswers ending n ((w.connections i).out ++ rest) rest)
  Executions-answers sent cfgs hosts s xs adds good v clean cs =
      let shared = Executions-IsShared sent xs adds good (record {
        well_formed = v;
        clean = clean;
        all_answered = λ i. record {
          answered = 0;
          frames = no_frames;
          counted = omega arith;
          clean_todo = cs i;
        };
      }) in
      (
        shared.well_formed,
        shared.clean,
        λ i rest ending.
            let a = shared.all_answered i in
            (a.answered, a.counted, AreFrames-ReadsAnswers rest ending a.frames),
      )
