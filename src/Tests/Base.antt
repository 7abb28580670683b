-- ===== src/Tests/Base.antt =====
-- A database in memory, a system in which every program starts, and a server with three entries.
use mathlib.Core.List.{Permᴰ}
use mathlib.Core.List.Permᴰ
use ade_ctld.Text.{bytes_eq}
use ade_ctld.Common.{
  List, [], ap, false, if◌then◌else◌, inl, inr, insert, lookup, lookup-insert, none, pos, refl,
  some, subst, true, ◌++◌, ◌∷◌, ◌≡◌, ◌⊎◌,
}
use ade_ctld.Text.{Bytes, Unicode, codes, str_eq}
use ade_ctld.RunIndex.{Bolt, stored_count}
use ade_ctld.RunIndex.Laws.{IsRunIndex, run_count}
use ade_ctld.Index.{Entry, Index, add, new_index}
use ade_ctld.Index.Laws.{IsIndex, add-IsIndex, new_index-IsIndex}
use ade_ctld.Config.{Config}
use ade_ctld.Server.State.{Host, Server, no_filters, process}
use ade_ctld.Server.Listing.Filtered.{IsFair}
use ade_ctld.Server.Dispatch.Step.{IsServer}

abbrev from_left : {A B : Type 0} → A → A ⊎ B → A
from_left a (inl x) = x
from_left a (inr y) = a

-- a bucket as an association list, to which every update succeeds
abbrev pub memory : Bolt
memory = record {
  Db = List (Bytes × Bytes);
  has_bucket = λ db. true;
  get = λ db k. lookup k db;
  put = λ db k v. inl (insert k v db);
  has_bucket-put = λ db db' k v h. refl;
  get-put = λ db db' k j v h.
      subst (λ d. lookup j d ≡ (if str_eq k j then some v else lookup j db)) (ap (from_left db) h)
        (lookup-insert k j v db);
}

-- no letters but those of ASCII
abbrev pub ascii : Unicode
ascii = record { lower = λ s. s; same_fold = λ s t. str_eq s t }

abbrev pub settings : Config
settings = record {
  static = record {
    path = codes "/bin:/usr/bin";
    terminal = codes "xterm";
    unix_socket = codes "/tmp/ade";
    workers = pos 0;
    list_limit = pos 2;
  };
  additional_paths = [];
}

-- Programs start as process 42, and the index is gone through as it stands.
abbrev pub machine : Host
machine = record {
  order = λ l. l;
  start = λ argv. process 42;
  term = [];
  home = none;
  absolute = λ p. some p;
  hidden = λ p. false;
  scan = λ paths. [];
}

abbrev swap_front : List Entry → List Entry
swap_front [] = []
swap_front (a ∷ []) = a ∷ []
swap_front (a ∷ b ∷ l) = b ∷ a ∷ l

-- another order of the runtime
abbrev pub other_machine : Host
other_machine = record machine { order = swap_front }

pub machine-IsFair : IsFair machine
machine-IsFair = record { order_perm = λ l. Permᴰ.refl l }

swap_front-perm : (l : List Entry) → Permᴰ (swap_front l) l
swap_front-perm [] = Permᴰ.nil
swap_front-perm (a ∷ []) = Permᴰ.refl (a ∷ [])
swap_front-perm (a ∷ b ∷ l) = Permᴰ.swap refl refl

pub other_machine-IsFair : IsFair other_machine
other_machine-IsFair = record { order_perm = swap_front-perm }

abbrev program : Bytes → Entry
program name = record {
  id = 0;
  name = name;
  names = [];
  path = codes "/bin/" ++ name;
  exec = codes "/bin/" ++ name;
  terminal = false;
  categories = codes "Tool" ∷ [];
  is_desktop = false;
}

abbrev pub vi : Entry
vi = program (codes "vi")

abbrev pub two_programs : Index
two_programs = (add (program (codes "ed")) (add (program (codes "sh")) new_index).0).0

pub two_programs-IsIndex : IsIndex two_programs
two_programs-IsIndex = add-IsIndex _ (add-IsIndex _ new_index-IsIndex)

abbrev pub programs : Index
programs = (add vi two_programs).0

pub programs-IsIndex : IsIndex programs
programs-IsIndex = add-IsIndex vi two_programs-IsIndex

pub no_runs-IsRunIndex : IsRunIndex memory []
unfolding run_count lookup stored_count
no_runs-IsRunIndex = record { bucket = refl; counts = λ path. refl }

abbrev pub daemon : Server memory.Db
daemon = record { index = programs; run_index = []; filters = no_filters; lang = codes "en" }

pub daemon-IsServer : IsServer memory daemon
daemon-IsServer = record { entries = programs-IsIndex; runs = no_runs-IsRunIndex }
