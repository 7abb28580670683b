-- ===== src/Index.antt =====
-- internal/indexer/types.go: the entries, by their identifiers. Identifiers are counted up from 1,
-- and 2^63 entries do not fit into a memory, so `nextID` is a number that does not wrap around.
pub mod Laws
use ade_ctld.Common.{nat_eq}
use ade_ctld.Common.{
  Bool, List, Option, [], insert, length, lookup, negsuc, none, pos, ℕ, ℤ, ◌+◌, ◌∷◌,
}
use ade_ctld.Text.{Bytes}

pub record Entry : Type 0 where
  pub id : ℕ
  pub name : Bytes
  pub names : List (Bytes × Bytes)
  pub path : Bytes
  pub exec : Bytes
  pub terminal : Bool
  pub categories : List Bytes
  pub is_desktop : Bool

pub record Index : Type 0 where
  pub entries : List (ℕ × Entry)
  pub next_id : ℕ

-- `NewIndex`
abbrev pub new_index : Index
new_index = record { entries = []; next_id = 1 }

-- `Add`: the entry gets the next identifier, which is returned.
unfoldable pub add : Entry → Index → Index × ℕ
add entry idx =
    let id = idx.next_id in
    (record { entries = insert id (record entry { id = id }) idx.entries; next_id = id + 1 }, id)

-- `Get`, at an `int64` that the client chooses
unfoldable pub get : ℤ → Index → Option Entry
get (pos id) idx = lookup id idx.entries
get (negsuc n) idx = none

unfoldable pub values {ℓ κ} : {K : Type ℓ} {V : Type κ} → List (K × V) → List V
values [] = []
values ((k, v) ∷ m) = v ∷ values m

-- `GetAll`: the loop over the map meets the entries in an order that the runtime chooses.
unfoldable pub get_all : (List Entry → List Entry) → Index → List Entry
unfolding values
get_all order idx = order (values idx.entries)

-- `Count`
unfoldable pub count : Index → ℕ
count idx = length idx.entries
