-- ===== src/Server/Listing.antt =====
-- `list` and `list-next`: the entries that pass the filters, in pages.
pub mod Sort
pub mod Order
pub mod Pages
pub mod Attributes
pub mod Lines
pub mod Next
pub mod Filtered
pub mod Response
use ade_ctld.Text.{bytes_eq}
use ade_ctld.Common.{
  List, Option, [], drop, if◌then◌else◌, leb, length, lookup, ltb, map, negsuc, none, not, pos,
  some, take, wrap_int64, ℕ, ℤ, ◌&&◌, ◌++◌, ◌+◌, ◌-◌, ◌==◌, ◌∷◌,
}
use ade_ctld.Text.{Bytes, Unicode, codes, str_eq}
use ade_ctld.Strconv.{format_uint}
use ade_ctld.Parser.{Value, type_int}
use ade_ctld.Index.{Entry, get_all}
use ade_ctld.RunIndex.{Bolt, get_frequencies}
use ade_ctld.Config.{Config, list_limit}
use ade_ctld.Server.State.{Host, Outcome, Server, done, panic, write_error, write_response}
use ade_ctld.Server.Filters.{filter_entries}
use ade_ctld.Server.Listing.Sort.{sort_by_frequency}

-- the name of an entry in the language of the server
unfoldable pub shown_name : Bytes → Entry → Bytes
shown_name lang entry =
    if not (str_eq lang [])
    then (elim (lookup lang entry.names) [ some name ↦ name | none ↦ entry.name ])
    else entry.name

-- the lines of the body: `%d %s\n`
unfoldable pub body : Bytes → List Entry → Bytes
body lang [] = []
body lang (entry ∷ entries) =
    format_uint entry.id ++ (b' ' ∷ (shown_name lang entry ++ (b'\n' ∷ body lang entries)))

-- `<key>: %d\n`
unfoldable pub number_attr : Bytes → ℕ → Bytes
number_attr key n = key ++ (codes ": " ++ (format_uint n ++ b'\n' ∷ []))

-- `list-next: %d %d\n`
unfoldable pub list_next_attr : ℕ → ℕ → Bytes
list_next_attr from limit =
    codes "list-next: " ++ (format_uint from ++ (b' ' ∷ (format_uint limit ++ b'\n' ∷ [])))

unfoldable pub list_response : Bytes → Bytes → List Entry → Bytes
list_response attrs lang shown =
    write_response (attrs ++ (codes "\nbody:\n" ++ (body lang shown ++ codes "\n\n")))

-- `entries[lo:hi]` on an int `hi`; `none` is the panic on bounds that are out of range.
unfoldable pub slice {ℓ} : {A : Type ℓ} → List A → ℕ → ℤ → Option (List A)
slice xs lo (negsuc n) = none
slice xs lo (pos hi) =
    if leb lo hi && leb hi (length xs) then some (take (hi - lo) (drop lo xs)) else none

-- `handleList` behind the sorting
unfoldable pub list_page : Bytes → ℕ → List Entry → Bytes
list_page lang limit filtered =
    if ltb limit (length filtered)
    then list_response
        (number_attr (codes "len") (length filtered)
          ++ (number_attr (codes "limited") limit
              ++ (codes "offset: 0\n" ++ list_next_attr limit limit)))
        lang (take limit filtered)
    else list_response (number_attr (codes "len") (length filtered)) lang filtered

-- the optional second argument of list-next, a positive size
unfoldable pub limit_size : ℕ → List Value → ℕ
limit_size default [] = default
limit_size default (first ∷ []) = default
limit_size default (first ∷ second ∷ args) = elim second.kind [
  | type_int ↦ elim second.int [ pos n ↦ if n == 0 then default else n | negsuc n ↦ default ]
  | _ ↦ default
]

-- The end of a page, `offset + limitSize` in the arithmetic of `int`, cut at the end of the
-- entries.
unfoldable pub page_end : ℕ → ℕ → ℕ → ℤ
page_end offset limit full_len = elim (wrap_int64 (offset + limit)) [
  | pos n ↦ if ltb full_len n then pos full_len else pos n
  | negsuc n ↦ negsuc n
]

next_attr : ℤ → ℕ → ℕ → Bytes
next_attr (pos n) limit full_len = if ltb n full_len then list_next_attr n limit else []
next_attr (negsuc n) limit full_len = []

next_page : Bytes → ℕ → ℕ → ℕ → Option (List Entry) → ℤ → Option Bytes
next_page lang offset limit full_len none end_ = none
next_page lang offset limit full_len (some shown) end_ = some (
    list_response
      (number_attr (codes "len") full_len
        ++ (number_attr (codes "limited") limit
            ++ (number_attr (codes "offset") offset ++ next_attr end_ limit full_len)))
      lang shown)

-- `handleListNext` from the test of the bound on: `none` is a panic.
unfoldable pub list_next_page : Bytes → ℕ → ℕ → List Entry → Option Bytes
unfolding next_page next_attr
list_next_page lang offset limit filtered =
    let full_len = length filtered in
    if leb full_len offset
    then some (
        write_error (codes "list-next") (codes "offset out of bounds") (
          codes "offset "
          ++ (format_uint offset ++ (codes " exceeds total entries " ++ format_uint full_len))))
    else let end_ = page_end offset limit full_len in
      next_page lang offset limit full_len (slice filtered offset end_) end_

module _ (bolt : Bolt) (u : Unicode) (cfg : Config) where
  answer : Server bolt.Db → Option Bytes → Outcome bolt.Db
  answer s none = panic
  answer s (some response) = done s response

  -- the entries that pass the filters, in the order of the runtime
  unfoldable pub filtered_entries : Host → Server bolt.Db → List Entry
  filtered_entries host s = filter_entries u s.filters (get_all host.order s.index)

  sorted_page : Server bolt.Db → List Entry → Option (List (Bytes × ℕ)) → Outcome bolt.Db
  sorted_page s filtered none = panic
  sorted_page s filtered (some frequencies) =
      done s (list_page s.lang (list_limit cfg) (sort_by_frequency frequencies filtered))

  -- `handleList`
  unfoldable pub handle_list : Host → Server bolt.Db → Outcome bolt.Db
  unfolding sorted_page filtered_entries
  handle_list host s =
      let filtered = filtered_entries host s in
      sorted_page s filtered
        (get_frequencies bolt s.run_index (map (λ (e : Entry). e.path) filtered))

  -- `handleListNext` behind the test of the first argument
  list_next_from : Host → Server bolt.Db → List Value → ℤ → Outcome bolt.Db
  unfolding answer filtered_entries
  list_next_from host s args (negsuc n) = done s (
      write_error (codes "list-next") (codes "invalid offset")
        (codes "offset must be non-negative"))
  list_next_from host s args (pos offset) =
      answer s
        (list_next_page s.lang offset (limit_size (list_limit cfg) args) (filtered_entries host s))

  missing_offset : Server bolt.Db → Outcome bolt.Db
  missing_offset s = done s (
      write_error (codes "list-next") (codes "missing offset")
        (codes "list-next command requires an offset parameter"))

  -- `handleListNext`
  unfoldable pub handle_list_next : Host → Server bolt.Db → List Value → Outcome bolt.Db
  unfolding list_next_from missing_offset
  handle_list_next host s [] = missing_offset s
  handle_list_next host s (first ∷ args) = elim first.kind [
    | type_int ↦ list_next_from host s (first ∷ args) first.int
    | _ ↦ missing_offset s
  ]
