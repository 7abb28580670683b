-- ===== src/Server/Listing/Next.antt =====
-- `handleListNext` of server/server.go: when it answers.
use native.Mathlib.Decide.{dec_lt}
use ade_ctld.Index.{Entry}
use ade_ctld.Common.{
  List, Option, [], arith, inl, inr, int64_limit, length, negsuc, none, pos, refl, some, ℕ, ℤ, ◌+◌,
  ◌∷◌, ◌≡◌, ◌≢◌, ◌≤◌, ◌⊎◌,
}
use ade_ctld.Text.{Bytes, Unicode, codes}
use ade_ctld.Parser.{Value}
use ade_ctld.Config.{Config, list_limit}
use ade_ctld.RunIndex.{Bolt}
use ade_ctld.Server.State.{Host, Outcome, Server, done, panic, write_error}
use ade_ctld.Server.Outcomes.{by_int}
use ade_ctld.Server.Listing.{filtered_entries, handle_list_next, limit_size, list_next_page}
use ade_ctld.Server.Listing.{answer, list_next_from, missing_offset}
use ade_ctld.Server.Listing.Pages.{list_next_page_lem, list_next_page_outside}

module _ (bolt : Bolt) (u : Unicode) (cfg : Config) (host : Host) (s : Server bolt.Db) where
  -- the page that `list-next` asks for
  abbrev pub asked_page : List Value → ℕ → Option Bytes
  asked_page args offset =
      list_next_page s.lang offset (limit_size (list_limit cfg) args)
        (filtered_entries bolt u cfg host s)

  module _ (P : Outcome bolt.Db → Type 0) where
    -- what has to be shown for each of the outcomes
    abbrev pub IfPage : List Value → Type 0
    IfPage args =
        ((offset : ℕ) (response : Bytes)
          → asked_page args offset ≡ some response
          → P (done s response))
        × ((offset : ℕ) → asked_page args offset ≡ none → P panic)

    abbrev pub IfNoPage : Type 0
    IfNoPage =
        P (
          done s (
            write_error (codes "list-next") (codes "missing offset")
              (codes "list-next command requires an offset parameter")))
        × P (
            done s (
              write_error (codes "list-next") (codes "invalid offset")
                (codes "offset must be non-negative")))

    answer_cases :
        (args : List Value) (offset : ℕ) (o : Option Bytes)
        → IfPage args
        → asked_page args offset ≡ o
        → P (answer bolt u cfg s o)
    unfolding answer
    answer_cases args offset none h e = h.1 offset e
    answer_cases args offset (some response) h e = h.0 offset response e

    list_next_from_cases :
        (args : List Value) (offset : ℤ)
        → IfNoPage
        → IfPage args
        → P (list_next_from bolt u cfg host s args offset)
    unfolding list_next_from
    list_next_from_cases args (negsuc n) bad page = bad.1
    list_next_from_cases args (pos offset) bad page =
        answer_cases args offset (asked_page args offset) page refl

    pub handle_list_next_cases :
        (args : List Value) → IfNoPage → IfPage args → P (handle_list_next bolt u cfg host s args)
    unfolding handle_list_next missing_offset
    handle_list_next_cases [] bad page = bad.0
    handle_list_next_cases (first ∷ args) bad page =
        by_int P first.kind _ _ (list_next_from_cases (first ∷ args) first.int bad page) bad.0

  -- the command answers and changes nothing
  abbrev pub Answers : Outcome bolt.Db → Type 0
  Answers o = (response : Bytes) × (o ≡ done s response)

  -- `list-next` either answers and leaves the state as it is, or panics.
  pub handle_list_next-Answers :
      (args : List Value)
      → Answers (handle_list_next bolt u cfg host s args)
        ⊎ (handle_list_next bolt u cfg host s args ≡ panic)
  handle_list_next-Answers args =
      handle_list_next_cases (λ o. Answers o ⊎ (o ≡ panic)) args (inl (_, refl), inl (_, refl))
        ((λ offset response e. inl (response, refl)), λ offset e. inr refl)

  page-Answers :
      (offset limit : ℕ) (filtered : List Entry)
      → length filtered + limit ≤ int64_limit
      → list_next_page s.lang offset limit filtered ≢ none
  page-Answers offset limit filtered fits h = elim (dec_lt offset (length filtered)) [
    | yes inside ↦
        absurd (cc (h, list_next_page_lem s.lang offset limit filtered inside (omega arith)))
    | no outside ↦
        absurd (cc (h, list_next_page_outside s.lang offset limit filtered (omega arith)))
  ]

  -- With a size that leaves room for the entries below 2^63, `list-next` does not panic: whatever
  -- its arguments are, it answers and leaves the state as it is.
  pub handle_list_next_lem :
      (args : List Value)
      → length (filtered_entries bolt u cfg host s) + limit_size (list_limit cfg) args ≤ int64_limit
      → Answers (handle_list_next bolt u cfg host s args)
  handle_list_next_lem args fits =
      handle_list_next_cases Answers args ((_, refl), (_, refl))
        (
          (λ offset response e. (response, refl)),
          λ offset e. absurd (page-Answers offset _ _ fits e),
        )
