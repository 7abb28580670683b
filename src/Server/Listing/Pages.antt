-- ===== src/Server/Listing/Pages.antt =====
-- The pages of `list-next`: what they hold, and when the handler panics.
use native.Mathlib.Decide.{dec_lt}
use ade_ctld.Common.{
  Bool-cases, List, [], ap, arith, drop, false, if◌then◌else◌, inl, inr, int64_limit, leb, length,
  length-drop, ltb, ltb→lt, min, negsuc, none, pos, some, suc, take, true, uint64_modulus, zero, ℕ,
  ◌%◌, ◌&&◌, ◌++◌, ◌+◌, ◌-◌, ◌<◌, ◌↔◌, ◌∷◌, ◌≡◌, ◌≤◌,
}
use ade_ctld.Text.{Bytes, codes}
use ade_ctld.Strconv.{format_uint}
use ade_ctld.Index.{Entry}
use ade_ctld.Server.State.{write_error}
use ade_ctld.Server.Listing.{
  list_next_attr, list_next_page, list_response, number_attr, page_end, slice,
}
use ade_ctld.Server.Listing.{next_page, next_attr}

pub page_end_small :
    (offset limit full_len : ℕ)
    → offset + limit < int64_limit
    → page_end offset limit full_len ≡ pos (min (offset + limit) full_len)
unfolding page_end
page_end_small offset limit full_len h = ground arith

page_end_large :
    (offset limit full_len : ℕ)
    → offset < int64_limit
    → limit < int64_limit
    → int64_limit ≤ offset + limit
    → (n : ℕ) × (page_end offset limit full_len ≡ negsuc n)
unfolding page_end
page_end_large offset limit full_len ho hl h =
    (uint64_modulus - (offset + limit) % uint64_modulus - 1, ground arith)

module _ {ℓ} {A : Type ℓ} where
  take-min : (n : ℕ) (xs : List A) → take (min n (length xs)) xs ≡ take n xs
  take-min zero xs = let e : min 0 (length xs) ≡ 0 = omega arith in rw e
  take-min (suc n) [] = let e : min (suc n) 0 ≡ 0 = omega arith in rw e
  take-min (suc n) (x ∷ xs) =
      let e : min (suc n) (suc (length xs)) ≡ suc (min n (length xs)) = omega arith in
      rw e (ap (◌∷◌ x) (take-min n xs))

  -- the part of a list that a page shows
  pub slice_page :
      (offset limit : ℕ) (xs : List A)
      → offset < length xs
      → slice xs offset (pos (min (offset + limit) (length xs)))
        ≡ some (take limit (drop offset xs))
  unfolding slice
  slice_page offset limit xs h =
      let fits : (leb offset (min (offset + limit) (length xs))
            && leb (min (offset + limit) (length xs)) (length xs))
          ≡ true =
        ground arith in
      let size : min (offset + limit) (length xs) - offset ≡ min limit (length (drop offset xs)) =
        omega (arith, length-drop offset xs) in
      rw (fits, size) (ap some (take-min limit (drop offset xs)))

-- the page that is asked for, as the answer gives it
abbrev pub page_attrs : ℕ → ℕ → ℕ → Bytes
page_attrs offset limit full_len =
    number_attr (codes "len") full_len
    ++ (number_attr (codes "limited") limit
        ++ (number_attr (codes "offset") offset
            ++ (if ltb (offset + limit) full_len
                then list_next_attr (offset + limit) limit
                else [])))

next_attr_page :
    (offset limit full_len : ℕ)
    → offset < full_len
    → next_attr (pos (min (offset + limit) full_len)) limit full_len
      ≡ (if ltb (offset + limit) full_len then list_next_attr (offset + limit) limit else [])
unfolding next_attr
next_attr_page offset limit full_len h = elim (Bool-cases (ltb (offset + limit) full_len)) [
  | inl more ↦
      let lt = ltb→lt (offset + limit) full_len more in
      let e : min (offset + limit) full_len ≡ offset + limit = omega arith in rw (e, more)
  | inr last ↦
      let e : min (offset + limit) full_len ≡ full_len = ground arith in
      let stop : ltb full_len full_len ≡ false = ground arith in rw (e, last, stop)
]

-- A page inside the entries, where the sum of offset and size is an `int`: it shows the entries
-- from the offset on, as many as the size allows, and announces the next page exactly if there are
-- entries behind it. Its attribute `limited` is the size, also on a last page that shows fewer
-- entries.
pub list_next_page_lem :
    (lang : Bytes) (offset limit : ℕ) (filtered : List Entry)
    → offset < length filtered
    → offset + limit < int64_limit
    → list_next_page lang offset limit filtered
      ≡ some (
          list_response
            (page_attrs offset limit (length filtered))
            lang
            (take limit (drop offset filtered)))
unfolding list_next_page next_page
list_next_page_lem lang offset limit filtered inside small =
    let inside' : leb (length filtered) offset ≡ false = ground arith in
    rw (inside', page_end_small offset limit (length filtered) small)
      (rw (
        slice_page offset limit filtered inside,
        next_attr_page offset limit (length filtered) inside,
      ))

-- An offset behind the last entry is an error, which names the two numbers.
pub list_next_page_outside :
    (lang : Bytes) (offset limit : ℕ) (filtered : List Entry)
    → length filtered ≤ offset
    → list_next_page lang offset limit filtered
      ≡ some (
          write_error (codes "list-next") (codes "offset out of bounds") (
            codes "offset "
            ++ (format_uint offset
                ++ (codes " exceeds total entries " ++ format_uint (length filtered)))))
unfolding list_next_page
list_next_page_outside lang offset limit filtered h =
    let outside : leb (length filtered) offset ≡ true = ground arith in rw outside

list_next_page_overflow :
    (lang : Bytes) (offset limit : ℕ) (filtered : List Entry)
    → offset < int64_limit
    → limit < int64_limit
    → offset < length filtered
    → int64_limit ≤ offset + limit
    → list_next_page lang offset limit filtered ≡ none
unfolding list_next_page next_page slice
list_next_page_overflow lang offset limit filtered ho hl inside h =
    let inside' : leb (length filtered) offset ≡ false = ground arith in
    let (n, e) = page_end_large offset limit (length filtered) ho hl h in rw (inside', e)

-- The handler panics exactly at an offset inside the entries with a size whose sum with the offset
-- is no `int`.
pub list_next_page-panic :
    (lang : Bytes) (offset limit : ℕ) (filtered : List Entry)
    → offset < int64_limit
    → limit < int64_limit
    → (list_next_page lang offset limit filtered ≡ none)
      ↔ ((offset < length filtered) × (int64_limit ≤ offset + limit))
list_next_page-panic lang offset limit filtered ho hl = (
  (λ h. elim (dec_lt offset (length filtered)) [
    | no out ↦ absurd (cc (h, list_next_page_outside lang offset limit filtered (omega arith)))
    | yes inside ↦ elim (dec_lt (offset + limit) int64_limit) [
      | yes small ↦ absurd (cc (h, list_next_page_lem lang offset limit filtered inside small))
      | no large ↦ (inside, omega arith)
    ]
  ]),
  λ h. list_next_page_overflow lang offset limit filtered ho hl h.0 h.1,
)
