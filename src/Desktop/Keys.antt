-- ===== src/Desktop/Keys.antt =====
-- The keys of a .desktop file that `ParseDesktopFile` (internal/indexer/desktop/desktop.go) knows.
use mathlib.Core.List.{reverse-append, reverse-cons, reverse-reverse}
use ade_ctld.Text.{bytes_eq}
use ade_ctld.Common.{
  Bool, Bool-cases, [], ap, append_assoc, arith, drop, false, inl, inr, insert, length,
  length-append, refl, reverse, subst, sym, take, true, ◌&&◌, ◌++◌, ◌-◌, ◌∙◌, ◌∷◌, ◌≡◌, ◌≢◌,
}
use ade_ctld.Text.{
  Bytes, Unicode, codes, has_prefix, has_suffix, split, str_eq, str_eq_iff, to_lower,
}
use ade_ctld.Desktop.{DesktopEntry, clean_categories, set_key}

-- the key of a name for a locale
abbrev pub name_key : Bytes → Bytes
name_key locale = codes "Name[" ++ (locale ++ codes "]")

pub has_prefix-append : (s p : Bytes) → has_prefix s p ≡ true → s ≡ p ++ drop (length p) s
unfolding has_prefix
has_prefix-append s [] h = refl
has_prefix-append [] (c ∷ p) h = absurd (cc h)
has_prefix-append (d ∷ s) (c ∷ p) h = ground (arith, has_prefix-append s p)

take-length-append : (s t : Bytes) → take (length s) (s ++ t) ≡ s
take-length-append [] [] = refl
take-length-append [] (c ∷ t) = refl
take-length-append (c ∷ s) t = ap (◌∷◌ c) (take-length-append s t)

-- What stands behind `Name[` ends in a bracket, if the key does.
bracket-closed :
    (r : Bytes)
    → has_suffix (codes "Name[" ++ r) (codes "]") ≡ true
    → (locale : Bytes) × (r ≡ locale ++ codes "]")
unfolding has_suffix
bracket-closed r h =
    by_end (reverse r) refl
      (subst (λ s. has_prefix s (codes "]") ≡ true) (reverse-append (codes "Name[") r) h)
  where
    by_end :
        (q : Bytes)
        → reverse r ≡ q
        → has_prefix (reverse r ++ reverse (codes "Name[")) (codes "]") ≡ true
        → (locale : Bytes) × (r ≡ locale ++ codes "]")
    by_end [] e k = absurd (cc (rw e at k))
    by_end (c ∷ q) e k =
        let last : c ≡ b']' = ground (arith, (rw e at k)) in
        (
          reverse q,
          sym (reverse-reverse r)
              ∙ ap reverse e
              ∙ reverse-cons c q
              ∙ ap (λ d. reverse q ++ d ∷ []) last,
        )

name_key-closed : (locale : Bytes) → has_suffix (name_key locale) (codes "]") ≡ true
unfolding has_suffix
name_key-closed locale =
    subst (λ s. has_prefix s (codes "]") ≡ true)
      (sym (
        ap reverse (sym (append_assoc (codes "Name[") locale (codes "]")))
        ∙ reverse-append (codes "Name[" ++ locale) (codes "]")))
      refl

abbrev is_localized : Bytes → Bool
is_localized key = has_prefix key (codes "Name[") && has_suffix key (codes "]")

-- what is cut out of a key
abbrev pub cut_locale : Bytes → Bytes
cut_locale key = take (length key - 1 - 5) (drop 5 key)

pub cut_locale-name_key : (locale : Bytes) → cut_locale (name_key locale) ≡ locale
cut_locale-name_key locale =
    ap (λ n. take n (locale ++ codes "]")) (omega (arith, length-append {0} locale (codes "]")))
    ∙ take-length-append locale (codes "]")

localized-name_key : (key : Bytes) → is_localized key ≡ true → key ≡ name_key (cut_locale key)
localized-name_key key h =
    let e = has_prefix-append key (codes "Name[") (ground arith) in
    let (locale, closed) =
      bracket-closed (drop 5 key) (subst (λ k. has_suffix k (codes "]") ≡ true) e (ground arith)) in
    let same : key ≡ name_key locale = e ∙ ap (λ r. codes "Name[" ++ r) closed in
    same ∙ ap name_key (sym (ap cut_locale same ∙ cut_locale-name_key locale))

name_key-localized : (locale : Bytes) → is_localized (name_key locale) ≡ true
unfolding has_prefix
name_key-localized locale = name_key-closed locale

-- What a key with its value makes of an entry, by the key.
pub data Sets (u : Unicode) (key value : Bytes) (e : DesktopEntry) : DesktopEntry → Type 0 where
  sets_name : key ≡ codes "Name" → Sets u key value e (record e { name = value })
  sets_exec : key ≡ codes "Exec" → Sets u key value e (record e { exec = value })
  sets_terminal :
      key ≡ codes "Terminal"
      → Sets u key value e (record e { terminal = str_eq (to_lower u value) (codes "true") })
  sets_categories :
      key ≡ codes "Categories"
      → Sets u key value e (record e { categories = clean_categories (split b';' value) })
  sets_localized :
      (locale : Bytes)
      → key ≡ name_key locale
      → Sets u key value e (record e { names = insert locale value e.names })
  sets_nothing :
      key ≢ codes "Name"
      → key ≢ codes "Exec"
      → key ≢ codes "Terminal"
      → key ≢ codes "Categories"
      → ((locale : Bytes) → key ≢ name_key locale)
      → Sets u key value e e

differs : (s t : Bytes) → str_eq s t ≡ false → s ≢ t
differs s t h e = cc ((str_eq_iff s t).1 e, h)

pub set_key-Sets :
    (u : Unicode) (key value : Bytes) (e : DesktopEntry)
    → Sets u key value e (set_key u key value e)
unfolding set_key
set_key-Sets u key value e = elim (Bool-cases (str_eq key (codes "Name"))) [
  | inl h ↦ rw h (sets_name ((str_eq_iff key (codes "Name")).0 h))
  | inr no_name ↦ rw no_name (elim (Bool-cases (str_eq key (codes "Exec"))) [
    | inl h ↦ rw h (sets_exec ((str_eq_iff key (codes "Exec")).0 h))
    | inr no_exec ↦ rw no_exec (elim (Bool-cases (str_eq key (codes "Terminal"))) [
      | inl h ↦ rw h (sets_terminal ((str_eq_iff key (codes "Terminal")).0 h))
      | inr no_terminal ↦ rw no_terminal (elim (Bool-cases (str_eq key (codes "Categories"))) [
        | inl h ↦ rw h (sets_categories ((str_eq_iff key (codes "Categories")).0 h))
        | inr no_categories ↦ rw no_categories (elim (Bool-cases (is_localized key)) [
          | inl h ↦ rw h (sets_localized (cut_locale key) (localized-name_key key h))
          | inr no_locale ↦ rw no_locale (
              sets_nothing (differs key _ no_name) (differs key _ no_exec)
                (differs key _ no_terminal) (differs key _ no_categories)
                (λ locale same. cc (ap is_localized same, name_key-localized locale, no_locale)))
        ])
      ])
    ])
  ])
]
