-- ===== src/Desktop/Setters.antt =====
-- Which field of an entry each key of a .desktop file sets (internal/indexer/desktop/desktop.go).
use ade_ctld.Text.{bytes_eq}
use ade_ctld.Common.{
  Bool-cases, ap, if◌then◌else◌, inl, inr, lookup, lookup-insert, refl, some, sym, ◌∙◌, ◌≡◌,
}
use ade_ctld.Text.{Bytes, Unicode, codes, not-str_eq, split, str_eq, str_eq_iff, to_lower}
use ade_ctld.Desktop.{DesktopEntry, clean_categories, set_key}
use ade_ctld.Desktop.Keys.{
  Sets, cut_locale, cut_locale-name_key, name_key, set_key-Sets, sets_categories, sets_exec,
  sets_localized, sets_name, sets_nothing, sets_terminal,
}
use ade_ctld.Desktop.Settings.{SetsField}

name_key-injective : (s t : Bytes) → str_eq (name_key s) (name_key t) ≡ str_eq s t
name_key-injective s t = elim (Bool-cases (str_eq s t)) [
  | inl same ↦
      rw same ((str_eq_iff (name_key s) (name_key t)).1 (ap name_key ((str_eq_iff s t).0 same)))
  | inr other ↦ rw other (
      not-str_eq _ _ (λ e. cc (
        (str_eq_iff s t).1 (sym (cut_locale-name_key s) ∙ ap cut_locale e ∙ cut_locale-name_key t),
        other,
      )))
]

module _ (u : Unicode) where
  pub name-SetsField : SetsField u (λ e. e.name) (λ v. v) (codes "Name")
  unfolding str_eq
  name-SetsField k v e = by_key (set_key u k v e) (set_key-Sets u k v e)
    where
      by_key :
          (d : DesktopEntry)
          → Sets u k v e d
          → d.name ≡ (if str_eq k (codes "Name") then v else e.name)
      by_key d (sets_name h) = rw h refl
      by_key d (sets_exec h) = rw h refl
      by_key d (sets_terminal h) = rw h refl
      by_key d (sets_categories h) = rw h refl
      by_key d (sets_localized locale h) = rw h refl
      by_key d (sets_nothing n x t c l) = rw (not-str_eq k (codes "Name") n) refl

  pub exec-SetsField : SetsField u (λ e. e.exec) (λ v. v) (codes "Exec")
  unfolding str_eq
  exec-SetsField k v e = by_key (set_key u k v e) (set_key-Sets u k v e)
    where
      by_key :
          (d : DesktopEntry)
          → Sets u k v e d
          → d.exec ≡ (if str_eq k (codes "Exec") then v else e.exec)
      by_key d (sets_name h) = rw h refl
      by_key d (sets_exec h) = rw h refl
      by_key d (sets_terminal h) = rw h refl
      by_key d (sets_categories h) = rw h refl
      by_key d (sets_localized locale h) = rw h refl
      by_key d (sets_nothing n x t c l) = rw (not-str_eq k (codes "Exec") x) refl

  pub terminal-SetsField :
      SetsField u (λ e. e.terminal) (λ v. str_eq (to_lower u v) (codes "true")) (codes "Terminal")
  unfolding str_eq
  terminal-SetsField k v e = by_key (set_key u k v e) (set_key-Sets u k v e)
    where
      by_key :
          (d : DesktopEntry)
          → Sets u k v e d
          → d.terminal ≡ (
              if str_eq k (codes "Terminal")
              then str_eq (to_lower u v) (codes "true")
              else e.terminal)
      by_key d (sets_name h) = rw h refl
      by_key d (sets_exec h) = rw h refl
      by_key d (sets_terminal h) = rw h refl
      by_key d (sets_categories h) = rw h refl
      by_key d (sets_localized locale h) = rw h refl
      by_key d (sets_nothing n x t c l) = rw (not-str_eq k (codes "Terminal") t) refl

  pub categories-SetsField :
      SetsField u (λ e. e.categories) (λ v. clean_categories (split b';' v)) (codes "Categories")
  unfolding str_eq
  categories-SetsField k v e = by_key (set_key u k v e) (set_key-Sets u k v e)
    where
      by_key :
          (d : DesktopEntry)
          → Sets u k v e d
          → d.categories ≡ (
              if str_eq k (codes "Categories")
              then clean_categories (split b';' v)
              else e.categories)
      by_key d (sets_name h) = rw h refl
      by_key d (sets_exec h) = rw h refl
      by_key d (sets_terminal h) = rw h refl
      by_key d (sets_categories h) = rw h refl
      by_key d (sets_localized locale h) = rw h refl
      by_key d (sets_nothing n x t c l) = rw (not-str_eq k (codes "Categories") c) refl

  pub names-SetsField :
      (locale : Bytes) → SetsField u (λ e. lookup locale e.names) some (name_key locale)
  unfolding str_eq
  names-SetsField locale k v e = by_key (set_key u k v e) (set_key-Sets u k v e)
    where
      by_key :
          (d : DesktopEntry)
          → Sets u k v e d
          → lookup locale d.names
            ≡ (if str_eq k (name_key locale) then some v else lookup locale e.names)
      by_key d (sets_name h) = rw h refl
      by_key d (sets_exec h) = rw h refl
      by_key d (sets_terminal h) = rw h refl
      by_key d (sets_categories h) = rw h refl
      by_key d (sets_localized l h) =
          lookup-insert l locale v e.names
          ∙ ap (λ b. if b then some v else lookup locale e.names)
              (sym (name_key-injective l locale) ∙ ap (λ s. str_eq s (name_key locale)) (sym h))
      by_key d (sets_nothing n x t c l) = rw (not-str_eq k (name_key locale) (l locale)) refl
