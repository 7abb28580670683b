-- ===== src/Text/Case.antt =====
-- `strings.ToLower` and `strings.EqualFold`. Both treat ASCII by themselves and fall back on
-- Unicode's tables as soon as another byte turns up: the tables are a parameter.
use ade_ctld.Common.{
  Bool, [], all, false, if◌then◌else◌, leb, map, true, ℕ, ◌&&◌, ◌+◌, ◌==◌, ◌||◌, ◌∷◌,
}
use ade_ctld.Text.Base.{Bytes}

-- What the two functions do with a text that is not ASCII.
pub record Unicode : Type 0 where
  pub lower : Bytes → Bytes
  pub same_fold : Bytes → Bytes → Bool

is_upper : ℕ → Bool
is_upper c = leb b'A' c && leb c b'Z'

lower_byte : ℕ → ℕ
unfolding is_upper
lower_byte c = if is_upper c then c + 32 else c

unfoldable pub to_lower : Unicode → Bytes → Bytes
unfolding lower_byte
to_lower u s = if all (λ c. leb c 127) s then map lower_byte s else u.lower s

-- Two ASCII bytes that are equal, or an upper-case letter and its lower-case one.
fold_byte : ℕ → ℕ → Bool
unfolding is_upper
fold_byte a b = a == b || is_upper a && b == a + 32 || is_upper b && a == b + 32

unfoldable pub equal_fold : Unicode → Bytes → Bytes → Bool
unfolding fold_byte
equal_fold u [] [] = true
equal_fold u (a ∷ s) (b ∷ t) =
    if leb 128 a || leb 128 b
    then u.same_fold (a ∷ s) (b ∷ t)
    else fold_byte a b && equal_fold u s t
equal_fold u _ _ = false
