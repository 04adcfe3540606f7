-- ===== src/Util.antt =====
-- pkg/api/util.go: the helpers that the controllers share. `Hash` is a parameter of the modules
-- that use it.
pub mod Subset
use kuberboat.Prelude.{
  ℕ, ℤ, ltb_ℤ, String, Bool, true, false, ◌==◌, string_eq, if◌then◌else◌, GoMap, lookup, Option,
  none, some, [], ◌∷◌,
}

-- `Min64` and `Min`
unfoldable pub min64 : ℤ → ℤ → ℤ
min64 a b = if ltb_ℤ a b then a else b

-- `Max64` and `Max`
unfoldable pub max64 : ℤ → ℤ → ℤ
max64 a b = if ltb_ℤ b a then a else b

-- `!ok || outerV != v` fails
unfoldable pub matches : Option String → String → Bool
matches none v = false
matches (some w) v = w == v

unfoldable pub is_subset : GoMap String String → GoMap String String → Bool
unfolding matches lookup
is_subset [] outer = true
is_subset ((k, v) ∷ inner) outer =
    if matches (lookup k outer) v then is_subset inner outer else false
