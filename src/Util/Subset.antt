-- ===== src/Util/Subset.antt =====
-- `IsSubset` decides inclusion of one set of labels in another.
use kuberboat.Prelude.{
  String, ◌≡◌, ◌↔◌, true, arith, ==_iff, string_eq, GoMap, lookup, Option, none, some, [], ◌∷◌, All,
}
use kuberboat.Util.{is_subset, matches}

-- Every entry of the inner map is in the outer one.
abbrev pub IsSubset : GoMap String String → GoMap String String → Type 0
IsSubset inner outer = All (λ kv. lookup kv.0 outer ≡ some kv.1) inner

matches_iff : (o : Option String) (v : String) → (matches o v ≡ true) ↔ (o ≡ some v)
unfolding matches
matches_iff none v = ground arith
matches_iff (some w) v = ground (arith, ==_iff w v)

-- `IsSubset` answers yes exactly when each entry of the first map stands in the second with the
-- same value.
pub is_subset_iff :
    (inner outer : GoMap String String) → (is_subset inner outer ≡ true) ↔ IsSubset inner outer
unfolding is_subset
is_subset_iff [] outer = ground arith
is_subset_iff ((k, v) ∷ inner) outer =
    ground (arith, matches_iff (lookup k outer) v, is_subset_iff inner outer)
