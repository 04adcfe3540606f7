-- ===== src/Recovery/Lookup.antt =====
-- What a new API server holds under one name: what etcd has under the key of that name.
use kuberboat.Prelude.{
  String, ◌≡◌, refl, sym, ap, subst, ◌∙◌, ◌⊎◌, inl, inr, false, Bool-cases, Option-cases, Option,
  none, some, ◌==◌, ==_iff, string_eq, GoMap, lookup, contains, contains-lookup, insert,
  lookup-insert, lookup-insert_self, ==_refl, ◌++◌, IsMap, All, List, [], ◌∷◌, arith,
}
use kuberboat.World.{Key, Value, key_eq}
use kuberboat.Recovery.{Decoder, stored}
use kuberboat.Recovery.Pods.{by_name}

abbrev pub head_of : {A : Type 0} → List A → Option A
head_of [] = none
head_of (x ∷ xs) = some x

-- The value of the key, as its type.
abbrev pub as_found : {A : Type 0} → Decoder A → Key → Option Value → Option A
as_found f k none = none
as_found f k (some v) = head_of (f (k, v))

abbrev pub value_at : {A : Type 0} → Decoder A → Key → GoMap Key Value → Option A
value_at f k m = as_found f k (lookup k m)

abbrev pub or_else : {A : Type 0} → Option A → Option A → Option A
or_else none b = b
or_else (some a) b = some a

lookup_head : (k : Key) (v : Value) (m : GoMap Key Value) → lookup k ((k, v) ∷ m) ≡ some v
unfolding lookup
lookup_head k v m = ground (arith, ==_refl k)

lookup_tail :
    (k j : Key) (v : Value) (m : GoMap Key Value)
    → (k == j) ≡ false
    → lookup j ((k, v) ∷ m) ≡ lookup j m
unfolding lookup
lookup_tail k j v m e = ground (arith, e)

module _ {A : Type 0} (f : Decoder A) (mk : String → Key) (name : A → String) where
  -- The entry is of another type, or stands under the name of its value.
  abbrev pub Fits : Key × Value → Type 0
  Fits kv = (f kv ≡ []) ⊎ ((x : A) × (f kv ≡ x ∷ []) × (kv.0 ≡ mk (name x)))

  value_at-absent : (k : Key) (m : GoMap Key Value) → contains k m ≡ false → value_at f k m ≡ none
  value_at-absent k m absent = elim (Option-cases (lookup k m)) [
    | inl missing ↦ ap (as_found f k) missing
    | inr (v, found) ↦ ground (arith, found, absent, contains-lookup k m)
  ]

  value_at-hit :
      (k j : Key) (v : Value) (m : GoMap Key Value)
      → k ≡ j
      → value_at f j ((k, v) ∷ m) ≡ head_of (f (k, v))
  value_at-hit k j v m e =
      subst (λ i. value_at f i ((k, v) ∷ m) ≡ head_of (f (k, v))) e
        (ap (as_found f k) (lookup_head k v m))

  value_at-miss :
      (k j : Key) (v : Value) (m : GoMap Key Value)
      → (k == j) ≡ false
      → value_at f j ((k, v) ∷ m) ≡ value_at f j m
  value_at-miss k j v m e = ap (as_found f j) (lookup_tail k j v m e)

  module _ (injective : (a b : String) → mk a ≡ mk b → a ≡ b) where
    -- One entry more, where `rest` is what the other entries make of the map.
    step :
        (k : Key) (v : Value) (m : GoMap Key Value) (n : String) (acc : GoMap String A)
        (rest : GoMap String A → Option A)
        → contains k m ≡ false
        → ((map : GoMap String A) → rest map ≡ or_else (value_at f (mk n) m) (lookup n map))
        → Fits (k, v)
        → ((f (k, v) ≡ []) × (rest acc ≡ or_else (value_at f (mk n) ((k, v) ∷ m)) (lookup n acc)))
          ⊎ ((x : A) × (f (k, v) ≡ x ∷ [])
              × (rest (insert (name x) x acc)
                  ≡ or_else (value_at f (mk n) ((k, v) ∷ m)) (lookup n acc)))
    step k v m n acc rest absent ih (inl e) = inl (
      e,
      elim (Bool-cases (k == mk n)) [
        | inl hit ↦
            let same = (==_iff k (mk n)).0 hit in
            ih acc
            ∙ ap (λ o. or_else o (lookup n acc))
                (value_at-absent (mk n) m (subst (λ j. contains j m ≡ false) same absent)
                  ∙ sym (value_at-hit k (mk n) v m same ∙ ap head_of e))
        | inr miss ↦
            ih acc ∙ ap (λ o. or_else o (lookup n acc)) (sym (value_at-miss k (mk n) v m miss))
      ],
    )
    step k v m n acc rest absent ih (inr (x, e, q)) = inr (
      x,
      e,
      elim (Bool-cases (k == mk n)) [
        | inl hit ↦
            let same = (==_iff k (mk n)).0 hit in
            let named = injective (name x) n (sym q ∙ same) in
            ih (insert (name x) x acc)
            ∙ ap (λ o. or_else o (lookup n (insert (name x) x acc)))
                (value_at-absent (mk n) m (subst (λ j. contains j m ≡ false) same absent))
            ∙ ap (λ j. lookup n (insert j x acc)) named
            ∙ lookup-insert_self n x acc
            ∙ ap (λ o. or_else o (lookup n acc))
                (sym (value_at-hit k (mk n) v m same ∙ ap head_of e))
        | inr miss ↦
            ih (insert (name x) x acc)
            ∙ ap (or_else (value_at f (mk n) m)) (other x q miss)
            ∙ ap (λ o. or_else o (lookup n acc)) (sym (value_at-miss k (mk n) v m miss))
      ],
    )
      where
        other :
            (y : A)
            → k ≡ mk (name y)
            → (k == mk n) ≡ false
            → lookup n (insert (name y) y acc) ≡ lookup n acc
        other y r miss = elim (Bool-cases (name y == n)) [
          | inl hit ↦ ground (arith, miss, ==_iff k (mk n), r ∙ ap mk ((==_iff (name y) n).0 hit))
          | inr apart ↦ lookup-insert (name y) n y acc ∙ rw apart refl
        ]

    -- If no key stands twice, the map of the stored values has under a name the value of its key.
    pub lookup-stored :
        (m : GoMap Key Value) (n : String) (acc : GoMap String A)
        → IsMap m
        → All Fits m
        → lookup n (by_name name (λ x. x) (stored f m) acc)
          ≡ or_else (value_at f (mk n) m) (lookup n acc)
    unfolding stored lookup
    lookup-stored [] n acc once fits = refl
    lookup-stored ((k, v) ∷ m) n acc once fits =
        elim (step k v m n acc (λ map. lookup n (by_name name (λ x. x) (stored f m) map)) once.0
          (λ map. lookup-stored m n map once.1 fits.1) fits.0) [
            | inl (e, q) ↦ ap (λ l. lookup n (by_name name (λ x. x) (l ++ stored f m) acc)) e ∙ q
            | inr (x, e, q) ↦ ap (λ l. lookup n (by_name name (λ y. y) (l ++ stored f m) acc)) e ∙ q
          ]
