-- ===== src/Exec/Keeps.antt =====
-- Invariants of methods, whether they return or fail, with one rule for each way to build them.
use kuberboat.Prelude.{◌≡◌, refl, Bool, true, false, if◌then◌else◌}
use kuberboat.Exec.{
  Error, Result, ok, err, Exec, pure, raise, gets, modify, continue, ◌>>=◌, ◌>>◌, attempt,
}

-- From a state with `P` the method ends in a state with `Q`, on every path.
pub record Leads {ℓ κ μ} {S : Type ℓ} {A : Type κ} (P Q : S → Type μ) (m : Exec S A)
    : Type (ℓ ⊔ μ) where
  pub at : (s : S) → P s → Q (m s).1

-- The method keeps `P`.
abbrev pub Keeps {ℓ κ μ} : {S : Type ℓ} {A : Type κ} → (S → Type μ) → Exec S A → Type (ℓ ⊔ μ)
Keeps P m = Leads P P m

module _ {ℓ κ μ} {S : Type ℓ} {A : Type κ} {P Q : S → Type μ} where
  pub Leads-pure : (a : A) → ((s : S) → P s → Q s) → Leads P Q (pure a)
  Leads-pure a f = record { at = f }

  pub Leads-raise : (e : Error) → ((s : S) → P s → Q s) → Leads P Q (raise {A = A} e)
  Leads-raise e f = record { at = f }

  pub Leads-gets : (g : S → A) → ((s : S) → P s → Q s) → Leads P Q (gets g)
  Leads-gets g f = record { at = f }

  pub Leads-if :
      (b : Bool) (m n : Exec S A)
      → (b ≡ true → Leads P Q m)
      → (b ≡ false → Leads P Q n)
      → Leads P Q (if b then m else n)
  Leads-if true m n km kn = km refl
  Leads-if false m n km kn = kn refl

  pub Leads-attempt : (m : Exec S A) → Leads P Q m → Leads P Q (attempt m)
  Leads-attempt m k = record { at = k.at }

module _ {ℓ κ ν μ} {S : Type ℓ} {A : Type κ} {B : Type ν} {Q R : S → Type μ} where
  continue-Leads :
      (f : A → Exec S B) (r : Result A) (s : S)
      → ((t : S) → Q t → R t)
      → ((a : A) → Leads Q R (f a))
      → Q s
      → R (continue f (r, s)).1
  continue-Leads f (ok a) s w k q = (k a).at s q
  continue-Leads f (err e) s w k q = w s q

  pub Leads-bind :
      {P : S → Type μ} (m : Exec S A) (f : A → Exec S B)
      → Leads P Q m
      → ((t : S) → Q t → R t)
      → ((a : A) → Leads Q R (f a))
      → Leads P R (m >>= f)
  Leads-bind m f km w kf = record { at = λ s p. continue-Leads f (m s).0 (m s).1 w kf (km.at s p) }

  pub Leads-then :
      {P : S → Type μ} (m : Exec S A) (n : Exec S B)
      → Leads P Q m
      → ((t : S) → Q t → R t)
      → Leads Q R n
      → Leads P R (m >> n)
  Leads-then m n km w kn = record {
    at = λ s p. continue-Leads (λ _. n) (m s).0 (m s).1 w (λ _. kn) (km.at s p);
  }

module _ {ℓ μ} {S : Type ℓ} {P Q : S → Type μ} where
  pub Leads-modify : (f : S → S) → ((s : S) → P s → Q (f s)) → Leads P Q (modify f)
  Leads-modify f k = record { at = k }

-- The same for one invariant.
module _ {ℓ κ ν μ} {S : Type ℓ} {A : Type κ} {B : Type ν} {P : S → Type μ} where
  pub Keeps-bind :
      (first : Exec S A) (next : A → Exec S B)
      → Keeps P first
      → ((result : A) → Keeps P (next result))
      → Keeps P (first >>= next)
  Keeps-bind first next kept each = Leads-bind first next kept (λ t q. q) each

  pub Keeps-then : (m : Exec S A) (n : Exec S B) → Keeps P m → Keeps P n → Keeps P (m >> n)
  Keeps-then m n km kn = Leads-then m n km (λ t q. q) kn

-- The two ways on from a first part whose end state has `Q`.
module _ {ℓ κ ν μ} {S : Type ℓ} {A : Type κ} {B : Type ν} where
  pub continue_cases :
      (P : Result B × S → Type μ) (Q : S → Type μ) (f : A → Exec S B) (r : Result A × S)
      → Q r.1
      → ((e : Error) (s : S) → Q s → P (err e, s))
      → ((a : A) (s : S) → Q s → P (f a s))
      → P (continue f r)
  continue_cases P Q f (ok a, s) q failed next = next a s q
  continue_cases P Q f (err e, s) q failed next = failed e s q
