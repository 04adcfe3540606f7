-- ===== src/Core/Meta.antt =====
-- The kinds and the metadata that every resource carries (pkg/api/core/types.go). Go's string
-- types with a fixed set of constants are data types; `unset` is the empty string.
use kuberboat.Prelude.{ℕ, String, Bool, Eq, nat_beq, GoMap, arith, ◌↔◌, ◌≡◌, true}

pub data Kind : Type 0 where
  unset pod deployment node service dns job autoscaler : Kind

kind_code : Kind → ℕ
kind_code Kind.unset = 0
kind_code Kind.pod = 1
kind_code Kind.deployment = 2
kind_code Kind.node = 3
kind_code Kind.service = 4
kind_code Kind.dns = 5
kind_code Kind.job = 6
kind_code Kind.autoscaler = 7

unfoldable pub kind_beq : Kind → Kind → Bool
unfolding kind_code
kind_beq a b = nat_beq (kind_code a) (kind_code b)

pub kind_beq_iff : (a b : Kind) → (kind_beq a b ≡ true) ↔ (a ≡ b)
unfolding kind_beq
kind_beq_iff a b = ground arith

instance abbrev pub kind_eq : Eq Kind
kind_eq = record { same = kind_beq; same_iff = kind_beq_iff }

-- `type ResourceName string`, with the two constants that the program names.
pub data ResourceName : Type 0 where
  cpu memory : ResourceName
  other : String → ResourceName

abbrev pub Labels : Type 0
Labels = GoMap String String

-- Times are numbers, and UUIDs are their texts.
pub record ObjectMeta : Type 0 where
  pub name : String
  pub uuid : String
  pub creation_timestamp : ℕ
  pub labels : Labels
