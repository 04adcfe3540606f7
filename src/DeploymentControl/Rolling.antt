-- ===== src/DeploymentControl/Rolling.antt =====
-- The numbers of pods that a rolling update deletes and creates in a round.
pub mod Deletion
pub mod Creation
pub mod Unlisted
pub mod Round
pub mod Progress
use kuberboat.Prelude.{ℕ, suc, pos, pos_part, ◌+◌, ◌-◌, ◌≤◌, ◌<◌, ◌≡◌, ◌⊎◌, inl, inr, arith}
use kuberboat.DeploymentControl.{deletions, creations}

pub deletions-bounds :
    (ready outdated replicas unavailable : ℕ)
    → (k : ℕ) × (deletions ready outdated replicas unavailable ≡ pos k)
      × (k ≤ outdated)
      × (k ≤ ready)
      × ((k ≡ 0) ⊎ (replicas ≤ (ready - k) + unavailable))
unfolding deletions
deletions-bounds ready outdated replicas unavailable = (
  pos_part (deletions ready outdated replicas unavailable),
  ground arith,
  ground arith,
  ground arith,
  ground arith,
)

-- Enough ready pods, and some are deleted.
pub deletions-pos :
    (ready outdated replicas unavailable : ℕ)
    → 0 < outdated
    → replicas < ready + unavailable
    → 0 < ready
    → 0 < pos_part (deletions ready outdated replicas unavailable)
unfolding deletions
deletions-pos ready outdated replicas unavailable old spare some_ready = ground arith

-- None to spare, and none is deleted.
pub deletions-none :
    (ready outdated replicas unavailable : ℕ)
    → ready + unavailable ≤ replicas
    → deletions ready outdated replicas unavailable ≡ pos 0
unfolding deletions
deletions-none ready outdated replicas unavailable tight = ground arith

pub creations-bounds :
    (replicas existing updated surge : ℕ)
    → (pos_part (creations replicas existing updated surge) ≡ 0)
      ⊎ ((existing + pos_part (creations replicas existing updated surge) ≤ replicas + surge)
          × (updated + pos_part (creations replicas existing updated surge) ≤ replicas))
unfolding creations
creations-bounds replicas existing updated surge = ground arith

pub creations-pos :
    (replicas existing updated surge : ℕ)
    → existing < replicas + surge
    → updated < replicas
    → (k : ℕ) × (creations replicas existing updated surge ≡ pos (suc k))
unfolding creations
creations-pos replicas existing updated surge below missing =
    (pos_part (creations replicas existing updated surge) - 1, ground arith)
