-- ===== src/DeploymentControl/Rolling/Deletion.antt =====
-- The pods that a rolling update deletes.
use kuberboat.Prelude.{ℕ, ◌+◌, ◌≤◌, String, ◌≡◌, string_eq, lookup, In, List, length, some}
use mathlib.Core.Option
use kuberboat.ComponentManager
use kuberboat.ComponentManager.{Addr, Heap, name_of}
use kuberboat.World.{World}

-- The pod is registered and in the list of the deployment, which has lost `j` pods of `xs` at most.
pub record IsSparing (n : String) (xs : List Addr) (h : Heap) (a : Addr) (j : ℕ) (w : World)
    : Type 0 where
  pub heap : w.cm.heap ≡ h
  pub left : List Addr
  pub listed : lookup n w.cm.deployment_to_pods ≡ some left
  pub enough : length xs ≤ length left + j
  pub here : In a left
  pub registered : lookup (name_of h a) w.cm.pods ≡ some a
