-- ===== src/PodManager.antt =====
-- pkg/kubelet/pod/pod_manager.go: what a worker knows of its pods and of their Docker resources.
--
-- Pods are objects that are reached by pointer: a number names the object. The locks cover each
-- method as a whole.
use kuberboat.Prelude.{
  ℕ, String, nat_eq, string_eq, if◌then◌else◌, GoMap, lookup, contains, insert, delete, values,
  List, [], ◌∷◌, ◌++◌, Option, none, some,
}

pub record MetaManager : Type 0 where
  pub pod_by_name : GoMap String ℕ

-- dockerRuntimeManager
pub record RuntimeManager : Type 0 where
  pub containers_by_pod : GoMap ℕ (List String)
  pub sand_box_by_pod : GoMap ℕ String
  pub volumes_by_pod : GoMap ℕ (List String)

unfoldable pub new_meta_manager : MetaManager
new_meta_manager = record { pod_by_name = [] }

unfoldable pub new_runtime_manager : RuntimeManager
new_runtime_manager = record { containers_by_pod = []; sand_box_by_pod = []; volumes_by_pod = [] }

unfoldable pub pods : MetaManager → List ℕ
pods m = values m.pod_by_name

unfoldable pub pod_by_name : String → MetaManager → Option ℕ
pod_by_name n m = lookup n m.pod_by_name

-- A second pod of a name is not taken.
unfoldable pub add_pod : String → ℕ → MetaManager → MetaManager
add_pod n a m =
    if contains n m.pod_by_name then m else record m { pod_by_name = insert n a m.pod_by_name }

unfoldable pub delete_pod_by_name : String → MetaManager → MetaManager
delete_pod_by_name n m =
    if contains n m.pod_by_name then record m { pod_by_name = delete n m.pod_by_name } else m

-- Go's zero value for a missing key.
or_nil : Option (List String) → List String
or_nil none = []
or_nil (some l) = l

unfoldable pub containers_by_pod : ℕ → RuntimeManager → List String
unfolding or_nil
containers_by_pod a r = or_nil (lookup a r.containers_by_pod)

unfoldable pub volumes_by_pod : ℕ → RuntimeManager → List String
unfolding or_nil
volumes_by_pod a r = or_nil (lookup a r.volumes_by_pod)

unfoldable pub sand_box_by_pod : ℕ → RuntimeManager → Option String
sand_box_by_pod a r = lookup a r.sand_box_by_pod

unfoldable pub add_pod_container : ℕ → String → RuntimeManager → RuntimeManager
unfolding containers_by_pod
add_pod_container a c r = record r {
  containers_by_pod = insert a (containers_by_pod a r ++ c ∷ []) r.containers_by_pod;
}

unfoldable pub add_pod_sand_box : ℕ → String → RuntimeManager → RuntimeManager
add_pod_sand_box a c r = record r { sand_box_by_pod = insert a c r.sand_box_by_pod }

unfoldable pub add_pod_volume : ℕ → String → RuntimeManager → RuntimeManager
unfolding volumes_by_pod
add_pod_volume a v r = record r {
  volumes_by_pod = insert a (volumes_by_pod a r ++ v ∷ []) r.volumes_by_pod;
}

unfoldable pub delete_pod_containers : ℕ → RuntimeManager → RuntimeManager
delete_pod_containers a r = record r { containers_by_pod = delete a r.containers_by_pod }

unfoldable pub delete_pod_volumes : ℕ → RuntimeManager → RuntimeManager
delete_pod_volumes a r = record r { volumes_by_pod = delete a r.volumes_by_pod }
