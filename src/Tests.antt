-- ===== src/Tests.antt =====
-- The cluster of the examples: one worker, pods, a deployment and a service, and environments in
-- which every call succeeds or one of them fails.
mod Pods
mod Deployments
mod Rolling
mod Services
mod Scheduling
mod Workers
mod Kernel
mod Proxy
mod Docker
mod Recovery
use kuberboat.Prelude.{
  ℕ, Bool, true, false, not, ◌==◌, nat_eq, if◌then◌else◌, String, List, [], ◌∷◌, Option, none, some,
}
use kuberboat.Core
use kuberboat.Core.{
  Kind, Pod, PodPhase, PodStatus, Node, NodePhase, NodeCondition, Service, Deployment,
  HorizontalPodAutoscaler, ObjectMeta, Labels, zero_spec, zero_status,
}
use kuberboat.ComponentManager.{new_component_manager}
use kuberboat.ComponentManager.Integrity.{IsCoherent, new-IsCoherent}
use kuberboat.World.{World, Env, Ip}
use kuberboat.PodControl.{create_pod, update_pod_status}
use kuberboat.PodControl.Creation.{create_pod-IsCoherent}
use kuberboat.PodControl.Status.{update_pod_status-IsCoherent}

-- Every call succeeds but the one of that number.
abbrev pub env_failing : (ℕ → Bool) → Env
env_failing works = record {
  succeeds = works;
  uuid = λ n. if n == 0 then "aaaaaaaa" else "bbbbbbbb";
  now = λ n. n;
  hash_labels = λ ls. elim ls [ [] ↦ "none" | _ ∷ _ ↦ "some" ];
  hash_spec = λ s. s.affinity;
  hash_template = λ ls s. "0123456789abcdef";
}

abbrev pub env : Env
env = env_failing (λ n. true)

abbrev pub meta : String → Labels → ObjectMeta
meta n ls = record { name = n; uuid = ""; creation_timestamp = 0; labels = ls }

abbrev pub web_labels : Labels
web_labels = ("app", "web") ∷ []

abbrev pub worker : String → String → ℕ → Node
worker n address t = record {
  kind = Kind.node;
  meta = record { name = n; uuid = ""; creation_timestamp = t; labels = [] };
  status = record {
    phase = NodePhase.running;
    condition = NodeCondition.ready;
    address = address;
    port = 4000;
  };
}

abbrev pub empty_world : World
empty_world = record {
  cm = new_component_manager;
  nodes =
      (
        "n1",
        record {
          node = worker "n1" "10.0.0.1" 5;
          client = record { url = "10.0.0.1"; kubelet_port = 4000 };
        },
      )
      ∷ (
        "n2",
        record {
          node = worker "n2" "10.0.0.2" 3;
          client = record { url = "10.0.0.2"; kubelet_port = 4000 };
        },
      )
      ∷ [];
  next_idx = 0;
  pod_legacy = [];
  current_ip = record { o0 = 240; o1 = 0; o2 = 0; o3 = 255 };
  expect_deleted_pod = [];
  retry_budget = [];
  etcd = [];
  sent = [];
  calls = 0;
}

abbrev pub web : Pod
web = record {
  kind = Kind.pod;
  meta = meta "web" web_labels;
  spec = zero_spec;
  status = zero_status;
}

abbrev pub ready_status : PodStatus
ready_status = record {
  phase = PodPhase.ready;
  host_ip = "10.0.0.2";
  pod_ip = "10.1.0.7";
  running_containers = 1;
}

-- The pod `web` is created, and then reported ready.
abbrev pub one_pod : World
one_pod = (create_pod env web empty_world).1

abbrev pub one_ready : World
one_ready = (update_pod_status env "web" ready_status one_pod).1

pub empty_world-IsCoherent : IsCoherent empty_world.cm
empty_world-IsCoherent = new-IsCoherent

pub one_pod-IsCoherent : IsCoherent one_pod.cm
one_pod-IsCoherent = create_pod-IsCoherent env web empty_world empty_world-IsCoherent

pub one_ready-IsCoherent : IsCoherent one_ready.cm
one_ready-IsCoherent =
    update_pod_status-IsCoherent env "web" ready_status one_pod one_pod-IsCoherent

abbrev pub shop : ℕ → Deployment
shop replicas = record {
  kind = Kind.deployment;
  meta = meta "shop" [];
  spec = record {
    replicas = replicas;
    rolling_update = record { max_surge = 1; max_unavailable = 0 };
    template = record { meta = meta "" web_labels; spec = zero_spec };
  };
  status = record { replicas = 0; updated_replicas = 0; ready_replicas = 0 };
}

abbrev pub front : Service
front = record {
  kind = Kind.service;
  meta = meta "front" [];
  spec = record {
    ports = record { port = 80; target_port = 8080 } ∷ [];
    selector = web_labels;
    cluster_ip = "";
  };
}

abbrev pub scaler : HorizontalPodAutoscaler
scaler = record {
  kind = Kind.autoscaler;
  meta = meta "scaler" [];
  spec = record {
    scale_target_ref = record { kind = Kind.deployment; name = "shop" };
    min_replicas = 2;
    max_replicas = 4;
    scale_interval = 15;
    metrics = [];
  };
}
