-- ===== src/Kubelet/Phases.antt =====
-- The phases that the worker's monitor gives to pods.
use kuberboat.Prelude.{
  ◌≡◌, refl, ◌⊎◌, inl, inr, Bool, true, false, not, ◌&&◌, ◌||◌, ◌==◌, nat_eq, Bool-cases,
  if◌then◌else◌, length, List, [], ◌∷◌, Option, none, some,
}
use kuberboat.Core.{Pod, PodPhase, phase_eq}
use kuberboat.Kubelet.{
  Observation, query_failed, missing, dead, running, exited, Scan, start, look, scan, inspect,
  conclude, monitor_pod,
}

-- A finished scan has met no running container.
abbrev Idle : Option Scan → Type 0
Idle none = Unit
Idle (some s) = s.is_finished ≡ true → s.num_running ≡ 0

look-Idle : (o : Observation) (s : Scan) → Idle (some s) → Idle (look o s)
unfolding look
look-Idle query_failed s c = c
look-Idle missing s c = tt
look-Idle dead s c = c
look-Idle running s c = λ e. cc
look-Idle (exited none) s c = tt
look-Idle (exited (some code)) s c = elim (Bool-cases (code == 0)) [
  | inl well ↦ rw well c
  | inr ill ↦ rw ill c
]

scan-Idle : (os : List Observation) (s : Scan) → Idle (some s) → Idle (scan os s)
unfolding scan
scan-Idle [] s c = c
scan-Idle (o ∷ os) s c = go (λ t i. scan-Idle os t i) (look o s) (look-Idle o s c)
  where
    go :
        ((t : Scan) → Idle (some t) → Idle (scan os t))
        → (r : Option Scan) → Idle r
        → Idle (elim r [ none ↦ none | some t ↦ scan os t ])
    go next none i = tt
    go next (some t) i = next t i

inspect-Idle : (os : List Observation) (p : Pod) → Idle (inspect os p)
unfolding inspect start
inspect-Idle os p =
    elim (Bool-cases
      (not (length os == length p.spec.containers) && p.status.phase == PodPhase.ready)) [
        | inl short ↦ rw short (λ e. refl)
        | inr complete ↦ rw complete (scan-Idle os start (λ e. refl))
      ]

-- A pod that a scan concludes on has failed, or keeps its phase.
conclude-Phase :
    (s : Scan) (p : Pod)
    → Idle (some s)
    → ((conclude s p).0.status.phase ≡ PodPhase.failed)
      ⊎ ((conclude s p).0.status.phase ≡ p.status.phase)
unfolding conclude
conclude-Phase s p i = elim (Bool-cases s.is_finished) [
  | inl finished ↦ rw (finished, i finished) (inl (failed s.is_failed))
  | inr busy ↦ rw busy (elim (Bool-cases (p.status.running_containers == s.num_running)) [
    | inl same ↦ rw same (inr refl)
    | inr other ↦ rw other (inr refl)
  ])
]
  where
    failed :
        (b : Bool) → (if b || true then PodPhase.failed else PodPhase.succeeded) ≡ PodPhase.failed
    failed true = refl
    failed false = refl

-- What a round leaves, if it does not panic: a pod that has failed, or that is in the phase of `p`.
abbrev pub FailedOrSame : Pod → Option (Pod × Bool) → Type 0
FailedOrSame p none = Unit
FailedOrSame p (some (q, told)) =
    (q.status.phase ≡ PodPhase.failed) ⊎ (q.status.phase ≡ p.status.phase)

-- The monitor never lets a pod succeed: after a round that does not panic, a pod has failed or is in
-- the phase that it had before, whatever Docker says of its containers.
pub monitor_pod-FailedOrSame :
    (known : Option (List Observation)) (p : Pod) → FailedOrSame p (monitor_pod known p)
unfolding monitor_pod
monitor_pod-FailedOrSame known p =
    elim (Bool-cases (p.status.phase == PodPhase.succeeded || p.status.phase == PodPhase.failed)) [
      | inl over ↦ rw over (inr refl)
      | inr live ↦ rw live (scanned known)
    ]
  where
    concluded :
        (r : Option Scan)
        → Idle r
        → FailedOrSame p (elim r [ none ↦ none | some s ↦ some (conclude s p) ])
    concluded none i = tt
    concluded (some s) i = conclude-Phase s p i

    scanned :
        (o : Option (List Observation))
        → FailedOrSame p (elim o [
          | none ↦ some (p, false)
          | some os ↦ elim (inspect os p) [ none ↦ none | some s ↦ some (conclude s p) ]
        ])
    scanned none = inr refl
    scanned (some os) = concluded (inspect os p) (inspect-Idle os p)
