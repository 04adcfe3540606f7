-- ===== src/Proxy/Names.antt =====
-- The names of chains and the arguments of rules (the constants of pkg/kubelet/proxy/iptables.go).
--
-- A chain name is a constant, or a prefix with an identifier: one constructor for each, so names
-- with different prefixes differ.
use kuberboat.Prelude.{
  ℕ, String, Bool, true, ◌&&◌, ◌==◌, nat_beq, string_eq, Eq, ◌↔◌, ◌≡◌, ==_iff, arith, List, refl,
  false,
}

pub data Chain : Type 0 where
  prerouting output postrouting : Chain
  services : Chain
  kuberboat_postrouting host_postrouting : Chain
  mark_masq host_mark_masq : Chain
  -- KUBERBOAT-SVC- and KUBERBOAT-SEP- with the identifier.
  service_chain pod_chain : String → Chain

chain_code : Chain → ℕ
chain_code prerouting = 0
chain_code output = 1
chain_code postrouting = 2
chain_code services = 3
chain_code kuberboat_postrouting = 4
chain_code host_postrouting = 5
chain_code mark_masq = 6
chain_code host_mark_masq = 7
chain_code (service_chain id) = 8
chain_code (pod_chain id) = 9

chain_id : Chain → String
chain_id (service_chain id) = id
chain_id (pod_chain id) = id
chain_id _ = ""

unfoldable pub chain_beq : Chain → Chain → Bool
unfolding chain_code chain_id
chain_beq a b = nat_beq (chain_code a) (chain_code b) && chain_id a == chain_id b

pub chain_beq_iff : (a b : Chain) → (chain_beq a b ≡ true) ↔ (a ≡ b)
unfolding chain_beq
chain_beq_iff a b = ground (arith, ==_iff (chain_id a) (chain_id b))

pub pod_chain-service_chain : (a b : String) → chain_beq (pod_chain a) (service_chain b) ≡ false
unfolding chain_beq chain_code
pod_chain-service_chain a b = refl

pub services-service_chain : (b : String) → chain_beq services (service_chain b) ≡ false
unfolding chain_beq chain_code
services-service_chain b = refl

instance abbrev pub chain_eq : Eq Chain
chain_eq = record { same = chain_beq; same_iff = chain_beq_iff }

-- What `-j` takes: a chain, or one of the targets of the kernel.
pub data Target : Type 0 where
  chain : Chain → Target
  dnat snat masquerade mark_target return_target : Target

-- One argument of a rule; the flags are those of the constants, and `fmt` prints the numbers.
pub data Arg : Type 0 where
  jump : Target → Arg
  protocol match_param destination source comment mode : String → Arg
  destination_port every packet : ℕ → Arg
  mark set_xmark : String → Arg
  not_matching random_fully : Arg
  to_destination : String → ℕ → Arg
  to_source : String → Arg

abbrev pub Rule : Type 0
Rule = List Arg
