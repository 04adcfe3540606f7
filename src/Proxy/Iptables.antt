-- ===== src/Proxy/Iptables.antt =====
-- github.com/coreos/go-iptables, which changes the tables of the kernel: not of the repository, so
-- a record of its operations on a type of tables, and the part of its documentation that is used.
use kuberboat.Prelude.{
  ℕ, String, Bool, true, false, ◌&&◌, ◌==◌, if◌then◌else◌, List, [], ◌∷◌, ◌≡◌, In,
}
pub use kuberboat.Exec.{is_ok}
use kuberboat.Exec.{Exec}
use kuberboat.Proxy.Names.{Chain, chain_eq, Rule}

-- The first argument is the name of the table.
pub record Iptables (T : Type 0) : Type 0 where
  pub new_chain : String → Chain → Exec T (Unit {0})
  pub exists : String → Chain → Rule → Exec T Bool
  pub insert : String → Chain → ℕ → Rule → Exec T (Unit {0})
  pub append_unique : String → Chain → Rule → Exec T (Unit {0})
  pub delete_if_exists : String → Chain → Rule → Exec T (Unit {0})
  pub clear_chain : String → Chain → Exec T (Unit {0})
  pub clear_and_delete_chain : String → Chain → Exec T (Unit {0})

-- NatTableName
abbrev pub nat_table : String
nat_table = "nat"

-- `rules` lists a chain of the nat table, from its first rule; a missing chain has none. An
-- operation that fails leaves the rules, but for one that clears and then cannot delete.
pub record Documented {T : Type 0} (ipt : Iptables T) : Type 0 where
  pub rules : Chain → T → List Rule
  pub rules-new_chain : (c d : Chain) (t : T) → rules d (ipt.new_chain nat_table c t).1 ≡ rules d t
  pub rules-insert :
      (c d : Chain) (r : Rule) (t : T)
      → rules d (ipt.insert nat_table c 1 r t).1
        ≡ (if is_ok (ipt.insert nat_table c 1 r t).0 && c == d then r ∷ rules d t else rules d t)
  pub rules-append_unique :
      (c d : Chain) (r : Rule) (t : T)
      → (c == d) ≡ false
      → rules d (ipt.append_unique nat_table c r t).1 ≡ rules d t
  pub append_unique-In :
      (c : Chain) (r : Rule) (t : T)
      → is_ok (ipt.append_unique nat_table c r t).0 ≡ true
      → In r (rules c (ipt.append_unique nat_table c r t).1)
  pub append_unique-keeps :
      (c : Chain) (r x : Rule) (t : T)
      → In x (rules c t)
      → In x (rules c (ipt.append_unique nat_table c r t).1)
  pub rules-delete_if_exists :
      (c d : Chain) (r : Rule) (t : T)
      → (c == d) ≡ false
      → rules d (ipt.delete_if_exists nat_table c r t).1 ≡ rules d t
  pub rules-clear_chain :
      (c d : Chain) (t : T)
      → rules d (ipt.clear_chain nat_table c t).1
        ≡ (if is_ok (ipt.clear_chain nat_table c t).0 && c == d then [] else rules d t)
  pub rules-clear_and_delete_chain :
      (c d : Chain) (t : T)
      → (c == d) ≡ false
      → rules d (ipt.clear_and_delete_chain nat_table c t).1 ≡ rules d t

-- No call for a chain fails.
pub record Succeeds {T : Type 0} (ipt : Iptables T) : Type 0 where
  pub insert-ok : (c : Chain) (r : Rule) (t : T) → is_ok (ipt.insert nat_table c 1 r t).0 ≡ true
  pub clear_chain-ok : (c : Chain) (t : T) → is_ok (ipt.clear_chain nat_table c t).0 ≡ true
