-- ===== src/Tests/Kernel.antt =====
-- A kernel for the examples of the service proxy: a map from chains to rules.
use kuberboat.Prelude.{
  ℕ, zero, suc, String, true, false, ◌==◌, ==_iff, ==_refl, if◌then◌else◌, GoMap, lookup, insert,
  delete, lookup-insert, lookup-delete, List, [], ◌∷◌, ◌++◌, In, inl, inr, ◌≡◌, refl, ap, arith,
  string_eq,
}
use kuberboat.Exec.{ok}
use kuberboat.Proxy.Names.{Chain, chain_eq, Rule}
use kuberboat.Proxy.Meta.{or_nil}
use kuberboat.Proxy.Iptables.{Iptables, Documented, Succeeds}
use kuberboat.Proxy.Client.{Host}

abbrev pub Table : Type 0
Table = GoMap Chain (List Rule)

unfoldable pub rules_of : Chain → Table → List Rule
rules_of c t = or_nil (lookup c t)

unfoldable pub kernel : Iptables Table
unfolding rules_of
kernel = record {
  new_chain = λ n c t. (ok tt, t);
  exists = λ n c r t. (ok false, t);
  insert = λ n c i r t. (ok tt, insert c (r ∷ rules_of c t) t);
  append_unique = λ n c r t. (ok tt, insert c (rules_of c t ++ r ∷ []) t);
  delete_if_exists = λ n c r t. (ok tt, t);
  clear_chain = λ n c t. (ok tt, insert c [] t);
  clear_and_delete_chain = λ n c t. (ok tt, delete c t);
}

pub rules-insert :
    (c d : Chain) (l : List Rule) (t : Table)
    → rules_of d (insert c l t) ≡ (if c == d then l else rules_of d t)
unfolding rules_of
rules-insert c d l t = ground (arith, lookup-insert c d l t)

pub rules-delete :
    (c d : Chain) (t : Table) → rules_of d (delete c t) ≡ (if c == d then [] else rules_of d t)
unfolding rules_of
rules-delete c d t = ground (arith, lookup-delete c d t)

pub In-last : (r : Rule) (l : List Rule) → In r (l ++ r ∷ [])
In-last r [] = inl refl
In-last r (x ∷ l) = inr (In-last r l)

pub In-more : (x r : Rule) (l : List Rule) → In x l → In x (l ++ r ∷ [])
In-more x r [] i = absurd i
In-more x r (y ∷ l) (inl e) = inl e
In-more x r (y ∷ l) (inr i) = inr (In-more x r l i)

unfoldable pub kernel-Documented : Documented kernel
unfolding kernel
kernel-Documented = record {
  rules = rules_of;
  rules-new_chain = λ c d t. refl;
  rules-insert = λ c d r t. ground (arith, rules-insert c d (r ∷ rules_of c t) t, ==_iff c d);
  rules-append_unique = λ c d r t n. rw (rules-insert c d (rules_of c t ++ r ∷ []) t, n) refl;
  append_unique-In = λ c r t h.
      rw (rules-insert c c (rules_of c t ++ r ∷ []) t, ==_refl c) (In-last r (rules_of c t));
  append_unique-keeps = λ c r x t i.
      rw (rules-insert c c (rules_of c t ++ r ∷ []) t, ==_refl c) (In-more x r (rules_of c t) i);
  rules-delete_if_exists = λ c d r t n. refl;
  rules-clear_chain = λ c d t. rules-insert c d [] t;
  rules-clear_and_delete_chain = λ c d t n. rw (rules-delete c d t, n) refl;
}

kernel-Succeeds : Succeeds kernel
unfolding kernel
kernel-Succeeds = record { insert-ok = λ c r t. refl; clear_chain-ok = λ c t. refl }

-- As many letters as the number says.
letters : ℕ → String
letters zero = ""
letters (suc n) = String.◌∷◌ "A" (letters n)

rest : String → String
rest String.[] = ""
rest (String.◌∷◌ c s) = s

letters-injective : (a b : ℕ) → letters a ≡ letters b → a ≡ b
unfolding letters rest
letters-injective zero zero e = refl
letters-injective zero (suc b) e = cc
letters-injective (suc a) zero e = cc
letters-injective (suc a) (suc b) e = ap suc (letters-injective a b (ap rest e))

unfoldable pub host : Host Table
unfolding kernel letters
host = record {
  client = record { host_inet_ip = "10.0.0.9"; flannel_ip = "10.1.0.0"; iptables = kernel };
  id = letters;
  is_ip = λ s. true;
}

pub host_distinct : (a b : ℕ) → host.id a ≡ host.id b → a ≡ b
unfolding host
host_distinct = letters-injective

unfoldable pub host-Documented : Documented host.client.iptables
unfolding host
host-Documented = kernel-Documented

pub host-Succeeds : Succeeds host.client.iptables
unfolding host
host-Succeeds = kernel-Succeeds
