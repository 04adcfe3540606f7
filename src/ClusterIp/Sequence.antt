-- ===== src/ClusterIp/Sequence.antt =====
-- The addresses come in order, stay in the range, and none comes twice.
use native.Mathlib.Nat.{zero-add, suc-add}
use kuberboat.Prelude.{
  ℕ, zero, suc, ◌+◌, ◌-◌, ◌*◌, ◌^◌, ◌≤◌, ◌<◌, String, ◌≡◌, refl, sym, ap, subst, ◌⊎◌, inl, inr,
  true, Bool-cases, Option-cases, none, some, arith,
}
use kuberboat.Exec.{Result, ok, err, no_cluster_ip, etcd_failed}
use kuberboat.World.{World, Env, Ip}
use kuberboat.ClusterIp.{next_ip, in_range, ip_string, assign, next_cluster_ip}

-- The address as a 32-bit number.
abbrev pub ip_value : Ip → ℕ
ip_value ip = ((ip.o0 * 256 + ip.o1) * 256 + ip.o2) * 256 + ip.o3

pub record IsIp (ip : Ip) : Type 0 where
  pub b0 : ip.o0 < 256
  pub b1 : ip.o1 < 256
  pub b2 : ip.o2 < 256
  pub b3 : ip.o3 < 256

-- The next address is one more, and there is none after the last.
next_ip-value :
    (ip j : Ip) → IsIp ip → next_ip ip ≡ some j → IsIp j × (ip_value j ≡ ip_value ip + 1)
unfolding next_ip
next_ip-value ip j v q = ground arith

next_ip-none : (ip : Ip) → IsIp ip → next_ip ip ≡ none → ip_value ip ≡ 2 ^ 32 - 1
unfolding next_ip
next_ip-none ip v q = ground arith

-- An assigner that can run: its address is one of the range.
abbrev pub IsReady : Ip → Type 0
IsReady ip = IsIp ip × (in_range ip ≡ true)

-- In the range the next address is in the range too.
next_ip-IsReady :
    (ip j : Ip) → IsReady ip → next_ip ip ≡ some j → IsReady j × (ip_value j ≡ ip_value ip + 1)
unfolding in_range
next_ip-IsReady ip j (v, r) q = let s = next_ip-value ip j v q in ((s.0, above s.0 s.1), s.1)
  where
    above : IsIp j → ip_value j ≡ ip_value ip + 1 → in_range j ≡ true
    above b e = ground (arith, v, r, b, e)

-- The outcomes of a call: an address one higher, which is returned unless etcd fails, or, after the
-- last address only, an error that changes nothing.
abbrev pub Assigned : World → Result String × World → Type 0
Assigned w (r, v) =
    (IsReady v.current_ip
      × (ip_value v.current_ip ≡ ip_value w.current_ip + 1)
      × ((r ≡ ok (ip_string v.current_ip)) ⊎ (r ≡ err etcd_failed)))
    ⊎ ((r ≡ err no_cluster_ip) × (v ≡ w) × (ip_value w.current_ip ≡ 2 ^ 32 - 1))

-- From an address of the range, a call of `NextClusterIP` moves to the address that is one higher
-- and in the range, and returns its text or the failure of etcd; only after 255.255.255.255 it
-- fails with no address left, and changes nothing.
pub next_cluster_ip-Assigned :
    (env : Env) (w : World) → IsReady w.current_ip → Assigned w (next_cluster_ip env w)
unfolding next_cluster_ip
next_cluster_ip-Assigned env w v = elim (Option-cases (next_ip w.current_ip)) [
  | inl spent ↦ rw (spent, assign) (inr (refl, refl, next_ip-none w.current_ip v.0 spent))
  | inr (j, found) ↦
      let s = next_ip-IsReady w.current_ip j v found in
      elim (Bool-cases (env.succeeds w.calls)) [
        | inl stored ↦ rw (found, assign, s.0.1, stored) (inl (s.0, s.1, inl refl))
        | inr refused ↦ rw (found, assign, s.0.1, refused) (inl (s.0, s.1, inr refl))
      ]
]

-- The state after that many calls.
unfoldable pub calls : Env → ℕ → World → World
calls env zero w = w
calls env (suc k) w = (next_cluster_ip env (calls env k w)).1

calls-IsReady :
    (env : Env) (k : ℕ) (w : World) → IsReady w.current_ip → IsReady (calls env k w).current_ip
unfolding calls
calls-IsReady env zero w v = v
calls-IsReady env (suc k) w v =
    let before = calls-IsReady env k w v in
    elim (next_cluster_ip-Assigned env (calls env k w) before) [
      | inl (ready, _, _) ↦ ready
      | inr (_, same, _) ↦ subst (λ (u : World). IsReady u.current_ip) (sym same) before
    ]

calls-le :
    (env : Env) (k d : ℕ) (w : World)
    → IsReady w.current_ip
    → ip_value (calls env k w).current_ip ≤ ip_value (calls env (d + k) w).current_ip
unfolding calls
calls-le env k zero w v = rw zero-add (omega arith)
calls-le env k (suc d) w v =
    rw suc-add
      (elim (next_cluster_ip-Assigned env (calls env (d + k) w) (calls-IsReady env (d + k) w v)) [
        | inl (_, more, _) ↦ omega (arith, more, calls-le env k d w v)
        | inr (_, same, _) ↦
            omega (arith, ap (λ (u : World). ip_value u.current_ip) same, calls-le env k d w v)
      ])

returned :
    (env : Env) (w : World) {s : String}
    → IsReady w.current_ip
    → (next_cluster_ip env w).0 ≡ ok s
    → let next = (next_cluster_ip env w).1.current_ip in
      (s ≡ ip_string next) × (ip_value next ≡ ip_value w.current_ip + 1) × IsReady next
returned env w v q = elim (next_cluster_ip-Assigned env w v) [
  | inl (ready, more, inl e) ↦ (cc, more, ready)
  | inl (_, _, inr e) ↦ cc
  | inr (e, _, _) ↦ cc
]

-- No address is given twice: of two calls that return an address, the later one's is higher,
-- whatever calls failed before, between or on the way.
pub next_cluster_ip-increases :
    (env : Env) (k d : ℕ) (w : World) {s t : String}
    → IsReady w.current_ip
    → (next_cluster_ip env (calls env k w)).0 ≡ ok s
    → (next_cluster_ip env (calls env (d + suc k) w)).0 ≡ ok t
    → (i : Ip) × (j : Ip) × (s ≡ ip_string i)
      × (t ≡ ip_string j)
      × (ip_value i < ip_value j)
      × (ip_value j < 2 ^ 32)
unfolding calls
next_cluster_ip-increases env k d w {s} {t} v first second =
    let early = returned env (calls env k w) (calls-IsReady env k w v) first in
    let late = returned env (calls env (d + suc k) w) (calls-IsReady env (d + suc k) w v) second in
    (
      (calls env (suc k) w).current_ip,
      (calls env (suc (d + suc k)) w).current_ip,
      early.0,
      late.0,
      omega (arith, late.1, calls-le env (suc k) d w v),
      omega (arith, late.2.0),
    )
