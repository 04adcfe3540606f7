-- ===== src/ClusterIp.antt =====
-- pkg/apiserver/service/cluster_ip.go: the addresses of services, from 240.0.0.0/4.
pub mod Sequence
use Prim.Native.String.{◌++◌}
use kuberboat.Prelude.{
  ℕ, suc, ◌+◌, ◌/◌, ◌%◌, String, Bool, true, false, not, ◌==◌, nat_eq, ltb, if◌then◌else◌, Option,
  none, some,
}
use kuberboat.Exec.{Result, ok, err, no_cluster_ip, Exec, pure, raise, modify, ◌>>=◌, ◌>>◌}
use kuberboat.World.{World, Env, Api, Ip, Key, Value, etcd_put}

-- `ip.To4().String()`: the octets in decimal, joined by dots.
unfoldable pub digit : ℕ → String
digit d =
    if d == 0
    then "0"
    else if d == 1
    then "1"
    else if d == 2
    then "2"
    else if d == 3
    then "3"
    else if d == 4
    then "4"
    else if d == 5
    then "5"
    else if d == 6
    then "6"
    else if d == 7
    then "7"
    else if d == 8
    then "8"
    else "9"

unfoldable pub octet_string : ℕ → String
unfolding digit
octet_string n =
    if ltb n 10
    then digit n
    else if ltb n 100
    then digit (n / 10) ++ digit (n % 10)
    else digit (n / 100) ++ (digit (n / 10 % 10) ++ digit (n % 10))

unfoldable pub ip_string : Ip → String
unfolding octet_string
ip_string ip =
    octet_string ip.o0
    ++ ("." ++ (octet_string ip.o1 ++ ("." ++ (octet_string ip.o2 ++ ("." ++ octet_string ip.o3)))))

-- `octet + 1` on a byte
unfoldable pub inc8 : ℕ → ℕ
inc8 n = (n + 1) % 256

unfoldable pub next_ip : Ip → Option Ip
unfolding inc8
next_ip ip =
    if not (inc8 ip.o3 == 0)
    then some (record { o0 = ip.o0; o1 = ip.o1; o2 = ip.o2; o3 = inc8 ip.o3 })
    else if not (inc8 ip.o2 == 0)
    then some (record { o0 = ip.o0; o1 = ip.o1; o2 = inc8 ip.o2; o3 = 0 })
    else if not (inc8 ip.o1 == 0)
    then some (record { o0 = ip.o0; o1 = inc8 ip.o1; o2 = 0; o3 = 0 })
    else if not (inc8 ip.o0 == 0)
    then some (record { o0 = inc8 ip.o0; o1 = 0; o2 = 0; o3 = 0 })
    else none

-- `clusterIPRange.Contains(ip)`: the mask of /4 keeps the high four bits of the first octet.
unfoldable pub in_range : Ip → Bool
in_range ip = ip.o0 / 16 == 15

-- The address that `NewClusterIPAssigner` starts from.
abbrev pub first_ip : Ip
first_ip = record { o0 = 240; o1 = 0; o2 = 0; o3 = 0 }

-- The address in use changes before etcd is told, so a failure skips it.
unfoldable pub assign : Env → Option Ip → Api String
unfolding in_range ip_string etcd_put
assign env none = raise no_cluster_ip
assign env (some ip) =
    if in_range ip
    then (do
      modify λ w. record w { current_ip = ip }
      etcd_put env Key.ip_assigner (Value.ip ip)
      pure (ip_string ip))
    else raise no_cluster_ip

unfoldable pub next_cluster_ip : Env → Api String
unfolding next_ip assign
next_cluster_ip env w = assign env (next_ip w.current_ip) w
