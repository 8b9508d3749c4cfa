-- ===== src/Script.antt =====
-- cgroup-tproxy.sh: the commands of iptables and ip that it runs, in their order.
pub mod Env
pub mod Marks
pub mod Tables
pub mod Effects
pub mod Started
pub mod Restore
pub mod Stopped
pub mod Main
pub mod Laws
pub mod Rounds
use cgproxy.Base.{
  Bool, true, false, not, List, [], ◌∷◌, ◌++◌, Bytes, codes, bytes_eq, if◌then◌else◌,
}
use Env.{Variables}

pub data Family : Type 0 where
  ipv4 ipv6 : Family

pub data Chain : Type 0 where
  prerouting output postrouting tproxy_pre tproxy_ent tproxy_out tproxy_mark : Chain

-- What a rule asks of a packet.
pub data Match : Type 0 where
  always socket reply to_local not_unicast not_from_local tcp udp dns : Match
  -- `-m owner ! --socket-exists`, and with `-s fc00::/7`
  no_socket no_socket_private : Match
  cgroup : Bytes → Match

pub data Target : Type 0 where
  return accept masquerade : Target
  jump : Chain → Target
  -- `-j MARK --set-mark`
  mark : Bytes → Target
  -- `-j TPROXY` with its address, port and mark
  tproxy : Bytes → Bytes → Bytes → Target

pub record Rule : Type 0 where
  pub cond : Match
  pub target : Target

abbrev pub on : Match → Target → Rule
on m t = record { cond = m; target = t }

pub data Command : Type 0 where
  -- `iptables` with -N, -F and -X
  new flush delete_chain : Family → Chain → Command
  -- with -A and -D
  append delete : Family → Chain → Rule → Command
  -- `ip rule` with a mark and a table, `ip route` with a table
  add_rule delete_rule : Family → Bytes → Bytes → Command
  add_route flush_routes : Family → Bytes → Command
  sysctl : Bytes → Command
  umount : Bytes → Command

-- `$flag && command`
abbrev pub when {ℓ} : {A : Type ℓ} → Bool → List A → List A
when true cs = cs
when false cs = []

-- The loops that drop the cgroups with no directory.
unfoldable pub existing : (Bytes → Bool) → List Bytes → List Bytes
existing is_dir [] = []
existing is_dir (cg ∷ cgs) = let rest = existing is_dir cgs in if is_dir cg then cg ∷ rest else rest

abbrev appends : Family → Chain → List Rule → List Command
appends f c [] = []
appends f c (r ∷ rs) = append f c r ∷ appends f c rs

abbrev ent_rules : Bytes → Variables → List Rule
ent_rules on_ip v =
    on socket (mark v.fwmark_tproxy)
    ∷ on socket accept
    ∷ on tcp (tproxy on_ip v.port v.fwmark_tproxy)
    ∷ on udp (tproxy on_ip v.port v.fwmark_tproxy)
    ∷ []

abbrev pre_rules : Variables → List Rule
pre_rules v =
    on to_local return
    ∷ on not_unicast return
    ∷ (when (not v.enable_gateway) (on not_from_local return ∷ [])
        ++ (when v.enable_dns (on dns (jump tproxy_ent) ∷ [])
            ++ (when v.enable_udp (on udp (jump tproxy_ent) ∷ [])
                ++ when v.enable_tcp (on tcp (jump tproxy_ent) ∷ []))))

abbrev pub mark_rules : Variables → List Rule
mark_rules v =
    on not_unicast return
    ∷ (when v.enable_dns (on dns (mark v.fwmark_reroute) ∷ [])
        ++ (when v.enable_udp (on udp (mark v.fwmark_reroute) ∷ [])
            ++ when v.enable_tcp (on tcp (mark v.fwmark_reroute) ∷ [])))

-- The two loops over the cgroups.
abbrev pub for_cgroups : Target → List Bytes → List Rule
for_cgroups t [] = []
for_cgroups t (cg ∷ cgs) = on (cgroup cg) t ∷ for_cgroups t cgs

abbrev pub out_rules : Variables → List Rule
out_rules v =
    on reply return
    ∷ (for_cgroups return v.cgroup_noproxy ++ for_cgroups (jump tproxy_mark) v.cgroup_proxy)

abbrev hook : Chain → Rule
hook c = on always (jump c)

-- The address of `--on-ip`, and whether OUTPUT is hooked.
abbrev on_ip : Family → Bytes
on_ip ipv4 = codes "127.0.0.1"
on_ip ipv6 = codes "::1"

abbrev enabled : Family → Variables → Bool
enabled ipv4 v = v.enable_ipv4
enabled ipv6 v = v.enable_ipv6

-- The part for ipv4, and the one for ipv6.
unfoldable pub start_family : Family → Variables → List Command
start_family f v =
    add_rule f v.fwmark_tproxy v.table_tproxy
    ∷ add_route f v.table_tproxy
    ∷ new f tproxy_ent
    ∷ (appends f tproxy_ent (ent_rules (on_ip f) v)
        ++ new f tproxy_pre
          ∷ (appends f tproxy_pre (pre_rules v)
              ++ append f prerouting (hook tproxy_pre)
                ∷ (when (not (bytes_eq v.fwmark_reroute v.fwmark_tproxy)) (
                      add_rule f v.fwmark_reroute v.table_reroute
                      ∷ add_route f v.table_reroute
                      ∷ [])
                    ++ new f tproxy_mark
                      ∷ (appends f tproxy_mark (mark_rules v)
                          ++ new f tproxy_out
                            ∷ (appends f tproxy_out (out_rules v)
                                ++ when (enabled f v) (append f output (hook tproxy_out) ∷ []))))))

-- `if $enable_gateway`
unfoldable pub gateway : Variables → List Command
gateway v = when v.enable_gateway (
    append ipv4 postrouting (on no_socket masquerade)
    ∷ append ipv6 postrouting (on no_socket_private masquerade)
    ∷ sysctl (codes "net.ipv4.ip_forward=1")
    ∷ sysctl (codes "net.ipv6.conf.all.forwarding=1")
    ∷ [])

-- What the script runs on the cgroups that have a directory.
unfoldable pub start : Variables → List Command
unfolding start_family gateway
start v = start_family ipv4 v ++ (start_family ipv6 v ++ gateway v)

abbrev unhook : Family → List Command
unhook f = delete f prerouting (hook tproxy_pre) ∷ delete f output (hook tproxy_out) ∷ []

abbrev unroute : Family → Variables → List Command
unroute f v =
    delete_rule f v.fwmark_tproxy v.table_tproxy
    ∷ delete_rule f v.fwmark_reroute v.table_reroute
    ∷ flush_routes f v.table_tproxy
    ∷ flush_routes f v.table_reroute
    ∷ []

abbrev on_all : (Family → Chain → Command) → Family → List Command
on_all c ipv4 = c ipv4 tproxy_pre ∷ c ipv4 tproxy_ent ∷ c ipv4 tproxy_out ∷ c ipv4 tproxy_mark ∷ []
on_all c ipv6 = c ipv6 tproxy_pre ∷ c ipv6 tproxy_out ∷ c ipv6 tproxy_ent ∷ c ipv6 tproxy_mark ∷ []

abbrev pub stop_family : Family → Variables → List Command
stop_family f v = unhook f ++ (on_all flush f ++ (on_all delete_chain f ++ unroute f v))

-- `stop` up to the unmounting: whether the chain TPROXY_ENT of ipv4 is there.
unfoldable pub stop : Bool → Variables → List Command
stop there v = when there (
    stop_family ipv4 v
    ++ (stop_family ipv6 v
        ++ delete ipv4 postrouting (on no_socket masquerade)
          ∷ delete ipv6 postrouting (on no_socket_private masquerade)
          ∷ []))
