-- ===== src/Config/Env.antt =====
-- `toEnv`: the configuration as environment variables of cgroup-tproxy.sh.
pub mod Lists
pub mod Kept
use cgproxy.Base.{Bool, true, false, List, [], ◌∷◌, Bytes, codes}
use cgproxy.Base.Decimal.{show_ℤ}
use cgproxy.Constants.{cgroup2_mount_point}
use cgproxy.Text.{join2str}
use cgproxy.System.{Os}
use cgproxy.Config.{Config}

-- `std::boolalpha`
abbrev pub show_bool : Bool → Bytes
show_bool true = codes "true"
show_bool false = codes "false"

-- The variables in the order in which they are set.
unfoldable pub env_of : Config → List (Bytes × Bytes)
env_of c =
    (codes "cgroup_mount_point", cgroup2_mount_point)
    ∷ (codes "program_proxy", join2str c.program_proxy b':')
    ∷ (codes "program_noproxy", join2str c.program_noproxy b':')
    ∷ (codes "cgroup_proxy", join2str c.cgroup_proxy b':')
    ∷ (codes "cgroup_noproxy", join2str c.cgroup_noproxy b':')
    ∷ (codes "enable_gateway", show_bool c.enable_gateway)
    ∷ (codes "port", show_ℤ c.port)
    ∷ (codes "enable_dns", show_bool c.enable_dns)
    ∷ (codes "enable_tcp", show_bool c.enable_tcp)
    ∷ (codes "enable_udp", show_bool c.enable_udp)
    ∷ (codes "enable_ipv4", show_bool c.enable_ipv4)
    ∷ (codes "enable_ipv6", show_bool c.enable_ipv6)
    ∷ (codes "table", show_ℤ c.table)
    ∷ (codes "fwmark", show_ℤ c.fwmark)
    ∷ (codes "mark_newin", show_ℤ c.mark_newin)
    ∷ []

module _ (os : Os) where
  unfoldable pub set_all : List (Bytes × Bytes) → os.State → os.State
  set_all [] s = s
  set_all ((k, v) ∷ vars) s = set_all vars (os.setenv k v s)

  unfoldable pub to_env : Config → os.State → os.State
  unfolding set_all env_of
  to_env c s = set_all (env_of c) s
