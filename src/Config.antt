-- ===== src/Config.antt =====
-- src/config.h and src/config.cpp: the configuration.
pub mod Merge
pub mod Load
pub mod Env
pub mod Save
use cgproxy.Base.{ℕ, Bool, true, false, List, [], ◌∷◌, Bytes, bytes_eq, codes, if◌then◌else◌}
use cgproxy.Base.Int.{ℤ, pos}
use cgproxy.Constants.{cgroup_proxy_preserved, cgroup_noproxy_preserved}

-- The fields that change. The two `const` ones are constants of `Constants`.
pub record Config : Type 0 where
  pub program_proxy : List Bytes
  pub program_noproxy : List Bytes
  pub cgroup_proxy : List Bytes
  pub cgroup_noproxy : List Bytes
  pub enable_gateway : Bool
  pub port : ℤ
  pub enable_dns : Bool
  pub enable_tcp : Bool
  pub enable_udp : Bool
  pub enable_ipv4 : Bool
  pub enable_ipv6 : Bool
  pub table : ℤ
  pub fwmark : ℤ
  pub mark_newin : ℤ

-- The initial values.
abbrev pub default_config : Config
default_config = record {
  program_proxy = cgroup_proxy_preserved ∷ [];
  program_noproxy = cgroup_noproxy_preserved ∷ [];
  cgroup_proxy = [];
  cgroup_noproxy = [];
  enable_gateway = false;
  port = pos 12345;
  enable_dns = true;
  enable_tcp = true;
  enable_udp = true;
  enable_ipv4 = true;
  enable_ipv6 = true;
  table = pos 10007;
  fwmark = pos 0x9973;
  mark_newin = pos 0x9967;
}

-- `v.erase(std::remove(v.begin(), v.end(), x), v.end())`
pub remove : Bytes → List Bytes → List Bytes
remove x [] = []
remove x (y ∷ ys) = let rest = remove x ys in if bytes_eq y x then rest else y ∷ rest

-- The macro `merge`.
unfoldable pub merge : Bytes → List Bytes → List Bytes
unfolding remove
merge preserved v = preserved ∷ remove preserved v

unfoldable pub merge_reserved : Config → Config
merge_reserved c = record c {
  cgroup_proxy = merge cgroup_proxy_preserved c.cgroup_proxy;
  cgroup_noproxy = merge cgroup_noproxy_preserved c.cgroup_noproxy;
}
