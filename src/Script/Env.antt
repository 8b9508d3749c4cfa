-- ===== src/Script/Env.antt =====
-- cgroup-tproxy.sh: the variables of the script, from the environment or with their defaults.
pub mod Laws
use cgproxy.Base.{Bool, Option, none, some, List, [], ◌∷◌, Bytes, codes, bytes_eq}
use cgproxy.Config.Env.Lists.{read_array}

pub record Variables : Type 0 where
  pub cgroup_proxy : List Bytes
  pub cgroup_noproxy : List Bytes
  pub port : Bytes
  pub enable_dns : Bool
  pub enable_udp : Bool
  pub enable_tcp : Bool
  pub enable_ipv4 : Bool
  pub enable_ipv6 : Bool
  pub enable_gateway : Bool
  pub table_reroute : Bytes
  pub table_tproxy : Bytes
  pub fwmark_reroute : Bytes
  pub fwmark_tproxy : Bytes
  pub cgroup_mount_point : Bytes

-- `[ -z ${name+x} ] && name=default`
abbrev or_default : Option Bytes → Bytes → Bytes
or_default none default = default
or_default (some v) default = v

abbrev list_or : Option Bytes → Bytes → List Bytes
list_or none default = default ∷ []
list_or (some v) default = read_array v

-- `$flag` is run as a command: `true` or `false`, which is what `toEnv` writes. Other commands are not
-- modelled.
abbrev is_true : Bytes → Bool
is_true flag = bytes_eq flag (codes "true")

module _ (getenv : Bytes → Option Bytes) where
  abbrev value_or : Bytes → Bytes → Bytes
  value_or name default = or_default (getenv name) default

  -- `found` is what `findmnt` prints.
  unfoldable pub read_variables : Bytes → Variables
  read_variables found =
      let table = value_or (codes "table") (codes "10007") in
      let fwmark = value_or (codes "fwmark") (codes "0x9973") in
      record {
        cgroup_proxy = list_or (getenv (codes "cgroup_proxy")) (codes "/proxy.slice");
        cgroup_noproxy = list_or (getenv (codes "cgroup_noproxy")) (codes "/noproxy.slice");
        port = value_or (codes "port") (codes "12345");
        enable_dns = is_true (value_or (codes "enable_dns") (codes "true"));
        enable_udp = is_true (value_or (codes "enable_udp") (codes "true"));
        enable_tcp = is_true (value_or (codes "enable_tcp") (codes "true"));
        enable_ipv4 = is_true (value_or (codes "enable_ipv4") (codes "true"));
        enable_ipv6 = is_true (value_or (codes "enable_ipv6") (codes "true"));
        enable_gateway = is_true (value_or (codes "enable_gateway") (codes "false"));
        table_reroute = value_or (codes "table_reroute") table;
        table_tproxy = value_or (codes "table_tproxy") table;
        fwmark_reroute = value_or (codes "fwmark_reroute") fwmark;
        fwmark_tproxy = value_or (codes "fwmark_tproxy") fwmark;
        cgroup_mount_point = value_or (codes "cgroup_mount_point") found;
      }
