-- ===== src/Script/Env/Laws.antt =====
-- The variables that cgroup-tproxy.sh finds in the environment that `toEnv` leaves.
use cgproxy.Base.{
  Bool, true, false, Option, none, some, List, [], ◌∷◌, ◌++◌, Bytes, codes, bytes_eq, contains, ◌≡◌,
  refl, sym, ap, ◌∙◌,
}
use cgproxy.Base.Decimal.{show_ℤ}
use cgproxy.Constants.{cgroup2_mount_point}
use cgproxy.Text.{join2str}
use cgproxy.Valid.{valid_cgroups}
use cgproxy.System.{Os}
use cgproxy.Config.{Config}
use cgproxy.Config.Env.{env_of, show_bool, to_env}
use cgproxy.Config.Env.Kept.{Environment, absent, set_all-absent, to_env-InEnv}
use cgproxy.Config.Env.Lists.{read_array, read_array-join2str}
use cgproxy.Script.Env.{Variables, is_true, or_default, list_or, read_variables}

-- The variables of a configuration.
abbrev pub variables_of : Config → Variables
variables_of c = record {
  cgroup_proxy = c.cgroup_proxy;
  cgroup_noproxy = c.cgroup_noproxy;
  port = show_ℤ c.port;
  enable_dns = c.enable_dns;
  enable_udp = c.enable_udp;
  enable_tcp = c.enable_tcp;
  enable_ipv4 = c.enable_ipv4;
  enable_ipv6 = c.enable_ipv6;
  enable_gateway = c.enable_gateway;
  table_reroute = show_ℤ c.table;
  table_tproxy = show_ℤ c.table;
  fwmark_reroute = show_ℤ c.fwmark;
  fwmark_tproxy = show_ℤ c.fwmark;
  cgroup_mount_point = cgroup2_mount_point;
}

-- A list of valid cgroups, the last of which is there once.
abbrev pub EndsOnce : List Bytes → Type 0
EndsOnce cgs =
    (ws : List Bytes) × (l : Bytes) × (cgs ≡ ws ++ l ∷ [])
    × (valid_cgroups cgs ≡ true)
    × (contains l ws ≡ false)

read_back : (cgs : List Bytes) → EndsOnce cgs → read_array (join2str cgs b':') ≡ cgs
read_back cgs (ws, l, e, valid, once) =
    ap (λ xs. read_array (join2str xs b':')) e
    ∙ read_array-join2str ws l (ap valid_cgroups (sym e) ∙ valid) once
    ∙ sym e

is_true-show_bool : (b : Bool) → is_true (show_bool b) ≡ b
unfolding bytes_eq
is_true-show_bool true = refl
is_true-show_bool false = refl

flag_back :
    (v : Option Bytes) (d : Bytes) (b : Bool)
    → v ≡ some (show_bool b)
    → is_true (or_default v d) ≡ b
flag_back v d b e = ap (λ w. is_true (or_default w d)) e ∙ is_true-show_bool b

module _ (os : Os) (e : Environment os) (c : Config) (s : os.State) where
  unset :
      (k : Bytes)
      → absent os e k (env_of c) ≡ true
      → e.getenv k s ≡ none
      → e.getenv k (to_env os c s) ≡ none
  unfolding to_env
  unset k h none_before = set_all-absent os e k (env_of c) s h ∙ none_before

  -- A variable that falls back on another.
  numbered :
      (k d : Bytes) {v : Option Bytes} {w : Bytes}
      → v ≡ some w
      → absent os e k (env_of c) ≡ true
      → e.getenv k s ≡ none
      → or_default (e.getenv k (to_env os c s)) (or_default v d) ≡ w
  numbered k d {v} {w} set h free =
      ap (λ x. or_default x (or_default v d)) (unset k h free) ∙ ap (λ x. or_default x d) set

  -- The variables that the script takes from the environment that toEnv leaves are those of the
  -- configuration: the two lists of cgroups, the port, the six switches, and the table and the mark
  -- for both purposes, if each list consists of valid cgroups and ends in one that is nowhere
  -- before, and none of the four variables of the tables and marks was set.
  pub read_variables-to_env :
      (found : Bytes)
      → EndsOnce c.cgroup_proxy
      → EndsOnce c.cgroup_noproxy
      → e.getenv (codes "table_reroute") s ≡ none
      → e.getenv (codes "table_tproxy") s ≡ none
      → e.getenv (codes "fwmark_reroute") s ≡ none
      → e.getenv (codes "fwmark_tproxy") s ≡ none
      → read_variables (λ k. e.getenv k (to_env os c s)) found ≡ variables_of c
  unfolding read_variables env_of bytes_eq
  read_variables-to_env found proxy noproxy free_tr free_tt free_fr free_ft i =
      let h = to_env-InEnv os e c s in
      record {
        cgroup_proxy =
            (ap (λ v. list_or v (codes "/proxy.slice")) h.1.1.1.0 ∙ read_back c.cgroup_proxy proxy)
              i;
        cgroup_noproxy =
            (ap (λ v. list_or v (codes "/noproxy.slice")) h.1.1.1.1.0
                ∙ read_back c.cgroup_noproxy noproxy)
              i;
        port = ap (λ v. or_default v (codes "12345")) h.1.1.1.1.1.1.0 i;
        enable_dns = flag_back _ (codes "true") c.enable_dns h.1.1.1.1.1.1.1.0 i;
        enable_udp = flag_back _ (codes "true") c.enable_udp h.1.1.1.1.1.1.1.1.1.0 i;
        enable_tcp = flag_back _ (codes "true") c.enable_tcp h.1.1.1.1.1.1.1.1.0 i;
        enable_ipv4 = flag_back _ (codes "true") c.enable_ipv4 h.1.1.1.1.1.1.1.1.1.1.0 i;
        enable_ipv6 = flag_back _ (codes "true") c.enable_ipv6 h.1.1.1.1.1.1.1.1.1.1.1.0 i;
        enable_gateway = flag_back _ (codes "false") c.enable_gateway h.1.1.1.1.1.0 i;
        table_reroute =
            numbered (codes "table_reroute") (codes "10007") h.1.1.1.1.1.1.1.1.1.1.1.1.0 refl
              free_tr i;
        table_tproxy =
            numbered (codes "table_tproxy") (codes "10007") h.1.1.1.1.1.1.1.1.1.1.1.1.0 refl free_tt
              i;
        fwmark_reroute =
            numbered (codes "fwmark_reroute") (codes "0x9973") h.1.1.1.1.1.1.1.1.1.1.1.1.1.0 refl
              free_fr i;
        fwmark_tproxy =
            numbered (codes "fwmark_tproxy") (codes "0x9973") h.1.1.1.1.1.1.1.1.1.1.1.1.1.0 refl
              free_ft i;
        cgroup_mount_point = ap (λ v. or_default v found) h.0 i;
      }
