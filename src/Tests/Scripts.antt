-- ===== src/Tests/Scripts.antt =====
-- A kernel that keeps the tables of the two families, and a netfilter.
use cgproxy.Base.{
  true, false, not, ◌&&◌, Option, none, some, List, [], ◌∷◌, Bytes, codes, contains, if◌then◌else◌,
  ◌≡◌, inl, inr, refl,
}
use cgproxy.Valid.{valid_cgroup, valid_cgroups}
use cgproxy.Config.{Config, default_config}
use cgproxy.Config.Env.{to_env}
use cgproxy.Script.Env.{Variables, read_variables}
use cgproxy.Script.Env.Laws.{variables_of, read_variables-to_env}
use cgproxy.Script.{
  Family, ipv4, ipv6, Chain, tproxy_out, tcp, cgroup, Target, return, accept, jump, mark, Rule, on,
  start,
}
use cgproxy.Script.Tables.{Tables, Kernel, Obeys, effect, run_all}
use cgproxy.Script.Marks.{Packet, Netfilter, Falls, in_any, proxies}
use cgproxy.Script.Started.{bare}
use cgproxy.Script.Stopped.{IsFree}
use cgproxy.Script.Laws.{rules_of, start-marks}
use cgproxy.Script.Main.{Shell, stop_word, script}
use cgproxy.Script.Rounds.{script-restores}
use cgproxy.Tests.Machine.{lookup}
use cgproxy.Tests.Variables.{shell, environment}

abbrev tables_of : Family → Tables × Tables → Tables
tables_of ipv4 s = s.0
tables_of ipv6 s = s.1

abbrev kernel : Kernel
kernel = record {
  State = Tables × Tables;
  run = λ c s. (effect ipv4 c s.0, effect ipv6 c s.1);
  tables = tables_of;
}

obeys : Obeys kernel
obeys ipv4 c s = refl
obeys ipv6 c s = refl

-- The mount point is there.
abbrev bash : Shell kernel
bash = record {
  is_root = true;
  is_dir = λ _ _. true;
  is_cgroup2 = λ _ _. true;
  mkdir_p = λ _ s. s;
  mkdir = λ _ s. (true, s);
  mount_cgroup2 = λ _ s. s;
  source = λ _ v s. (v, s);
}

-- One rule of somebody else.
abbrev before : Tables
before = bare (on tcp accept ∷ []) [] [] [] []

abbrev two_lists : Config
two_lists = record default_config {
  cgroup_proxy = codes "/proxy.slice" ∷ [];
  cgroup_noproxy = codes "/noproxy.slice" ∷ [];
}

abbrev default_variables : Variables
default_variables = variables_of two_lists

free : (f : Family) → IsFree f default_variables before
unfolding contains
free f = (
  refl,
  refl,
  refl,
  refl,
  (refl, refl, refl, refl),
  (refl, refl, refl, refl),
  (refl, refl, refl, refl),
  tt,
  tt,
  tt,
  refl,
  refl,
)

all_free : (f : Family) → IsFree f default_variables (tables_of f (before, before))
all_free ipv4 = free ipv4
all_free ipv6 = free ipv6

script-restores_example :
    tables_of ipv6
      (script kernel bash
        (stop_word ∷ [])
        default_variables
        (script kernel bash [] default_variables (before, before)).1).1
    ≡ before
script-restores_example =
    script-restores kernel bash obeys ((λ f path s. refl), (λ f path s. refl), (λ f path s. refl))
      ipv6 default_variables (before, before) all_free

abbrev hit :
    (Chain → Option Bytes → Option Bytes)
    → Target
    → (Option Bytes → Option Bytes)
    → Option Bytes
    → Option Bytes
hit sub return rest m = m
hit sub (mark k) rest m = rest (some k)
hit sub (jump c) rest m = rest (sub c m)
hit sub _ rest m = rest m

-- A chain that is called, and jumps no further.
abbrev fall : Packet → List Rule → Option Bytes → Option Bytes
fall p [] m = m
fall p (r ∷ rs) m = if p r.cond then hit (λ _ n. n) r.target (fall p rs) m else fall p rs m

abbrev walk : (Chain → List Rule) → Packet → List Rule → Option Bytes → Option Bytes
walk cs p [] m = m
walk cs p (r ∷ rs) m =
    if p r.cond then hit (λ c. fall p (cs c)) r.target (walk cs p rs) m else walk cs p rs m

walk-Falls :
    (cs : Chain → List Rule) (p : Packet) (rs : List Rule) (m : Option Bytes)
    → Falls rs
    → walk cs p rs m ≡ fall p rs m
walk-Falls cs p [] m h = refl
walk-Falls cs p (r ∷ rs) m (inl returns, h) = rw (returns, walk-Falls cs p rs m h) refl
walk-Falls cs p (r ∷ rs) m (inr (k, marks), h) =
    rw (marks, walk-Falls cs p rs m h, walk-Falls cs p rs (some k) h) refl

abbrev netfilter : Netfilter
netfilter = record {
  walk = walk;
  ends = λ cs p m. refl;
  skips = λ cs p r rs m no. rw no refl;
  returns = λ cs p c rs m yes'. rw yes' refl;
  marks = λ cs p c k rs m yes'. rw yes' refl;
  jumps = λ cs p c d rs m yes' falls. rw (yes', walk-Falls cs p (cs d) m falls) refl;
}

-- A packet of a proxied process.
abbrev packet : Packet
packet tcp = true
packet (cgroup _) = true
packet _ = false

start-marks_example :
    let cs : Chain → List Rule =
      rules_of (run_all kernel (start default_variables) (before, before)).0 in
    walk cs packet (cs tproxy_out) none ≡ (
      if not false
        && not (in_any packet default_variables.cgroup_noproxy)
        && in_any packet default_variables.cgroup_proxy
        && proxies default_variables packet
      then some default_variables.fwmark_reroute
      else none)
start-marks_example =
    start-marks kernel obeys default_variables (before, before) all_free netfilter packet none ipv4

read_variables-to_env_example :
    read_variables (λ k. lookup k (to_env shell two_lists [])) (codes "/sys/fs/cgroup")
    ≡ default_variables
unfolding valid_cgroups valid_cgroup contains
read_variables-to_env_example =
    read_variables-to_env shell environment two_lists [] (codes "/sys/fs/cgroup")
      ([], codes "/proxy.slice", refl, refl, refl) ([], codes "/noproxy.slice", refl, refl, refl)
      refl refl refl refl
