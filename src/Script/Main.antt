-- ===== src/Script/Main.antt =====
-- cgroup-tproxy.sh: its arguments, the mount point and the directories of the cgroups.
use cgproxy.Base.{
  ℕ, Bool, true, false, ◌&&◌, Option, none, some, List, [], ◌∷◌, ◌++◌, Bytes, is_empty,
  if◌then◌else◌,
}
use cgproxy.Script.Env.{Variables}
use cgproxy.Script.{ipv4, tproxy_ent, Rule, umount, existing, start, stop}
use cgproxy.Script.Tables.{Kernel, run_all, chain}

-- An argument. `other` is one that the script does not know.
pub data Argument : Type 0 where
  stop_word help other : Argument
  config : Bytes → Argument

-- The calls of the shell that the script makes beside those of the tables.
pub record Shell (k : Kernel) : Type 0 where
  pub is_root : Bool
  pub is_dir : Bytes → k.State → Bool
  pub is_cgroup2 : Bytes → k.State → Bool
  pub mkdir_p : Bytes → k.State → k.State
  pub mkdir : Bytes → k.State → Bool × k.State
  pub mount_cgroup2 : Bytes → k.State → k.State
  -- What a file that is sourced makes of the variables.
  pub source : Bytes → Variables → k.State → Variables × k.State

-- `-L TPROXY_ENT` finds the chain.
abbrev pub is_there : Option (List Rule) → Bool
is_there none = false
is_there (some _) = true

-- The first cgroup: `$cgroup_proxy` of an array.
abbrev pub first_cgroup : List Bytes → Bytes
first_cgroup [] = []
first_cgroup (cg ∷ _) = cg

module _ (k : Kernel) (sh : Shell k) where
  open k use {State}
  open sh use {is_root, is_dir, is_cgroup2, mkdir_p, mkdir, mount_cgroup2, source}

  -- A step after one that does not exit.
  unfoldable pub and_then : Bool × State → (State → Bool × State) → Bool × State
  and_then (true, s) next = next s
  and_then (false, s) next = (false, s)

  -- The check of the mount point, which is made and mounted where it has to be.
  unfoldable pub ready_mount_point : Bytes → State → Bool × State
  ready_mount_point mp s =
      let s1 : State = if is_dir mp s then s else mkdir_p mp s in
      let s2 : State = if is_cgroup2 mp s1 then s1 else mount_cgroup2 mp s1 in
      if is_empty mp then (false, s) else (is_cgroup2 mp s2, s2)

  -- `test -d … || mkdir …`
  unfoldable pub ready_dir : Bytes → State → Bool × State
  ready_dir path s = if is_dir path s then (true, s) else mkdir path s

  unfoldable pub prepare : Variables → State → Bool × State
  prepare v s =
      let mp = v.cgroup_mount_point in
      and_then (ready_mount_point mp s) (λ s1.
        and_then (ready_dir (mp ++ first_cgroup v.cgroup_proxy) s1)
          (λ s2. ready_dir (mp ++ first_cgroup v.cgroup_noproxy) s2))

  -- The cgroups that have a directory.
  unfoldable pub filtered : Variables → State → Variables
  filtered v s = record v {
    cgroup_proxy = existing (λ cg. is_dir (v.cgroup_mount_point ++ cg) s) v.cgroup_proxy;
    cgroup_noproxy = existing (λ cg. is_dir (v.cgroup_mount_point ++ cg) s) v.cgroup_noproxy;
  }

  unfoldable pub started_from : Variables → Bool × State → ℕ × State
  started_from v (true, s) = (0, run_all k (start (filtered v s)) s)
  started_from v (false, s) = (255, s)

  -- `stop`, with the unmounting.
  unfoldable pub stop_all : Variables → State → State
  stop_all v s =
      let there = is_there (chain tproxy_ent (k.tables ipv4 s)) in
      let s1 : State = run_all k (stop there v) s in
      let mp = v.cgroup_mount_point in
      if there && is_cgroup2 mp s1 then k.run (umount mp) s1 else s1

  -- The loop over the arguments and what follows: the exit code, and the state.
  unfoldable pub run_arguments : List Argument → Variables → State → ℕ × State
  unfolding prepare started_from stop_all
  run_arguments [] v s = started_from v (prepare v s)
  run_arguments (stop_word ∷ _) v s = (0, stop_all v s)
  run_arguments (config file ∷ args) v s =
      let (v', s') = source file v s in run_arguments args v' s'
  run_arguments (_ ∷ _) v s = (0, s)

  -- The whole script.
  unfoldable pub script : List Argument → Variables → State → ℕ × State
  unfolding run_arguments
  script args v s = if is_root then run_arguments args v s else (255, s)
