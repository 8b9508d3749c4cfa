-- ===== src/Daemon/Place/Laws.antt =====
-- The policy that `handle_pid` and `processRunningProgram` carry out.
use cgproxy.Base.{
  true, false, not, ◌&&◌, ◌||◌, Option, none, some, List, [], ◌∷◌, Bytes, is_empty, contains,
  if◌then◌else◌, ◌≡◌, ◌≢◌, inl, inr, refl, ◌∙◌, ap, arith, All, Bool-cases,
}
use cgproxy.Base.Int.{ℤ, pos}
use cgproxy.Base.Decimal.{show_ℤ}
use cgproxy.Constants.{
  cgroup2_mount_point, cgroup_proxy_preserved, cgroup_noproxy_preserved, success,
}
use cgproxy.Effect.{returned, M, ret}
use cgproxy.System.{Os}
use cgproxy.Text.{belong_to_any}
use cgproxy.Proc.{get_cgroup}
use cgproxy.Attach.{attach, attach_int}
use cgproxy.Attach.Laws.{MovesWritten, IsSettled, attach-IsSettled}
use cgproxy.Config.{Config}
use cgproxy.Daemon.Place.{
  Target, is_preserved, exe_link, settle, place, place_listed, place_last, place_by_path,
  handle_pid, place_pids,
}

-- The preserved cgroup to which a process belongs by its program, if it is not in one already.
unfoldable pub policy : Config → Bytes → Bytes → Option Bytes
policy c path cg =
    if is_empty cg || is_preserved cg
    then none
    else if contains path c.program_noproxy && not (belong_to_any cg c.cgroup_noproxy)
    then some cgroup_noproxy_preserved
    else if contains path c.program_proxy && not (belong_to_any cg c.cgroup_proxy)
    then some cgroup_proxy_preserved
    else none

module _ (os : Os) where
  open os use {State}

  -- A move to a cgroup, or none.
  abbrev pub carry_out : ℤ → Option Bytes → M State ℤ
  carry_out pid none = ret (pos 0)
  carry_out pid (some cg) = attach_int os cgroup2_mount_point pid cg

  -- For a process whose program and cgroup can be read, handle_pid does exactly what the policy
  -- says: it attaches the process to the preserved cgroup that the policy names and answers as
  -- attach does, or changes nothing and answers 0; programs in program_noproxy come first.
  pub handle_pid-policy :
      (c : Config) (pid : ℤ) (s : State) {path cg : Bytes}
      → os.realpath (exe_link os pid) s ≡ some path
      → get_cgroup os (show_ℤ pid) s ≡ returned cg
      → handle_pid os c pid s ≡ carry_out pid (policy c path cg) s
  unfolding handle_pid place_by_path place_last place_listed place settle policy
  handle_pid-policy c pid s exe at = ground arith

  -- A process that runs under one of the preserved cgroups is left alone by handle_pid, whatever
  -- the configuration says.
  pub handle_pid-preserved :
      (c : Config) (pid : ℤ) (s : State) {cg : Bytes}
      → get_cgroup os (show_ℤ pid) s ≡ returned cg
      → is_preserved cg ≡ true
      → handle_pid os c pid s ≡ (returned (pos 0), s)
  unfolding handle_pid place_by_path place_last place_listed place settle
  handle_pid-preserved c pid s at pre = ground arith

  -- A program in both lists whose process is in a configured cgroup_noproxy, and neither preserved
  -- nor in a cgroup_proxy, is proxied: the first block falls through to the second.
  handle_pid_falls_through :
      (c : Config) (pid : ℤ) (s : State) {path cg : Bytes}
      → os.realpath (exe_link os pid) s ≡ some path
      → get_cgroup os (show_ℤ pid) s ≡ returned cg
      → cg ≢ []
      → is_preserved cg ≡ false
      → contains path c.program_noproxy ≡ true
      → belong_to_any cg c.cgroup_noproxy ≡ true
      → contains path c.program_proxy ≡ true
      → belong_to_any cg c.cgroup_proxy ≡ false
      → handle_pid os c pid s ≡ attach_int os cgroup2_mount_point pid cgroup_proxy_preserved s
  unfolding handle_pid place_by_path place_last place_listed place settle
  handle_pid_falls_through c pid s exe at ne pre np inp p inq = ground arith

  -- Where the policy names a cgroup and handle_pid answers 0, the process is in that cgroup, or is
  -- gone, if a write to cgroup.procs moves the process.
  pub handle_pid-IsSettled :
      MovesWritten os cgroup2_mount_point
      → (c : Config) (pid : ℤ) (s : State) {path cg target : Bytes}
      → os.realpath (exe_link os pid) s ≡ some path
      → get_cgroup os (show_ℤ pid) s ≡ returned cg
      → policy c path cg ≡ some target
      → (handle_pid os c pid s).0 ≡ returned success
      → IsSettled os (show_ℤ pid) target (handle_pid os c pid s).1
  unfolding attach_int
  handle_pid-IsSettled moves c pid s {path} {cg} {target} exe at names ok =
      let same : handle_pid os c pid s ≡ attach os cgroup2_mount_point (show_ℤ pid) target s =
        handle_pid-policy c pid s exe at ∙ ap (λ t. carry_out pid t s) names in
      rw same (attach-IsSettled os cgroup2_mount_point (show_ℤ pid) target moves s (rw same at ok))

  -- All of these processes run under a preserved cgroup.
  abbrev ArePreserved : List ℤ → State → Type 0
  ArePreserved pids s =
      All
        (λ pid.
          (cg : Bytes) × (get_cgroup os (show_ℤ pid) s ≡ returned cg) × (is_preserved cg ≡ true))
        pids

  place-preserved :
      (t : Target) (pid : ℤ) (s : State) {cg : Bytes}
      → get_cgroup os (show_ℤ pid) s ≡ returned cg
      → is_preserved cg ≡ true
      → ((o : Option ℤ) × (place os t pid s ≡ (returned o, s)))
  unfolding place settle
  place-preserved t pid s {cg} at pre = elim (Bool-cases (is_empty cg)) [
    | inl empty ↦ (some (pos 0), ground arith)
    | inr full ↦ (some (pos 0), ground arith)
  ]

  -- The scan of running processes leaves those that run under a preserved cgroup alone, whatever
  -- list their program is in.
  place_pids-preserved :
      (t : Target) (pids : List ℤ) (s : State)
      → ArePreserved pids s
      → place_pids os t pids s ≡ (returned tt, s)
  unfolding place_pids
  place_pids-preserved t [] s h = refl
  place_pids-preserved t (pid ∷ pids) s ((cg, at, pre), rest) =
      let (o, e) = place-preserved t pid s at pre in rw e (place_pids-preserved t pids s rest)
