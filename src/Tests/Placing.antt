-- ===== src/Tests/Placing.antt =====
-- Processes that are moved, on the machine.
use cgproxy.Base.{some, [], ◌∷◌, ◌++◌, Bytes, codes, bytes_eq, contains, ◌≡◌, refl, arith}
use cgproxy.Base.Int.{pos}
use cgproxy.Base.Decimal.{show_ℕ, show_ℤ}
use cgproxy.Constants.{cgroup2_mount_point, cgroup_proxy_preserved, success}
use cgproxy.Effect.{returned}
use cgproxy.Text.{belong_to_cgroup, belong_to_any, start_with}
use cgproxy.Valid.{valid_pid, valid_cgroup}
use cgproxy.Proc.{get_cgroup, file_exist, dir_exist, lines, lines_onto, find_cgroup}
use cgproxy.Proc.Cgroups.{unlines, unified, get_cgroup-unified}
use cgproxy.Attach.{
  validate, write2procs, check_again, move, move_if_needed, ensure_dir, attach, attach_int,
}
use cgproxy.Attach.Laws.{IsSettled, attach-IsSettled}
use cgproxy.Config.{Config, default_config}
use cgproxy.Daemon.Place.{
  is_preserved, exe_link, settle, place, place_listed, place_last, place_by_path, handle_pid,
}
use cgproxy.Daemon.Place.Laws.{policy, carry_out, handle_pid-policy}
use cgproxy.Tests.Machine.{Machine, machine, machine-MovesWritten, regular, has_newline-IsLine}

abbrev pub firefox : Bytes
firefox = codes "/usr/bin/firefox"

abbrev pub browsing : Config
browsing = record default_config {
  program_proxy = firefox ∷ [];
  program_noproxy = codes "/usr/bin/ssh" ∷ [];
}

-- Process 42 runs firefox in this cgroup.
abbrev pub running_in : Bytes → Machine
running_in cg = record {
  uid = 0;
  pid = pos 7;
  files = (codes "/proc/42/cgroup", unlines (codes "1:cpu:/x" ∷ unified cg ∷ [])) ∷ [];
  dirs = (cgroup2_mount_point ++ cgroup_proxy_preserved) ∷ [];
  links = (codes "/proc/42/exe", firefox) ∷ [];
  ran = [];
}

abbrev pub in_user : Machine
in_user = running_in (codes "/user.slice")

abbrev in_proxy : Machine
in_proxy = running_in (codes "/proxy.slice/a")

pub at_user : get_cgroup machine (show_ℤ (pos 42)) in_user ≡ returned (codes "/user.slice")
unfolding get_cgroup file_exist lines lines_onto find_cgroup show_ℤ show_ℕ bytes_eq
at_user = refl

at_proxy : get_cgroup machine (show_ℤ (pos 42)) in_proxy ≡ returned (codes "/proxy.slice/a")
unfolding get_cgroup file_exist lines lines_onto find_cgroup show_ℤ show_ℕ bytes_eq
at_proxy = refl

pub exe_of :
    (cg : Bytes) → machine.realpath (exe_link machine (pos 42)) (running_in cg) ≡ some firefox
unfolding show_ℤ show_ℕ bytes_eq
exe_of cg = refl

pub chosen : policy browsing firefox (codes "/user.slice") ≡ some cgroup_proxy_preserved
unfolding policy is_preserved belong_to_cgroup belong_to_any start_with contains bytes_eq
chosen = refl

handle_pid-policy_example :
    handle_pid machine browsing (pos 42) in_user
    ≡ carry_out machine (pos 42) (policy browsing firefox (codes "/user.slice")) in_user
handle_pid-policy_example =
    handle_pid-policy machine browsing (pos 42) in_user (exe_of (codes "/user.slice")) at_user

pub answers_0 : (handle_pid machine browsing (pos 42) in_user).0 ≡ returned success
unfolding handle_pid place_by_path place_last place_listed place settle is_preserved
    belong_to_cgroup belong_to_any start_with contains attach attach_int ensure_dir dir_exist
    validate valid_pid valid_cgroup write2procs move move_if_needed check_again get_cgroup
    file_exist lines lines_onto find_cgroup show_ℤ show_ℕ bytes_eq
answers_0 = refl

attached :
    (attach machine cgroup2_mount_point (codes "42") cgroup_proxy_preserved in_user).0
    ≡ returned success
unfolding attach ensure_dir dir_exist validate valid_pid valid_cgroup write2procs move
    move_if_needed check_again get_cgroup file_exist lines lines_onto find_cgroup bytes_eq contains
attached = refl

attach-IsSettled_example :
    IsSettled machine
      (codes "42")
      cgroup_proxy_preserved
      (attach machine cgroup2_mount_point (codes "42") cgroup_proxy_preserved in_user).1
attach-IsSettled_example =
    attach-IsSettled machine cgroup2_mount_point (codes "42") cgroup_proxy_preserved
      machine-MovesWritten in_user attached

there_already :
    get_cgroup machine (codes "42") (running_in cgroup_proxy_preserved)
    ≡ returned cgroup_proxy_preserved
unfolding get_cgroup file_exist lines lines_onto find_cgroup bytes_eq
there_already = refl

get_cgroup-unified_example :
    get_cgroup machine (codes "42") in_user ≡ returned (codes "/user.slice")
unfolding bytes_eq
get_cgroup-unified_example =
    get_cgroup-unified machine (codes "42") (codes "/user.slice") in_user {st = regular}
      (codes "1:cpu:/x" ∷ []) [] refl refl refl
      (
        has_newline-IsLine (codes "1:cpu:/x") refl,
        (has_newline-IsLine (unified (codes "/user.slice")) refl, tt),
      )
      ((λ e. omega (arith, e)), tt)
