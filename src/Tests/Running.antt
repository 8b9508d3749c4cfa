-- ===== src/Tests/Running.antt =====
-- The scan of running processes: process 42 runs ssh, and is moved or not.
use cgproxy.Base.{
  Bool, true, false, ◌&&◌, none, some, [], ◌∷◌, ◌++◌, Bytes, codes, bytes_eq, bytes_eq_iff,
  contains, drop, if◌then◌else◌, ◌≡◌, ◌≢◌, refl, sym, ap, ◌∙◌, arith, inl, inr, Bool-cases,
}
use cgproxy.Base.Int.{pos}
use cgproxy.Base.Decimal.{show_ℕ, show_ℤ}
use cgproxy.Constants.{cgroup2_mount_point, cgroup_noproxy_preserved, success}
use cgproxy.Effect.{returned, Returns}
use cgproxy.System.{Os, Append, bad, written}
use cgproxy.Text.{belong_to_cgroup, belong_to_any, start_with}
use cgproxy.Valid.{valid_pid, valid_cgroup}
use cgproxy.Proc.{get_cgroup, cgroup_file, file_exist, dir_exist, lines, lines_onto, find_cgroup}
use cgproxy.Proc.Cgroups.{unlines, unified}
use cgproxy.Pidof.Laws.{pidof_text}
use cgproxy.Attach.{
  validate, write2procs, check_again, move, move_if_needed, ensure_dir, attach, attach_int,
}
use cgproxy.Attach.Laws.{MovesWritten, IsSettled, procs_file}
use cgproxy.Attach.Frame.{IsQuiet}
use cgproxy.Config.{Config, default_config}
use cgproxy.Daemon.Place.{is_preserved, process_running_program}
use cgproxy.Daemon.Place.Scan.{PrintsPids, Finds}
use cgproxy.Daemon.Place.Scan.Found.{process_running_program-IsSettled}
use cgproxy.Tests.Machine.{machine, drop_end, drop_end-append, cgroup_of, cgroup_of-procs_file}

abbrev file_42 : Bytes
file_42 = codes "/proc/42/cgroup"

abbrev user : Bytes
user = codes "/user.slice"

-- Where the process is: moved, or where it began.
abbrev place_of : Bool → Bytes
place_of true = cgroup_noproxy_preserved
place_of false = user

abbrev ssh : Bytes
ssh = codes "/usr/bin/ssh"

abbrev written_if : Bool → Bool → Append × Bool
written_if true _ = (written, true)
written_if false moved = (bad, moved)

-- A machine with one process. Whether it was moved is all of its state.
abbrev lone : Os
lone = record {
  State = Bool;
  getuid = λ _. 0;
  stat = λ path _. some (record {
    is_reg = bytes_eq path file_42;
    is_dir = bytes_eq path (cgroup2_mount_point ++ cgroup_noproxy_preserved);
  });
  mkdir = λ _ m. (true, m);
  read_file = λ path m. some (unlines (unified (place_of m) ∷ []));
  append_file = λ path text m.
      written_if
        (bytes_eq text (codes "42\n")
          && bytes_eq path (procs_file machine cgroup2_mount_point cgroup_noproxy_preserved))
        m;
  sleep_ms = λ _ m. m;
  realpath = λ _ _. none;
  unset_int = λ _. pos 0;
  popen = λ cmd m. (some (pidof_text (42 ∷ [])), m);
  system = λ _ m. (pos 0, m);
  setenv = λ _ _ m. m;
  open_file = λ _ m. (pos 3, m);
  flock = λ _ m. (true, m);
  write_file = λ _ _ m. m;
  truncate_file = λ _ m. (true, m);
  getpid = λ _. pos 7;
  close = λ _ m. m;
  unlink = λ _ m. (true, m);
}

lone-get_cgroup :
    (pid : Bytes) (m : Bool)
    → get_cgroup lone pid m
      ≡ returned (if bytes_eq (cgroup_file lone pid) file_42 then place_of m else [])
unfolding get_cgroup file_exist lines lines_onto find_cgroup
lone-get_cgroup pid true = ground arith
lone-get_cgroup pid false = ground arith

-- A pid is known by its file.
file_of-42 : (pid : Bytes) → bytes_eq (cgroup_file lone pid) file_42 ≡ true → pid ≡ codes "42"
file_of-42 pid h =
    sym (drop_end-append pid (codes "/cgroup"))
    ∙ ap (λ f. drop_end 7 (drop 6 f)) ((bytes_eq_iff (cgroup_file lone pid) file_42).0 h)

text_of-42 : (pid : Bytes) → pid ++ b'\n' ∷ [] ≡ codes "42\n" → pid ≡ codes "42"
text_of-42 pid h = sym (drop_end-append pid (b'\n' ∷ [])) ∙ ap (drop_end 1) h

elsewhere :
    (pid : Bytes) (m : Bool)
    → bytes_eq (cgroup_file lone pid) file_42 ≡ false
    → get_cgroup lone pid m ≡ returned []
elsewhere pid m h = lone-get_cgroup pid m ∙ rw h refl

others_keep :
    (pid q procs : Bytes) (m : Bool)
    → q ≢ pid
    → get_cgroup lone pid (lone.append_file procs (q ++ b'\n' ∷ []) m).1 ≡ get_cgroup lone pid m
others_keep pid q procs m ne = elim (Bool-cases (bytes_eq (q ++ b'\n' ∷ []) (codes "42\n"))) [
  | inl his ↦ elim (Bool-cases (bytes_eq (cgroup_file lone pid) file_42)) [
    | inl mine ↦
        absurd
          (ne (text_of-42 q ((bytes_eq_iff _ (codes "42\n")).0 his) ∙ sym (file_of-42 pid mine)))
    | inr other ↦ elsewhere pid _ other ∙ sym (elsewhere pid m other)
  ]
  | inr other ↦ rw other refl
]

lone-IsQuiet : IsQuiet lone
lone-IsQuiet = record {
  readable = λ pid m. (_, lone-get_cgroup pid m);
  mkdir_keeps = λ pid path m. refl;
  sleep_keeps = λ pid m. refl;
  others_keep = others_keep;
  pidof_keeps = λ pid path m. refl;
}

written_if-written :
    (b m t : Bool) → ◌≡◌ {A = Append × Bool} (written_if b m) (written, t) → (b ≡ true) × (t ≡ true)
written_if-written true m t h = (refl, sym (ap (λ r. r.1) h))
written_if-written false m t h = cc

lone-MovesWritten : MovesWritten lone cgroup2_mount_point
lone-MovesWritten pid cg s t h =
    let (both, moved) = written_if-written _ s t h in
    let is_42 : bytes_eq (pid ++ b'\n' ∷ []) (codes "42\n") ≡ true = ground arith in
    let procs : bytes_eq (procs_file machine cgroup2_mount_point cg)
          (procs_file machine cgroup2_mount_point cgroup_noproxy_preserved)
        ≡ true =
      ground arith in
    let which : pid ≡ codes "42" = text_of-42 pid ((bytes_eq_iff _ (codes "42\n")).0 is_42) in
    let target : cg ≡ cgroup_noproxy_preserved =
      sym (cgroup_of-procs_file cg)
      ∙ ap cgroup_of (
          (bytes_eq_iff (procs_file machine cgroup2_mount_point cg)
              (procs_file machine cgroup2_mount_point cgroup_noproxy_preserved)).0
            procs) in
    inl (
      ap (λ m. get_cgroup lone pid m) moved
      ∙ ap (λ q. get_cgroup lone q true) which
      ∙ lone-get_cgroup (codes "42") true
      ∙ unfold bytes_eq in ap (λ c. returned c) (sym target))

lone-PrintsPids : PrintsPids lone lone-IsQuiet
lone-PrintsPids path m = inr (42 ∷ [], refl)

lone-Finds : Finds lone lone-IsQuiet ssh 42
lone-Finds m = ([], [], refl)

answers :
    (m : Bool)
    → get_cgroup lone (show_ℤ (pos 42)) m ≡ returned user
    → (attach_int lone cgroup2_mount_point (pos 42) cgroup_noproxy_preserved m).0 ≡ returned success
unfolding attach attach_int ensure_dir dir_exist validate valid_pid valid_cgroup write2procs move
    move_if_needed check_again get_cgroup file_exist lines lines_onto find_cgroup show_ℤ show_ℕ
    bytes_eq contains
answers true h = refl
answers false h = refl

-- ssh is in both lists.
abbrev twice : Config
twice = record default_config { program_noproxy = ssh ∷ []; program_proxy = ssh ∷ [] }

process_running_program-IsSettled_example :
    Returns (process_running_program lone twice false)
    × IsSettled lone
        (show_ℤ (pos 42))
        cgroup_noproxy_preserved
        (process_running_program lone twice false).1
unfolding is_preserved belong_to_cgroup belong_to_any start_with bytes_eq show_ℤ show_ℕ
process_running_program-IsSettled_example =
    process_running_program-IsSettled lone lone-IsQuiet lone-PrintsPids lone-MovesWritten twice []
      [] ssh 42 user false refl lone-Finds (lone-get_cgroup (codes "42") false) (λ e. cc) refl refl
      answers
