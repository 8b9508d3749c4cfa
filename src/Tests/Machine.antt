-- ===== src/Tests/Machine.antt =====
-- A small Linux machine with cgroup v2: files, directories, links, and the commands that were run.
use mathlib.Core.List.{append_assoc}
use cgproxy.Base.{
  ℕ, ◌-◌, ◌==◌, Bool, true, false, Option, none, some, List, [], ◌∷◌, ◌++◌, Bytes, codes, bytes_eq,
  bytes_eq_refl, contains, if◌then◌else◌, length, take, drop, length-append, take-append_length,
  drop-append_length, ◌≡◌, refl, sym, ap, ◌∙◌, arith, inl,
}
use cgproxy.Base.Int.{ℤ, pos}
use cgproxy.Constants.{cgroup2_mount_point}
use cgproxy.Effect.{returned}
use cgproxy.Proc.{get_cgroup}
use cgproxy.System.{Os, Stat, Append, bad, written}
use cgproxy.Proc.Cgroups.{unlines, unified, IsLine, get_cgroup-unified}
use cgproxy.Attach.Laws.{MovesWritten, procs_file}

pub record Machine : Type 0 where
  pub uid : ℕ
  pub pid : ℤ
  pub files : List (Bytes × Bytes)
  pub dirs : List Bytes
  pub links : List (Bytes × Bytes)
  pub ran : List Bytes

abbrev pub lookup : Bytes → List (Bytes × Bytes) → Option Bytes
lookup k [] = none
lookup k ((j, v) ∷ rest) = let more = lookup k rest in if bytes_eq k j then some v else more

abbrev pub regular : Stat
regular = record { is_reg = true; is_dir = false }

abbrev stat_of : Option Bytes → Bool → Option Stat
stat_of (some _) _ = some regular
stat_of none true = some (record { is_reg = false; is_dir = true })
stat_of none false = none

abbrev has_newline : Bytes → Bool
has_newline [] = false
has_newline (c ∷ cs) = let rest = has_newline cs in if c == b'\n' then true else rest

-- A text without its last `n` bytes.
abbrev pub drop_end : ℕ → Bytes → Bytes
drop_end n t = take (length t - n) t

abbrev proc_file : Bytes → Bytes
proc_file pid = codes "/proc/" ++ (pid ++ codes "/cgroup")

-- The cgroup whose `cgroup.procs` this is.
abbrev pub cgroup_of : Bytes → Bytes
cgroup_of path = drop_end 13 (drop (length cgroup2_mount_point) path)

abbrev move_to : Bytes → Bytes → Machine → Machine
move_to pid cg m = record m { files = (proc_file pid, unlines (unified cg ∷ [])) ∷ m.files }

-- A process is moved by its pid in `cgroup.procs`.
abbrev write_procs : Bytes → Bytes → Machine → Append × Machine
write_procs path text m =
    if has_newline (cgroup_of path)
    then (bad, m)
    else (written, move_to (drop_end 1 text) (cgroup_of path) m)

abbrev pub machine : Os
machine = record {
  State = Machine;
  getuid = λ m. m.uid;
  stat = λ path m. stat_of (lookup path m.files) (contains path m.dirs);
  mkdir = λ path m. (true, record m { dirs = path ∷ m.dirs });
  read_file = λ path m. lookup path m.files;
  append_file = write_procs;
  sleep_ms = λ _ m. m;
  realpath = λ path m. lookup path m.links;
  unset_int = λ _. pos 0;
  popen = λ cmd m. (none, m);
  system = λ cmd m. (pos 7, record m { ran = cmd ∷ m.ran });
  setenv = λ _ _ m. m;
  open_file = λ _ m. (pos 3, m);
  flock = λ _ m. (true, m);
  write_file = λ path text m. record m { files = (path, text) ∷ m.files };
  truncate_file = λ path m. (true, record m { files = (path, []) ∷ m.files });
  getpid = λ m. m.pid;
  close = λ _ m. m;
  unlink = λ _ m. (true, m);
}

pub drop_end-append : (xs ys : Bytes) → drop_end (length ys) (xs ++ ys) ≡ xs
drop_end-append xs ys =
    ap (λ n. take n (xs ++ ys)) (rw (length-append xs ys) (omega arith)) ∙ take-append_length xs ys

pub cgroup_of-procs_file : (cg : Bytes) → cgroup_of (procs_file machine cgroup2_mount_point cg) ≡ cg
cgroup_of-procs_file cg =
    ap (drop_end 13) (
      ap (drop (length cgroup2_mount_point))
        (append_assoc cgroup2_mount_point cg (codes "/cgroup.procs"))
      ∙ drop-append_length cgroup2_mount_point (cg ++ codes "/cgroup.procs"))
    ∙ drop_end-append cg (codes "/cgroup.procs")

pub has_newline-IsLine : (t : Bytes) → has_newline t ≡ false → IsLine t
has_newline-IsLine [] h = tt
has_newline-IsLine (c ∷ cs) h = (ground arith, has_newline-IsLine cs (ground arith))

written_lem :
    (b : Bool) (m n t : Machine)
    → ◌≡◌ {A = Append × Machine} (if b then (bad, m) else (written, n)) (written, t)
    → (b ≡ false) × (n ≡ t)
written_lem true m n t h = cc
written_lem false m n t h = (refl, ap (λ r. r.1) h)

move_to-get_cgroup :
    (pid cg : Bytes) (m : Machine)
    → IsLine cg
    → get_cgroup machine pid (move_to pid cg m) ≡ returned cg
move_to-get_cgroup pid cg m plain =
    get_cgroup-unified machine pid cg (move_to pid cg m) {st = regular} [] []
      (rw (bytes_eq_refl (proc_file pid)) refl) refl (rw (bytes_eq_refl (proc_file pid)) refl)
      (((λ e. omega (arith, e)), ((λ e. omega (arith, e)), ((λ e. omega (arith, e)), plain))), tt)
      tt

pub machine-MovesWritten : MovesWritten machine cgroup2_mount_point
machine-MovesWritten pid cg s t h =
    let text = drop_end-append pid (b'\n' ∷ []) in
    let (line, e) = written_lem _ s _ t h in
    let moved : move_to pid cg s ≡ t =
      ap (λ q. move_to q cg s) (sym text)
      ∙ ap (λ d. move_to (drop_end 1 (pid ++ b'\n' ∷ [])) d s) (sym (cgroup_of-procs_file cg))
      ∙ e in
    let plain : IsLine cg =
      has_newline-IsLine cg (ap has_newline (sym (cgroup_of-procs_file cg)) ∙ line) in
    inl (ap (λ m. get_cgroup machine pid m) (sym moved) ∙ move_to-get_cgroup pid cg s plain)
