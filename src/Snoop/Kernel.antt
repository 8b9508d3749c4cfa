-- ===== src/Snoop/Kernel.antt =====
-- execsnoop-kernel/execsnoop_kern.c and execsnoop-libbpf/execsnoop.bpf.c, whose code is the same: the
-- programs at the entry and at the exit of `execve`.
pub mod Laws
pub mod Reports
use cgproxy.Base.{
  ℕ, ◌+◌, ◌/◌, ◌%◌, Bool, true, false, not, Option, none, some, List, [], ◌∷◌, ◌++◌, Bytes,
  if◌then◌else◌, take,
}
use cgproxy.Base.Int.{ℤ, pos, negsuc, eq_ℤ}
use cgproxy.Base.Word.{of_u32}

pub record Event : Type 0 where
  pub comm : Bytes
  pub pid : ℤ
  pub tgid : ℤ
  pub ppid : ℤ
  pub uid : ℕ

abbrev pub task_comm_len : ℕ
task_comm_len = 16

abbrev pub empty_event : Event
empty_event = record { comm = []; pid = pos 0; tgid = pos 0; ppid = pos 0; uid = 0 }

-- What the helpers of the kernel answer for the current task: `bpf_get_current_pid_tgid`,
-- `bpf_get_current_uid_gid`, the `tgid` of its parent as `bpf_probe_read` delivers it, and its name.
pub record Task : Type 0 where
  pub pid_tgid : ℕ
  pub uid_gid : ℕ
  pub parent : ℤ
  pub comm : Bytes

-- `(pid_t)id`
abbrev pub pid_of : Task → ℤ
pid_of t = of_u32 (t.pid_tgid % 4294967296)

-- `id >> 32`, kept in a `pid_t`.
abbrev tgid_of : Task → ℤ
tgid_of t = of_u32 (t.pid_tgid / 4294967296 % 4294967296)

abbrev pub is_negative : ℤ → Bool
is_negative (pos _) = false
is_negative (negsuc _) = true

-- The hash map `records` of the kernel, which is not part of the program. `update` is that with
-- BPF_NOEXIST, and `assign` the writes through the pointer that `lookup` delivers.
pub record Records : Type 1 where
  pub State : Type 0
  pub lookup : ℤ → State → Option Event
  pub update : ℤ → Event → State → Bool × State
  pub assign : ℤ → Event → State → State
  pub delete : ℤ → State → State

-- The fields that the entry fills in.
abbrev pub filled : Task → Event → Event
filled t e = record e {
  pid = pid_of t;
  tgid = tgid_of t;
  uid = t.uid_gid % 4294967296;
  ppid = t.parent;
}

module _ (records : Records) where
  open records use {State}

  -- `syscall_enter_execve`
  unfoldable pub enter : Task → State → State
  enter t m =
      let out = records.update (pid_of t) empty_event m in
      if not out.0 then out.1 else elim (records.lookup (pid_of t) out.1) [
        | none ↦ out.1
        | some e ↦ records.assign (pid_of t) (filled t e) out.1
      ]

  -- `syscall_exit_execve`: the event that is handed to the perf buffer, if any.
  unfoldable pub leave : Task → ℤ → State → Option Event × State
  leave t ret m = elim (records.lookup (pid_of t) m) [
    | none ↦ (none, m)
    | some e ↦
        if is_negative ret
        then (none, records.delete (pid_of t) m)
        else (let named = record e { comm = take task_comm_len t.comm } in
            (some named, records.delete (pid_of t) (records.assign (pid_of t) named m)))
  ]

-- The calls of all tasks in the order in which they happen.
pub data Call : Type 0 where
  entering : Task → Call
  leaving : Task → ℤ → Call

abbrev pub task_of : Call → Task
task_of (entering t) = t
task_of (leaving t _) = t

abbrev pub emit : Option Event → List Event → List Event
emit none es = es
emit (some e) es = e ∷ es

module _ (records : Records) where
  -- The events of a sequence of calls, and the map behind it.
  unfoldable pub run : List Call → records.State → List Event × records.State
  run [] m = ([], m)
  run (entering t ∷ calls) m = run calls (enter records t m)
  run (leaving t ret ∷ calls) m =
      let out = leave records t ret m in let rest = run calls out.1 in (emit out.0 rest.0, rest.1)
