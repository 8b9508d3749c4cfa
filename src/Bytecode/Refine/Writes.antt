-- ===== src/Bytecode/Refine/Writes.antt =====
-- What the two listings of the entry of `execve` write to the map.
use cgproxy.Base.{
  ℕ, drop, [], ◌∷◌, ◌+◌, ◌*◌, ◌/◌, ◌%◌, true, false, none, some, ◌==◌, ◌≡◌, refl, ◌∙◌, arith,
}
use cgproxy.Base.Int.{ℤ}
use cgproxy.Base.Word.{of_u32}
use cgproxy.Snoop.Kernel.{Event, empty_event, Task, pid_of, filled, Records}
use cgproxy.Snoop.Kernel.Laws.{IsLawful, eq_ℤ_refl}
use cgproxy.Bytecode.Machine.{World, Machine}
use cgproxy.Bytecode.Registers.{num, stack, field}
use cgproxy.Bytecode.Machine.Run.{exec, run_program, outcome}
use cgproxy.Bytecode.Listings.{kernel_entry, libbpf_entry}

-- The current task, by what the kernel keeps of it and of its parent.
abbrev pub task_in : ℕ → ℕ → World → Task
task_in real_parent tgid w =
    let parent =
      w.memory 8 ((w.task + real_parent) % 18446744073709551616) % 18446744073709551616 in
    record {
      pid_tgid = w.pid_tgid;
      uid_gid = w.uid_gid;
      parent = of_u32 (w.memory 4 ((parent + tgid) % 18446744073709551616) % 4294967296);
      comm = w.comm;
    }

-- The shifts by which the programs of execsnoop-kernel look at the lower half of an answer.
lower_half :
    (e : ℕ)
    → (e % 4294967296 == 0) ≡ false
    → (e * 4294967296 % 18446744073709551616 / 4294967296 == 0) ≡ false
lower_half e h = ground arith

mod_twice : (n : ℕ) → n % 4294967296 % 4294967296 ≡ n % 4294967296
mod_twice n = omega arith

module _ (maps : Records) (law : IsLawful maps) (w : World) where
  open maps use {State}

  pub kernel_entry-refused :
      (p t : ℕ) (m : State)
      → (w.update_error % 4294967296 == 0) ≡ false
      → (maps.update (pid_of (task_in p t w)) empty_event m).0 ≡ false
      → run_program maps w (some (kernel_entry p t)) m
        ≡ some (none, (maps.update (pid_of (task_in p t w)) empty_event m).1)
  unfolding run_program exec
  kernel_entry-refused p t m e refused = rw (refused, lower_half w.update_error e) refl

  pub libbpf_entry-refused :
      (p t : ℕ) (m : State)
      → (w.update_error % 4294967296 == 0) ≡ false
      → (maps.update (pid_of (task_in p t w)) empty_event m).0 ≡ false
      → run_program maps w (some (libbpf_entry p t)) m
        ≡ some (none, (maps.update (pid_of (task_in p t w)) empty_event m).1)
  unfolding run_program exec
  libbpf_entry-refused p t m e refused =
      let ne : (w.update_error == 0) ≡ false = ground arith in rw (refused, ne) refl

  pub lookup-assign_self :
      (k : ℤ) (e f : Event) (m : State)
      → maps.lookup k m ≡ some f
      → maps.lookup k (maps.assign k e m) ≡ some e
  lookup-assign_self k e f m h = law.lookup-assign k k e f m h ∙ rw (eq_ℤ_refl k) refl

  -- The record after each of the four writes, and the map behind the last one.
  abbrev pub with_uid : Task → Event
  with_uid t = record empty_event { uid = (filled t empty_event).uid }

  abbrev pub with_tgid : Task → Event
  with_tgid t = record (with_uid t) { tgid = (filled t empty_event).tgid }

  abbrev pub with_pid : Task → Event
  with_pid t = record (with_tgid t) { pid = (filled t empty_event).pid }

  abbrev pub map_tgid : Task → State → State
  map_tgid t n = maps.assign (pid_of t) (with_tgid t) (maps.assign (pid_of t) (with_uid t) n)

  abbrev map_pid : Task → State → State
  map_pid t n = maps.assign (pid_of t) (with_pid t) (map_tgid t n)

  abbrev pub map_all : Task → State → State
  map_all t n = maps.assign (pid_of t) (filled t empty_event) (map_pid t n)

  abbrev pub Recorded : Task → Event → State → Type 0
  Recorded t e n = maps.lookup (pid_of t) n ≡ some e

  writes-Recorded :
      (t : Task) (n : State)
      → Recorded t empty_event n
      → Recorded t (with_uid t) (maps.assign (pid_of t) (with_uid t) n)
        × Recorded t (with_tgid t) (map_tgid t n)
        × Recorded t (with_pid t) (map_pid t n)
  writes-Recorded t n there =
      let k = pid_of t in
      let first = lookup-assign_self k (with_uid t) empty_event n there in
      let second = lookup-assign_self k (with_tgid t) (with_uid t) _ first in
      (first, second, lookup-assign_self k (with_pid t) (with_tgid t) _ second)

  -- Where the record was found: its address in registers 0 and 8, the ids in 6 and 7, and the stack
  -- with the event of zeros and the pid.
  abbrev at_record : ℤ → State → Machine State
  at_record k n = record {
    skip = 0;
    regs = record {
      r0 = some (field k 0);
      r1 = none;
      r2 = none;
      r3 = none;
      r4 = none;
      r5 = none;
      r6 = some (num w.pid_tgid);
      r7 = some (num w.uid_gid);
      r8 = some (field k 0);
      r9 = none;
      r10 = some (stack 512);
    };
    slots =
        record { off = 464; size = 8; value = 0 }
        ∷ record { off = 472; size = 8; value = 0 }
        ∷ record { off = 480; size = 8; value = 0 }
        ∷ record { off = 488; size = 8; value = 0 }
        ∷ record { off = 508; size = 4; value = w.pid_tgid % 4294967296 }
        ∷ [];
    map = n;
    output = none;
  }

  kernel_entry-writes :
      (p t : ℕ) (n : State)
      → Recorded (task_in p t w) empty_event n
      → outcome maps w
          (exec maps w (drop 28 (kernel_entry p t)) (at_record (pid_of (task_in p t w)) n))
        ≡ some (none, map_all (task_in p t w) n)
  unfolding exec
  kernel_entry-writes p t n there =
      let h = writes-Recorded (task_in p t w) n there in
      rw (there, h.0, h.1, mod_twice w.pid_tgid, h.2) refl

  pub kernel_entry-done :
      (p t : ℕ) (m : State)
      → let k = pid_of (task_in p t w) in
        (maps.update k empty_event m).0 ≡ true
        → Recorded (task_in p t w) empty_event (maps.update k empty_event m).1
        → run_program maps w (some (kernel_entry p t)) m
          ≡ some (none, map_all (task_in p t w) (maps.update k empty_event m).1)
  unfolding run_program exec
  kernel_entry-done p t m done there =
      rw (done, there)
        (kernel_entry-writes p t (maps.update (pid_of (task_in p t w)) empty_event m).1 there)

  libbpf_entry-writes :
      (p t : ℕ) (n : State)
      → Recorded (task_in p t w) empty_event n
      → outcome maps w
          (exec maps w (drop 26 (libbpf_entry p t)) (at_record (pid_of (task_in p t w)) n))
        ≡ some (none, map_all (task_in p t w) n)
  unfolding exec
  libbpf_entry-writes p t n there =
      let h = writes-Recorded (task_in p t w) n there in
      rw (there, h.0, h.1, mod_twice w.pid_tgid, h.2) refl

  pub libbpf_entry-done :
      (p t : ℕ) (m : State)
      → let k = pid_of (task_in p t w) in
        (maps.update k empty_event m).0 ≡ true
        → Recorded (task_in p t w) empty_event (maps.update k empty_event m).1
        → run_program maps w (some (libbpf_entry p t)) m
          ≡ some (none, map_all (task_in p t w) (maps.update k empty_event m).1)
  unfolding run_program exec
  libbpf_entry-done p t m done there =
      rw (done, there)
        (libbpf_entry-writes p t (maps.update (pid_of (task_in p t w)) empty_event m).1 there)
