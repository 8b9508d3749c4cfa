-- ===== src/Bytecode/Refine/Entry.antt =====
-- The entry of `execve`.
use cgproxy.Base.{
  ◌%◌, true, false, Option, none, some, List, ◌==◌, ◌≡◌, inl, inr, refl, sym, ap, ◌∙◌, Bool-cases,
}
use cgproxy.Base.Int.{ℤ}
use cgproxy.Snoop.Kernel.{Event, empty_event, Task, pid_of, filled, Records, enter}
use cgproxy.Snoop.Kernel.Laws.{IsLawful, eq_ℤ_refl}
use cgproxy.Bytecode.Code.{Insn}
use cgproxy.Bytecode.Machine.{World}
use cgproxy.Bytecode.Machine.Run.{run_program}
use cgproxy.Bytecode.Refine.Writes.{
  task_in, with_uid, with_tgid, with_pid, map_tgid, map_all, Recorded, kernel_entry-refused,
  libbpf_entry-refused, kernel_entry-done, libbpf_entry-done,
}
use cgproxy.Bytecode.Programs.{
  Binary, x86_64, aarch64, libbpf, entry_program, real_parent_offset, tgid_offset,
  entry_program-listed,
}

-- A write of a record that follows another one overwrites it.
abbrev pub Overwrites : Records → Type 0
Overwrites maps =
    (k : ℤ) (e f : Event) (m : maps.State) → maps.assign k e (maps.assign k f m) ≡ maps.assign k e m

-- The current task, as a binary finds its parent.
abbrev pub task_of_binary : Binary → World → Task
task_of_binary b w = task_in (real_parent_offset b) (tgid_offset b) w

module _ (maps : Records) (law : IsLawful maps) (overwrite : Overwrites maps) (w : World) where
  open maps use {State}

  -- The map that the source leaves behind.
  map_all-enter :
      (t : Task) (m : State)
      → (maps.update (pid_of t) empty_event m).0 ≡ true
      → Recorded maps law w t empty_event (maps.update (pid_of t) empty_event m).1
      → map_all maps law w t (maps.update (pid_of t) empty_event m).1 ≡ enter maps t m
  unfolding enter
  map_all-enter t m done there =
      let k = pid_of t in
      let n = (maps.update k empty_event m).1 in
      overwrite k (filled t empty_event) (with_pid maps law w t) (map_tgid maps law w t n)
      ∙ overwrite k (filled t empty_event) (with_tgid maps law w t)
          (maps.assign k (with_uid maps law w t) n)
      ∙ overwrite k (filled t empty_event) (with_uid maps law w t) n
      ∙ rw (done, there) refl

  enter-refused :
      (t : Task) (m : State)
      → (maps.update (pid_of t) empty_event m).0 ≡ false
      → enter maps t m ≡ (maps.update (pid_of t) empty_event m).1
  unfolding enter
  enter-refused t m refused = rw refused refl

  -- What a listing of the entry has to do.
  abbrev Enters : Option (List Insn) → Task → Type 0
  Enters code t = (m : State) → run_program maps w code m ≡ some (none, enter maps t m)

  enters :
      (code : Option (List Insn)) (t : Task)
      → ((m : State)
          → (maps.update (pid_of t) empty_event m).0 ≡ false
          → run_program maps w code m ≡ some (none, (maps.update (pid_of t) empty_event m).1))
      → ((m : State)
          → (maps.update (pid_of t) empty_event m).0 ≡ true
          → Recorded maps law w t empty_event (maps.update (pid_of t) empty_event m).1
          → run_program maps w code m
            ≡ some (none, map_all maps law w t (maps.update (pid_of t) empty_event m).1))
      → Enters code t
  enters code t stays fills m = elim (Bool-cases (maps.update (pid_of t) empty_event m).0) [
    | inl done ↦
        let there : Recorded maps law w t empty_event (maps.update (pid_of t) empty_event m).1 =
          law.lookup-update (pid_of t) (pid_of t) empty_event m done
          ∙ rw (eq_ℤ_refl (pid_of t)) refl in
        fills m done there ∙ ap (λ n. some (none, n)) (map_all-enter t m done there)
    | inr refused ↦ stays m refused ∙ ap (λ n. some (none, n)) (sym (enter-refused t m refused))
  ]

  -- The shipped entry.
  pub entry_program-Enters :
      (b : Binary)
      → (w.update_error % 4294967296 == 0) ≡ false
      → Enters (entry_program b) (task_of_binary b w)
  entry_program-Enters x86_64 e = rw (entry_program-listed x86_64) (
      enters _ (task_of_binary x86_64 w) (λ m. kernel_entry-refused maps law w 1184 1172 m e)
        (kernel_entry-done maps law w 1184 1172))
  entry_program-Enters aarch64 e = rw (entry_program-listed aarch64) (
      enters _ (task_of_binary aarch64 w) (λ m. kernel_entry-refused maps law w 1144 1132 m e)
        (kernel_entry-done maps law w 1144 1132))
  entry_program-Enters libbpf e = rw (entry_program-listed libbpf) (
      enters _ (task_of_binary libbpf w) (λ m. libbpf_entry-refused maps law w 1512 1500 m e)
        (libbpf_entry-done maps law w 1512 1500))
