-- ===== src/Bytecode/Refine/History.antt =====
-- The calls of all tasks, by the shipped programs.
use cgproxy.Base.{◌%◌, false, Option, some, List, [], ◌∷◌, map, ◌==◌, All, ◌≡◌, refl}
use cgproxy.Snoop.Kernel.{Event, Call, entering, leaving, Records, enter, leave, emit, run}
use cgproxy.Snoop.Kernel.Laws.{IsLawful}
use cgproxy.Bytecode.Machine.{World, bind}
use cgproxy.Bytecode.Machine.Run.{run_program}
use cgproxy.Bytecode.Programs.{Binary, entry_program, exit_program}
use cgproxy.Bytecode.Refine.Entry.{Overwrites, task_of_binary, entry_program-Enters}
use cgproxy.Bytecode.Refine.Exit.{IsLong, exit_program-leave}

-- The kernel stops at the tracepoint of the entry or of the exit of `execve`.
pub data Trap : Type 0 where
  entry exit : World → Trap

-- An update that fails answers an error in its lower half, and `ret` is a `long`.
abbrev pub IsTrap : Trap → Type 0
IsTrap (entry w) = (w.update_error % 4294967296 == 0) ≡ false
IsTrap (exit w) = IsLong w.ret

-- The same call as the source sees it.
abbrev pub call_of : Binary → Trap → Call
call_of b (entry w) = entering (task_of_binary b w)
call_of b (exit w) = leaving (task_of_binary b w) w.ret

module _ (maps : Records) where
  open maps use {State}

  abbrev run_trap : Binary → Trap → State → Option (Option Event × State)
  run_trap b (entry w) m = run_program maps w (entry_program b) m
  run_trap b (exit w) m = run_program maps w (exit_program b) m

  abbrev joined : Option Event → Option (List Event × State) → Option (List Event × State)
  joined o rest = bind rest (λ r. some (emit o r.0, r.1))

  -- The events of a sequence of traps, and the map behind it.
  unfoldable pub run_traps : Binary → List Trap → State → Option (List Event × State)
  run_traps b [] m = some ([], m)
  run_traps b (t ∷ ts) m = bind (run_trap b t m) (λ out. joined out.0 (run_traps b ts out.1))

module _ (maps : Records) (law : IsLawful maps) (overwrite : Overwrites maps) where
  -- The programs that the three skeletons ship do what their source does: decoded from the bytes of
  -- the object and run on the machine, over any sequence of entries and exits of execve they
  -- finish, report the same events and leave the same map as the source, on every hash map that
  -- keeps the laws of the kernel and in which a write to a record overwrites the one before, where
  -- an update that fails answers an error in its lower half and what execve returns is a long.
  pub run_traps-run :
      (b : Binary) (ts : List Trap) (m : maps.State)
      → All IsTrap ts
      → run_traps maps b ts m ≡ some (run maps (map (call_of b) ts) m)
  unfolding run_traps run
  run_traps-run b [] m h = refl
  run_traps-run b (entry w ∷ ts) m h =
      rw
        (
          entry_program-Enters maps law overwrite w b h.0 m,
          run_traps-run b ts (enter maps (task_of_binary b w) m) h.1,
        )
        refl
  run_traps-run b (exit w ∷ ts) m h =
      rw
        (
          exit_program-leave maps law overwrite w b m h.0,
          run_traps-run b ts (leave maps (task_of_binary b w) w.ret m).1 h.1,
        )
        refl
