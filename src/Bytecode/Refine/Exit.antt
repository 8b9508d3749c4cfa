-- ===== src/Bytecode/Refine/Exit.antt =====
-- The exit of `execve`.
use cgproxy.Base.{
  ◌+◌, ◌%◌, ◌<◌, true, false, none, some, drop, [], ◌∷◌, ltb, take, ◌≡◌, inl, inr, refl, ◌∙◌, arith,
  Bool-cases, Option-cases,
}
use cgproxy.Base.Int.{ℤ, pos, negsuc}
use cgproxy.Base.Word.{of_u32}
use cgproxy.Snoop.Kernel.{Event, is_negative, task_comm_len, Records, leave}
use cgproxy.Snoop.Kernel.Laws.{IsLawful}
use cgproxy.Bytecode.Machine.{World, Machine, to_u64}
use cgproxy.Bytecode.Registers.{num, stack, field, context}
use cgproxy.Bytecode.Machine.Run.{exec, run_program, outcome}
use cgproxy.Bytecode.Listings.{listed_exit}
use cgproxy.Bytecode.Refine.Writes.{lookup-assign_self}
use cgproxy.Bytecode.Refine.Entry.{Overwrites, task_of_binary}
use cgproxy.Bytecode.Programs.{Binary, exit_program, exit_program-listed}

-- The values of a `long`.
abbrev pub IsLong : ℤ → Type 0
IsLong (pos n) = n < 9223372036854775808
IsLong (negsuc n) = n < 9223372036854775808

-- The comparison `0 > ret` of the machine.
sign :
    (n : ℤ)
    → IsLong n
    → ltb ((to_u64 n + 9223372036854775808) % 18446744073709551616) 9223372036854775808
      ≡ is_negative n
sign (pos n) h = ground arith
sign (negsuc n) h = ground arith

module _ (maps : Records) (law : IsLawful maps) (overwrite : Overwrites maps) (w : World) where
  open maps use {State}

  -- The current task; the exit does not ask for its parent.
  abbrev pid : ℤ
  pid = of_u32 (w.pid_tgid % 4294967296)

  exit-unrecorded :
      (m : State)
      → maps.lookup pid m ≡ none
      → run_program maps w (some listed_exit) m ≡ some (none, m)
  unfolding run_program exec
  exit-unrecorded m absent = rw absent refl

  exit-failed :
      (m : State) (e : Event)
      → maps.lookup pid m ≡ some e
      → IsLong w.ret
      → is_negative w.ret ≡ true
      → run_program maps w (some listed_exit) m ≡ some (none, maps.delete pid m)
  unfolding run_program exec
  exit-failed m e there long neg = rw (there, sign w.ret long, neg) refl

  -- Behind the comparison of `ret`.
  abbrev succeeded : State → Machine State
  succeeded m = record {
    skip = 0;
    regs = record {
      r0 = some (field pid 0);
      r1 = some (num (to_u64 w.ret));
      r2 = some (num 0);
      r3 = none;
      r4 = none;
      r5 = none;
      r6 = some context;
      r7 = some (field pid 0);
      r8 = none;
      r9 = none;
      r10 = some (stack 512);
    };
    slots = record { off = 508; size = 4; value = w.pid_tgid % 4294967296 } ∷ [];
    map = m;
    output = none;
  }

  abbrev named : Event → Event
  named e = record e { comm = take task_comm_len w.comm }

  exit-reports :
      (m : State) (e : Event)
      → maps.lookup pid m ≡ some e
      → maps.lookup pid (maps.assign pid (named e) m) ≡ some (named e)
      → outcome maps w (exec maps w (drop 13 listed_exit) (succeeded m))
        ≡ some (some (named e), maps.delete pid (maps.assign pid (named e) m))
  unfolding exec
  exit-reports m e there again = rw (there, again) refl

  exit-reported :
      (m : State) (e : Event)
      → maps.lookup pid m ≡ some e
      → IsLong w.ret
      → is_negative w.ret ≡ false
      → maps.lookup pid (maps.assign pid (named e) m) ≡ some (named e)
      → run_program maps w (some listed_exit) m
        ≡ some (some (named e), maps.delete pid (maps.assign pid (named e) m))
  unfolding run_program exec
  exit-reported m e there long not_neg again =
      rw (there, sign w.ret long, not_neg) (exit-reports m e there again)

  -- The shipped exit does what `leave` does.
  pub exit_program-leave :
      (b : Binary) (m : State)
      → IsLong w.ret
      → run_program maps w (exit_program b) m ≡ some (leave maps (task_of_binary b w) w.ret m)
  unfolding leave
  exit_program-leave b m long =
      rw (exit_program-listed b) (elim (Option-cases (maps.lookup pid m)) [
        | inl absent ↦ exit-unrecorded m absent ∙ rw (absent, leave) refl
        | inr (e, there) ↦ elim (Bool-cases (is_negative w.ret)) [
          | inl neg ↦ exit-failed m e there long neg ∙ rw (there, leave, neg) refl
          | inr not_neg ↦
              exit-reported m e there long not_neg
                (lookup-assign_self maps law w pid (named e) e m there)
              ∙ rw (there, leave, not_neg) refl
        ]
      ])
