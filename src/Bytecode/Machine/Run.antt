-- ===== src/Bytecode/Machine/Run.antt =====
-- The run of a program.
use cgproxy.Base.{ℕ, zero, suc, Bool, Option, none, some, List, [], ◌∷◌, ◌==◌, if◌then◌else◌}
use cgproxy.Snoop.Kernel.{Event, Records}
use cgproxy.Bytecode.Code.{
  Alu, Insn, alu, store, load, load_wide, load_map, second_half, jump, call, exit,
}
use cgproxy.Bytecode.Machine.{
  World, Machine, Next, go, stop, stuck, to_u64, bind, next, compute, holds, value, set, write,
  read,
}
use cgproxy.Bytecode.Registers.{Value, num, stack, context, a_map, Registers, get}
use cgproxy.Bytecode.Machine.Helpers.{
  answer, lookup_elem, update_elem, delete_elem, probe_read, get_current_comm, perf_event_output,
}

-- Register 1 holds the context and register 10 the end of the stack.
abbrev initial : Registers
initial = record {
  r0 = none;
  r1 = some context;
  r2 = none;
  r3 = none;
  r4 = none;
  r5 = none;
  r6 = none;
  r7 = none;
  r8 = none;
  r9 = none;
  r10 = some (stack 512);
}

-- An address moved by an offset.
abbrev moved : Value → ℕ → Option Value
moved v off = compute Alu.add v (num off)

-- What an operation does to a register, which `mov` need not read.
abbrev result : Alu → Option Value → Value → Option Value
result Alu.mov _ b = some b
result op a b = bind a (λ v. compute op v b)

module _ (maps : Records) (w : World) where
  open maps use {State}

  abbrev store_at : ℕ → Value → Option Value → Machine State → Option (Machine State)
  store_at size p (some (num v)) s = write maps size p v s
  store_at _ _ _ _ = none

  -- The context has its `ret` at 16.
  abbrev load_from : ℕ → ℕ → Value → ℕ → Machine State → Option (Machine State)
  load_from size dst context off s =
      if size == 8
      then if off == 16 then some (set dst (some (num (to_u64 w.ret))) s) else none
      else none
  load_from size dst v off s =
      bind (moved v off) (λ p. bind (read size p s) (λ n. some (set dst (some (num n)) s)))

  abbrev jump_if : ℕ → Option Bool → Machine State → Next State
  jump_if off none s = stuck
  jump_if off (some b) s = go (record s { skip = if b then off else 0 })

  abbrev call_helper : ℕ → Machine State → Option (Machine State)
  call_helper n s =
      let r = λ (i : ℕ). get i s.regs in
      if n == 1
      then lookup_elem maps w (r 1) (r 2) s
      else if n == 2
      then update_elem maps w (r 1) (r 2) (r 3) (r 4) s
      else if n == 3
      then delete_elem maps w (r 1) (r 2) s
      else if n == 4
      then probe_read maps w (r 1) (r 2) (r 3) s
      else if n == 14
      then some (answer (num w.pid_tgid) s)
      else if n == 15
      then some (answer (num w.uid_gid) s)
      else if n == 16
      then get_current_comm maps w (r 1) (r 2) s
      else if n == 25
      then perf_event_output maps w (r 1) (r 2) (r 3) (r 4) (r 5) s
      else if n == 35
      then some (answer (num w.task) s)
      else none

  abbrev step : Insn → Machine State → Next State
  step (alu op dst o) s =
      next (
        bind (value o s)
          (λ b. bind (result op (get dst s.regs) b) (λ v. some (set dst (some v) s))))
  step (store size dst off src) s =
      next
        (bind (get dst s.regs) (λ v. bind (moved v off) (λ p. store_at size p (get src s.regs) s)))
  step (load size dst off src) s = next (bind (get src s.regs) (λ v. load_from size dst v off s))
  step (load_wide dst n) s = go (set dst (some (num n)) (record s { skip = 1 }))
  step (load_map dst m) s = go (set dst (some (a_map m)) (record s { skip = 1 }))
  step second_half s = stuck
  step (jump t dst o off) s =
      jump_if off (bind (get dst s.regs) (λ a. bind (value o s) (λ b. holds t a b))) s
  step (call n) s = next (call_helper n s)
  step exit s = stop s

  abbrev tick : ℕ → Insn → Machine State → Next State
  tick zero i s = step i s
  tick (suc n) i s = go (record s { skip = n })

  abbrev follow : Next State → (Machine State → Option (Machine State)) → Option (Machine State)
  follow (go s) f = f s
  follow (stop s) f = some s
  follow stuck f = none

  -- The machine at `exit`. Every jump goes forward, so a run takes no more steps than the program has
  -- instructions.
  unfoldable pub exec : List Insn → Machine State → Option (Machine State)
  exec [] s = none
  exec (i ∷ code) s = follow (tick s.skip i s) (exec code)

  abbrev pub start : State → Machine State
  start m = record { skip = 0; regs = initial; slots = []; map = m; output = none }

  abbrev pub outcome : Option (Machine State) → Option (Option Event × State)
  outcome none = none
  outcome (some s) = some (s.output, s.map)

  -- The event that is handed to the perf buffer, if any, and the map behind the run.
  unfoldable pub run_program : Option (List Insn) → State → Option (Option Event × State)
  unfolding exec
  run_program none m = none
  run_program (some code) m = outcome (exec code (start m))
