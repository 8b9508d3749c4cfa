-- ===== src/Bytecode/Machine/Helpers.antt =====
-- The functions of the kernel that the programs call.
use cgproxy.Base.{Bool, ◌&&◌, Option, none, some, ◌==◌, if◌then◌else◌, take}
use cgproxy.Base.Int.{ℤ}
use cgproxy.Snoop.Kernel.{Event, empty_event, task_comm_len, Records}
use cgproxy.Bytecode.Code.{records, perf_events}
use cgproxy.Bytecode.Machine.{World, Machine, bind, write, key, zeros}
use cgproxy.Bytecode.Registers.{Value, num, context, a_map, field}

-- A call answers in register 0 and makes the registers 1 to 5 unreadable.
abbrev pub answer : {S : Type 0} → Value → Machine S → Machine S
answer v s = record s {
  regs = record s.regs { r0 = some v; r1 = none; r2 = none; r3 = none; r4 = none; r5 = none };
}

abbrev found : ℤ → Option Event → Value
found k none = num 0
found k (some _) = field k 0

module _ (maps : Records) (w : World) where
  open maps use {State}

  -- `bpf_map_lookup_elem`
  abbrev pub lookup_elem : Option Value → Option Value → Machine State → Option (Machine State)
  lookup_elem (some (a_map records)) (some p) s =
      bind (key p s) (λ k. some (answer (found k (maps.lookup k s.map)) s))
  lookup_elem _ _ _ = none

  abbrev updated : Bool × State → Machine State → Machine State
  updated out s = answer (num (if out.0 then 0 else w.update_error)) (record s { map = out.1 })

  -- `bpf_map_update_elem` with the flag BPF_NOEXIST, on an event of zeros.
  abbrev pub update_elem :
      Option Value
      → Option Value
      → Option Value
      → Option Value
      → Machine State
      → Option (Machine State)
  update_elem (some (a_map records)) (some p) (some q) (some (num flags)) s = bind (key p s) (λ k.
      bind (zeros q s) (λ z.
        if z && (flags == 1) then some (updated (maps.update k empty_event s.map) s) else none))
  update_elem _ _ _ _ _ = none

  -- `bpf_map_delete_elem`
  abbrev pub delete_elem : Option Value → Option Value → Machine State → Option (Machine State)
  delete_elem (some (a_map records)) (some p) s =
      bind (key p s) (λ k. some (answer (num 0) (record s { map = maps.delete k s.map })))
  delete_elem _ _ _ = none

  -- `bpf_probe_read`
  abbrev pub probe_read :
      Option Value → Option Value → Option Value → Machine State → Option (Machine State)
  probe_read (some p) (some (num size)) (some (num from)) s =
      bind (write maps size p (w.memory size from) s) (λ t. some (answer (num 0) t))
  probe_read _ _ _ _ = none

  -- `bpf_get_current_comm` into the field `comm` of a record.
  abbrev pub get_current_comm : Option Value → Option Value → Machine State → Option (Machine State)
  get_current_comm (some (field k off)) (some (num size)) s =
      if (off == 0) && (size == 16)
      then bind (maps.lookup k s.map) (λ e. some (
          answer (num 0) (record s {
            map = maps.assign k (record e { comm = take task_comm_len w.comm }) s.map;
          })))
      else none
  get_current_comm _ _ _ = none

  -- `bpf_perf_event_output` of a whole record to the buffer of the current processor,
  -- BPF_F_CURRENT_CPU.
  abbrev pub perf_event_output :
      Option Value
      → Option Value
      → Option Value
      → Option Value
      → Option Value
      → Machine State
      → Option (Machine State)
  perf_event_output (some context) (some (a_map perf_events)) (some (num flags))
        (some (field k off)) (some (num size)) s =
      if (flags == 4294967295) && (off == 0) && (size == 32)
      then bind (maps.lookup k s.map) (λ e. some (answer (num 0) (record s { output = some e })))
      else none
  perf_event_output _ _ _ _ _ _ = none
