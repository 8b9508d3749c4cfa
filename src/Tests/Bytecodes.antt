-- ===== src/Tests/Bytecodes.antt =====
-- The shipped programs on a run of `ls`.
use cgproxy.Base.{
  arith, Bool, Option, ◌+◌, ◌*◌, true, false, some, List, [], ◌∷◌, map, codes, if◌then◌else◌, ◌≡◌,
  refl,
}
use cgproxy.Base.Int.{pos, eq_ℤ}
use cgproxy.Snoop.Kernel.{Event, run}
use cgproxy.Bytecode.Machine.{World}
use cgproxy.Bytecode.Programs.{aarch64}
use cgproxy.Bytecode.Refine.Entry.{Overwrites}
use cgproxy.Bytecode.Refine.History.{Trap, entry, exit, call_of, run_traps, run_traps-run}
use cgproxy.Tests.Table.{table, table-IsLawful, no_records}

assigned_twice :
    (b : Bool) (o p q : Option Event)
    → (if b then o else (if b then p else q)) ≡ (if b then o else q)
assigned_twice true o p q = refl
assigned_twice false o p q = refl

table-Overwrites : Overwrites table
table-Overwrites k e f m = λ i j. assigned_twice (eq_ℤ j k) (some e) (some f) (m j) i

-- The shell with pid 42, whose parent stands at 5000 and has pid 1; an update that fails answers
-- EEXIST.
abbrev shell_world : World
shell_world = record {
  pid_tgid = 42 * 4294967296 + 42;
  uid_gid = 1000;
  task = 4096;
  memory = λ size at. if eq_ℤ (pos size) (pos 8) then 5000 else 1;
  comm = codes "ls";
  update_error = 18446744073709551599;
  ret = pos 0;
}

abbrev traps : List Trap
traps = entry shell_world ∷ entry shell_world ∷ exit shell_world ∷ []

run_traps-run_example :
    run_traps table aarch64 traps no_records
    ≡ some (run table (map (call_of aarch64) traps) no_records)
run_traps-run_example =
    run_traps-run table table-IsLawful table-Overwrites aarch64 traps no_records
      (refl, (refl, (omega arith, tt)))
