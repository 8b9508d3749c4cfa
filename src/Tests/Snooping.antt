-- ===== src/Tests/Snooping.antt =====
-- Calls of `execve`, and the thread that waits for them.
use cgproxy.Base.{inl, false, ℕ, ◌+◌, ◌*◌, true, none, List, [], ◌∷◌, ◌++◌, codes, ◌≡◌, refl}
use cgproxy.Base.Int.{ℤ, pos, negsuc}
use cgproxy.Base.Word.{of_u32}
use cgproxy.Effect.{Outcome, returned}
use cgproxy.Snoop.Kernel.{empty_event, Task, pid_of, Call, entering, leaving, enter, run}
use cgproxy.Snoop.Kernel.Reports.{report, run_reports}
use cgproxy.Snoop.Loop.{Session, Setup, start_thread}
use cgproxy.Snoop.Loop.Laws.{start_thread-fulfilled}
use cgproxy.Snoop.Bcc.{ret_syscall_execve}
use cgproxy.Snoop.Bcc.Laws.{pids, told, run-ret_syscall_execve}
use cgproxy.Snoop.Skeleton.{Answers, libbpf_open_and_load, aarch64, arch_open_and_load}
use cgproxy.Snoop.Skeleton.Laws.{empty_heap, count, open_and_load-frees, open_and_load_double_free}
use cgproxy.Tests.Table.{table, table-IsLawful, no_records}

-- The shell with pid 42, which becomes `ls`, and another process.
abbrev pub shell : Task
shell = record {
  pid_tgid = 42 * 4294967296 + 42;
  uid_gid = 1000;
  parent = pos 1;
  comm = codes "sh";
}

abbrev pub listing : Task
listing = record shell { comm = codes "ls" }

abbrev other : Task
other = record { pid_tgid = 43 * 4294967296 + 43; uid_gid = 0; parent = pos 1; comm = codes "init" }

abbrev pub between : List Call
between = entering other ∷ leaving other (negsuc 1) ∷ []

run_reports_example :
    ((run table (entering shell ∷ (between ++ leaving listing (pos 0) ∷ [])) no_records).0
      ≡ (run table between (enter table shell no_records)).0 ++ report shell listing (pos 0))
    × (table.lookup
          (pid_of shell)
          (run table (entering shell ∷ (between ++ leaving listing (pos 0) ∷ [])) no_records).1
        ≡ none)
unfolding of_u32
run_reports_example =
    run_reports table table-IsLawful shell listing (pos 0) between no_records refl refl
      (refl, (refl, tt))

-- A poll is interrupted, and the next perf buffer cannot be made.
abbrev interrupted : List Session
interrupted =
    record { new_err = pos 0; polls = (empty_event ∷ []) ∷ []; poll_err = negsuc 3 }
    ∷ record { new_err = pos 12; polls = []; poll_err = pos 0 }
    ∷ []

abbrev setup : Setup
setup = record { rlimit_err = pos 0; loaded = true; attach_err = pos 0 }

abbrev count_calls : ℤ → ℕ → Outcome ℤ × ℕ
count_calls _ n = (returned (pos 0), n + 1)

start_thread-fulfilled_example : (start_thread count_calls setup interrupted 0).1.fulfilled ≡ 1
start_thread-fulfilled_example = start_thread-fulfilled count_calls setup interrupted 0

run-ret_syscall_execve_example :
    pids (run table (entering shell ∷ (between ++ leaving listing (pos 0) ∷ [])) no_records).0
    ≡ pids (run table between (enter table shell no_records)).0
      ++ told (ret_syscall_execve listing (pos 0))
unfolding of_u32
run-ret_syscall_execve_example =
    run-ret_syscall_execve table table-IsLawful shell listing (pos 0) between no_records refl refl
      (refl, (refl, tt)) (inl refl)

-- There is no memory for the maps.
abbrev scarce : Answers
scarce = record {
  object_ok = true;
  skeleton_ok = true;
  maps_ok = false;
  progs_ok = true;
  open_err = pos 0;
  load_err = pos 0;
}

open_and_load-frees_example :
    ((libbpf_open_and_load scarce empty_heap).1.object_allocs
      ≡ (libbpf_open_and_load scarce empty_heap).1.object_frees
        + count (libbpf_open_and_load scarce empty_heap).0)
    × ((libbpf_open_and_load scarce empty_heap).1.skeleton_allocs
        ≡ (libbpf_open_and_load scarce empty_heap).1.skeleton_frees
          + count (libbpf_open_and_load scarce empty_heap).0)
open_and_load-frees_example = open_and_load-frees scarce

open_and_load_double_free_example :
    ((arch_open_and_load aarch64 scarce empty_heap).0 ≡ none)
    × ((arch_open_and_load aarch64 scarce empty_heap).1.skeleton_allocs ≡ 1)
    × ((arch_open_and_load aarch64 scarce empty_heap).1.skeleton_frees ≡ 2)
open_and_load_double_free_example = open_and_load_double_free aarch64 scarce refl refl refl
