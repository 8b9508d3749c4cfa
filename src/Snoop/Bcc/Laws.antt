-- ===== src/Snoop/Bcc/Laws.antt =====
-- What the bcc variant tells the daemon, beside what the other one does.
use cgproxy.Base.{
  ℕ, ◌<◌, ap, ◌∙◌, ◌++◌, true, Bool, ◌&&◌, Option, none, some, List, [], ◌∷◌, if◌then◌else◌, ◌≡◌,
  ◌⊎◌, refl, arith, inl, inr,
}
use cgproxy.Base.Int.{ℤ, pos, negsuc}
use cgproxy.Effect.{M}
use cgproxy.Snoop.Kernel.{
  Event, empty_event, Task, pid_of, Records, Call, entering, leaving, enter, run,
}
use cgproxy.Snoop.Kernel.Laws.{IsLawful, Others}
use cgproxy.Base.Word.{IsInt, of_u32-to_u32}
use cgproxy.Snoop.Kernel.Reports.{report, run_reports}
use cgproxy.Snoop.Loop.{is_ok}
use cgproxy.Snoop.Bcc.{
  Data, Bpf, truncated, ret_syscall_execve, serve_events, bcc_execsnoop, start_bcc,
}

-- The four steps of bcc succeed.
abbrev all_done : Bpf → Bool
all_done b = is_ok b.init_code && is_ok b.attach_code && is_ok b.open_code && is_ok b.free_err

start_bcc-fulfilled :
    {D : Type 0} (callback : ℤ → M D ℤ) (bpf : Bpf) (d : D)
    → (start_bcc callback bpf d).1.fulfilled ≡ (if all_done bpf then 1 else 0)
unfolding start_bcc bcc_execsnoop serve_events
start_bcc-fulfilled callback bpf d = ground arith

abbrev pub pids : List Event → List ℤ
pids [] = []
pids (e ∷ es) = e.pid ∷ pids es

abbrev pub told : Option Data → List ℤ
told none = []
told (some x) = x.pid ∷ []

-- A successful `execve` returns 0, and one that fails an error, which is no less than -4095.
abbrev IsExecveResult : ℤ → Type 0
IsExecveResult ret = (ret ≡ pos 0) ⊎ ((n : ℕ) × (n < 4095) × (ret ≡ negsuc n))

truncated-IsInt : (n : ℤ) → IsInt n → truncated n ≡ n
unfolding truncated
truncated-IsInt n h = of_u32-to_u32 n h

report-ret_syscall_execve :
    (t u : Task) (ret : ℤ)
    → pid_of u ≡ pid_of t
    → IsExecveResult ret
    → pids (report t u ret) ≡ told (ret_syscall_execve u ret)
unfolding ret_syscall_execve
report-ret_syscall_execve t u ret same (inl done) =
    rw (done, truncated-IsInt (pos 0) (omega arith), same) refl
report-ret_syscall_execve t u ret same (inr (n, small, e)) =
    rw (e, truncated-IsInt (negsuc n) (omega (arith, small))) refl

pids-append : (xs ys : List Event) → pids (xs ++ ys) ≡ pids xs ++ pids ys
pids-append [] ys = refl
pids-append (x ∷ xs) ys = ap (◌∷◌ x.pid) (pids-append xs ys)

-- For an execve of a process that has no record yet, with calls of other processes in between,
-- which returns 0 or an error between -1 and -4095, the programs of the other variants add to what
-- they report of the other calls exactly the pids that the probe of the bcc variant hands over at
-- the exit, on every hash map that keeps the laws of the kernel.
pub run-ret_syscall_execve :
    (records : Records)
    → IsLawful records
    → (t u : Task) (ret : ℤ) (others : List Call) (m : records.State) → pid_of u ≡ pid_of t
    → (records.update (pid_of t) empty_event m).0 ≡ true
    → Others (pid_of t) others
    → IsExecveResult ret
    → pids (run records (entering t ∷ (others ++ leaving u ret ∷ [])) m).0
      ≡ pids (run records others (enter records t m)).0 ++ told (ret_syscall_execve u ret)
run-ret_syscall_execve records law t u ret others m same room apart result =
    ap pids (run_reports records law t u ret others m same room apart).0
    ∙ pids-append (run records others (enter records t m)).0 (report t u ret)
    ∙ ap (λ ps. pids (run records others (enter records t m)).0 ++ ps)
        (report-ret_syscall_execve t u ret same result)
