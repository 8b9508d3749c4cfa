-- ===== src/Snoop/Kernel/Reports.antt =====
-- The events that reach the perf buffer are the successful calls of `execve`, each once.
use cgproxy.Base.{
  true, false, none, some, List, [], ◌∷◌, ◌++◌, if◌then◌else◌, take, All, ◌≡◌, ◌⊎◌, inl, inr, refl,
  sym, ap, ◌∙◌, arith, Bool-cases, Option-cases,
}
use cgproxy.Base.Int.{ℤ, eq_ℤ, eq_ℤ_iff}
use cgproxy.Snoop.Kernel.{
  Event, empty_event, Task, pid_of, is_negative, task_comm_len, Records, filled, enter, leave, Call,
  entering, leaving, emit, run,
}
use cgproxy.Snoop.Kernel.Laws.{
  IsLawful, Others, run-append, lookup-enter, lookup-leave_self, lookup-leave_other,
  lookup-run-Others, eq_ℤ_refl,
}

-- What is reported of an `execve` that was entered by `t` and left by `u` with `ret`.
abbrev pub report : Task → Task → ℤ → List Event
report t u ret =
    if is_negative ret
    then []
    else record (filled t empty_event) { comm = take task_comm_len u.comm } ∷ []

-- Some call of this process leaves `execve` with success.
abbrev pub Succeeds : ℤ → List Call → Type 0
Succeeds p [] = ⊥
Succeeds p (entering _ ∷ calls) = Succeeds p calls
Succeeds p (leaving t ret ∷ calls) =
    ◌⊎◌ ((pid_of t ≡ p) × (is_negative ret ≡ false)) (Succeeds p calls)

All-weaken :
    (p : Call) (calls : List Call) (es : List Event)
    → All (λ e. Succeeds e.pid calls) es
    → All (λ e. Succeeds e.pid (p ∷ calls)) es
All-weaken p calls [] h = tt
All-weaken (entering t) calls (e ∷ es) h = (h.0, All-weaken (entering t) calls es h.1)
All-weaken (leaving t r) calls (e ∷ es) h = (inr h.0, All-weaken (leaving t r) calls es h.1)

module _ (records : Records) (law : IsLawful records) where
  leave-recorded :
      (t u : Task) (ret : ℤ) (m : records.State)
      → records.lookup (pid_of u) m ≡ some (filled t empty_event)
      → emit (leave records u ret m).0 [] ≡ report t u ret
  unfolding leave
  leave-recorded t u ret m there = ground arith

  -- An execve of a process that has no record yet, with calls of other processes in between, is
  -- reported exactly once if it succeeds and not at all if it fails, with the ids of its entry and
  -- the name that it has at its exit, and leaves no record behind, on every hash map that keeps the
  -- laws of the kernel.
  pub run_reports :
      (t u : Task) (ret : ℤ) (others : List Call) (m : records.State)
      → pid_of u ≡ pid_of t
      → (records.update (pid_of t) empty_event m).0 ≡ true
      → Others (pid_of t) others
      → let out = run records (entering t ∷ (others ++ leaving u ret ∷ [])) m in
        (out.0 ≡ (run records others (enter records t m)).0 ++ report t u ret)
        × (records.lookup (pid_of t) out.1 ≡ none)
  unfolding run
  run_reports t u ret others m same room apart =
      let n = enter records t m in
      let before = (run records others n).1 in
      let there : records.lookup (pid_of u) before ≡ some (filled t empty_event) =
        rw
          (
            same,
            lookup-run-Others records law (pid_of t) others n apart,
            lookup-enter records law (pid_of t) t m,
            eq_ℤ_refl (pid_of t),
            room,
          )
          refl in
      rw (run-append records others (leaving u ret ∷ []) n) (
        ap (λ es. (run records others n).0 ++ es) (leave-recorded t u ret before there),
        rw (← same) (lookup-leave_self records law u ret before),
      )

  -- Each record stands under the pid that it names.
  abbrev IsTagged : records.State → Type 0
  IsTagged m = (k : ℤ) (e : Event) → records.lookup k m ≡ some e → e.pid ≡ k

  enter-IsTagged : (t : Task) (m : records.State) → IsTagged m → IsTagged (enter records t m)
  enter-IsTagged t m tagged k e h =
      ground (arith, lookup-enter records law k t m, tagged k e, eq_ℤ_iff k (pid_of t))

  leave-IsTagged :
      (t : Task) (ret : ℤ) (m : records.State) → IsTagged m → IsTagged (leave records t ret m).1
  leave-IsTagged t ret m tagged k e h = elim (Bool-cases (eq_ℤ k (pid_of t))) [
    | inl self ↦
        let here : k ≡ pid_of t = (eq_ℤ_iff k (pid_of t)).0 self in
        let gone : records.lookup k (leave records t ret m).1 ≡ none =
          rw here (lookup-leave_self records law t ret m) in
        cc
    | inr other ↦ tagged k e (sym (lookup-leave_other records law k t ret m other) ∙ h)
  ]

  emitted-pid :
      (t : Task) (ret : ℤ) (m : records.State) (e : Event)
      → IsTagged m
      → (leave records t ret m).0 ≡ some e
      → (pid_of t ≡ e.pid) × (is_negative ret ≡ false)
  unfolding leave
  emitted-pid t ret m e tagged h = elim (Option-cases (records.lookup (pid_of t) m)) [
    | inl absent ↦ ground arith
    | inr (f, there) ↦ ground (arith, tagged (pid_of t) f there)
  ]

  -- From a map whose records stand under the pids that they name, nothing is reported but processes
  -- that left a successful execve.
  run-Succeeds :
      (calls : List Call) (m : records.State)
      → IsTagged m
      → All (λ e. Succeeds e.pid calls) (run records calls m).0
  unfolding run
  run-Succeeds [] m tagged = tt
  run-Succeeds (entering t ∷ calls) m tagged =
      All-weaken (entering t) calls _
        (run-Succeeds calls (enter records t m) (enter-IsTagged t m tagged))
  run-Succeeds (leaving t ret ∷ calls) m tagged =
      let out = leave records t ret m in
      let later =
        All-weaken (leaving t ret) calls _
          (run-Succeeds calls out.1 (leave-IsTagged t ret m tagged)) in
      elim (Option-cases out.0) [
        | inl silent ↦ rw silent later
        | inr (e, emitted) ↦ rw emitted (inl (emitted-pid t ret m e tagged emitted), later)
      ]
