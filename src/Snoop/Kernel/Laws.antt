-- ===== src/Snoop/Kernel/Laws.antt =====
-- Which calls of `execve` are reported.
use cgproxy.Base.{
  true, false, ◌&&◌, Option, none, some, List, [], ◌∷◌, ◌++◌, if◌then◌else◌, take, All, ◌≡◌, ◌⊎◌,
  inl, inr, refl, ◌∙◌, arith, Bool-cases, Option-cases,
}
use cgproxy.Base.Int.{ℤ, eq_ℤ, eq_ℤ_iff}
use cgproxy.Snoop.Kernel.{
  Event, empty_event, Task, pid_of, task_comm_len, Records, filled, enter, leave, Call, entering,
  leaving, task_of, emit, run,
}

pub eq_ℤ_refl : (n : ℤ) → eq_ℤ n n ≡ true
eq_ℤ_refl n = (eq_ℤ_iff n n).1 refl

-- What the kernel documents of a hash map: an update with BPF_NOEXIST succeeds only on a key that is
-- not there, and changes nothing when it fails.
pub record IsLawful (records : Records) : Type 0 where
  pub lookup-update :
      (j k : ℤ) (e : Event) (m : records.State)
      → (records.update k e m).0 ≡ true
      → records.lookup j (records.update k e m).1
        ≡ (if eq_ℤ j k then some e else records.lookup j m)
  pub update_failed :
      (k : ℤ) (e : Event) (m : records.State)
      → (records.update k e m).0 ≡ false
      → (records.update k e m).1 ≡ m
  pub update_exists :
      (k : ℤ) (e f : Event) (m : records.State)
      → records.lookup k m ≡ some f
      → (records.update k e m).0 ≡ false
  pub lookup-assign :
      (j k : ℤ) (e f : Event) (m : records.State)
      → records.lookup k m ≡ some f
      → records.lookup j (records.assign k e m) ≡ (if eq_ℤ j k then some e else records.lookup j m)
  pub lookup-delete :
      (j k : ℤ) (m : records.State)
      → records.lookup j (records.delete k m) ≡ (if eq_ℤ j k then none else records.lookup j m)

-- Calls of other processes.
abbrev pub Others : ℤ → List Call → Type 0
Others p = All (λ c. eq_ℤ p (pid_of (task_of c)) ≡ false)

module _ (records : Records) (law : IsLawful records) where
  open records use {State}

  -- The entry of `execve` writes the filled record, or changes nothing where there is one already or
  -- no room is left.
  enter-cases :
      (t : Task) (m : State)
      → let out = records.update (pid_of t) empty_event m in
        ((out.0 ≡ false) × (enter records t m ≡ m))
        ⊎ ((out.0 ≡ true)
            × (records.lookup (pid_of t) out.1 ≡ some empty_event)
            × (enter records t m ≡ records.assign (pid_of t) (filled t empty_event) out.1))
  unfolding enter
  enter-cases t m = elim (Bool-cases (records.update (pid_of t) empty_event m).0) [
    | inl done ↦
        let there : records.lookup (pid_of t) (records.update (pid_of t) empty_event m).1
            ≡ some empty_event =
          law.lookup-update (pid_of t) (pid_of t) empty_event m done
          ∙ rw (eq_ℤ_refl (pid_of t)) refl in
        inr (done, there, ground arith)
    | inr failed ↦ inl (failed, ground (arith, law.update_failed (pid_of t) empty_event m))
  ]

  pub lookup-enter :
      (j : ℤ) (t : Task) (m : State)
      → records.lookup j (enter records t m) ≡ (
          if eq_ℤ j (pid_of t) && (records.update (pid_of t) empty_event m).0
          then some (filled t empty_event)
          else records.lookup j m)
  lookup-enter j t m = elim (enter-cases t m) [
    | inl (failed, same) ↦ ground arith
    | inr (done, there, wrote) ↦ ground (
      arith,
      law.lookup-update j (pid_of t) empty_event m,
      law.lookup-assign j (pid_of t) (filled t empty_event) empty_event
          (records.update (pid_of t) empty_event m).1,
    )
  ]

  -- The entry of another process stays as it is.
  lookup-enter_other :
      (j : ℤ) (t : Task) (m : State)
      → eq_ℤ j (pid_of t) ≡ false
      → records.lookup j (enter records t m) ≡ records.lookup j m
  lookup-enter_other j t m ne = rw (lookup-enter j t m, ne) refl

  pub lookup-leave_other :
      (j : ℤ) (t : Task) (ret : ℤ) (m : State)
      → eq_ℤ j (pid_of t) ≡ false
      → records.lookup j (leave records t ret m).1 ≡ records.lookup j m
  unfolding leave
  lookup-leave_other j t ret m ne = elim (Option-cases (records.lookup (pid_of t) m)) [
    | inl absent ↦ rw (absent, leave) refl
    | inr (e, there) ↦ ground (
      arith,
      law.lookup-delete j (pid_of t) m,
      law.lookup-assign j (pid_of t) (record e { comm = take task_comm_len t.comm }) e m,
      law.lookup-delete j (pid_of t)
          (records.assign (pid_of t) (record e { comm = take task_comm_len t.comm }) m),
    )
  ]

  -- No entry of the process is left behind by the exit of its `execve`.
  pub lookup-leave_self :
      (t : Task) (ret : ℤ) (m : State) → records.lookup (pid_of t) (leave records t ret m).1 ≡ none
  unfolding leave
  lookup-leave_self t ret m = elim (Option-cases (records.lookup (pid_of t) m)) [
    | inl absent ↦ rw (absent, leave) absent
    | inr (e, there) ↦ ground (
      arith,
      eq_ℤ_refl (pid_of t),
      law.lookup-delete (pid_of t) (pid_of t) m,
      law.lookup-delete (pid_of t) (pid_of t)
          (records.assign (pid_of t) (record e { comm = take task_comm_len t.comm }) m),
    )
  ]

  pub lookup-run-Others :
      (p : ℤ) (calls : List Call) (m : State)
      → Others p calls
      → records.lookup p (run records calls m).1 ≡ records.lookup p m
  unfolding run
  lookup-run-Others p [] m h = refl
  lookup-run-Others p (entering t ∷ calls) m h =
      lookup-run-Others p calls (enter records t m) h.1 ∙ lookup-enter_other p t m h.0
  lookup-run-Others p (leaving t ret ∷ calls) m h =
      lookup-run-Others p calls (leave records t ret m).1 h.1 ∙ lookup-leave_other p t ret m h.0

emit-append : (o : Option Event) (xs ys : List Event) → emit o (xs ++ ys) ≡ emit o xs ++ ys
emit-append none xs ys = refl
emit-append (some e) xs ys = refl

-- The calls behind go on from the map that the calls in front leave.
pub run-append :
    (records : Records) (xs ys : List Call) (m : records.State)
    → run records (xs ++ ys) m ≡ (
      (run records xs m).0 ++ (run records ys (run records xs m).1).0,
      (run records ys (run records xs m).1).1,
    )
unfolding run
run-append records [] ys m = refl
run-append records (entering t ∷ xs) ys m = run-append records xs ys (enter records t m)
run-append records (leaving t ret ∷ xs) ys m =
    let out = leave records t ret m in
    rw
      (
        run-append records xs ys out.1,
        emit-append out.0 (run records xs out.1).0 (run records ys (run records xs out.1).1).0,
      )
      refl
