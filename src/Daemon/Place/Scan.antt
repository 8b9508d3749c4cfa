-- ===== src/Daemon/Place/Scan.antt =====
-- The scan of running processes, `processRunningProgram`, to its end: it returns, and leaves alone what
-- has come to a preserved cgroup.
pub mod Found
use cgproxy.Base.{
  ℕ, Bool, true, false, not, Option, none, some, List, [], ◌∷◌, ◌++◌, map, Bytes, codes, bytes_eq,
  bytes_eq_iff, is_empty, if◌then◌else◌, ◌≡◌, ◌≢◌, ◌⊎◌, inl, inr, refl, ◌∙◌, ap, arith, Bool-cases,
}
use cgproxy.Base.Int.{ℤ, pos}
use cgproxy.Base.Decimal.{show_ℤ}
use cgproxy.Constants.{cgroup2_mount_point, success}
use cgproxy.Effect.{returned, Returns, >>=-Returns, >>=-keeps}
use cgproxy.System.{Os}
use cgproxy.Text.{belong_to_any}
use cgproxy.Proc.{get_cgroup}
use cgproxy.Pidof.{bash_pidof}
use cgproxy.Pidof.Laws.{pidof_text, pids_of-pidof_text}
use cgproxy.Attach.{attach_int}
use cgproxy.Attach.Laws.{MovesWritten, IsSettled, attach-IsSettled}
use cgproxy.Attach.Frame.{IsQuiet, attach-keeps, attach-Returns}
use cgproxy.Config.{Config}
use cgproxy.Daemon.Place.{
  Target, noproxy, proxy, is_preserved, settle, place, place_pids, place_running,
  process_running_program,
}

module _ (os : Os) (quiet : IsQuiet os) where
  open os use {State}

  settle-Returns : (u : Target) (q : ℤ) (cg : Bytes) (s : State) → Returns (settle os u q cg s)
  unfolding settle attach_int
  settle-Returns u q cg s = elim (Bool-cases (is_empty cg)) [
    | inl gone ↦ (some (pos 0), rw gone refl)
    | inr there ↦ elim (Bool-cases (is_preserved cg)) [
      | inl kept ↦ (some (pos 0), rw (there, kept) refl)
      | inr free ↦ elim (Bool-cases (belong_to_any cg u.cgroups)) [
        | inl listed ↦ (none, rw (there, free, listed) refl)
        | inr elsewhere ↦
            let (n, e) = attach-Returns os quiet (show_ℤ q) cgroup2_mount_point u.preserved s in
            (some n, rw (there, free, elsewhere, e) refl)
      ]
    ]
  ]

  pub place-Returns : (u : Target) (q : ℤ) (s : State) → Returns (place os u q s)
  unfolding place
  place-Returns u q s =
      let (cg, at) = quiet.readable (show_ℤ q) s in rw at (settle-Returns u q cg s)

  pub attach_int-same :
      (q pid : ℤ) (cg : Bytes) (s : State)
      → show_ℤ q ≡ show_ℤ pid
      → attach_int os cgroup2_mount_point q cg s ≡ attach_int os cgroup2_mount_point pid cg s
  unfolding attach_int
  attach_int-same q pid cg s same = rw same refl

  -- Another process stays where it is.
  pub place-keeps :
      (u : Target) (q pid : ℤ) (s : State)
      → show_ℤ q ≢ show_ℤ pid
      → get_cgroup os (show_ℤ pid) (place os u q s).1 ≡ get_cgroup os (show_ℤ pid) s
  unfolding place settle attach_int
  place-keeps u q pid s other = ground (
    arith,
    quiet.readable (show_ℤ q) s,
    attach-keeps os quiet (show_ℤ q) (show_ℤ pid) other cgroup2_mount_point u.preserved s,
    attach-Returns os quiet (show_ℤ q) cgroup2_mount_point u.preserved s,
  )

  pub bash_pidof-keeps :
      (path pid : Bytes) (s : State)
      → get_cgroup os pid (bash_pidof os path s).1 ≡ get_cgroup os pid s
  unfolding bash_pidof
  bash_pidof-keeps path pid s = ground (arith, quiet.pidof_keeps pid path s)

  module _ (pid : ℤ) (target : Bytes) (pre : is_preserved target ≡ true) where
    abbrev pub Settled : State → Type 0
    Settled s = IsSettled os (show_ℤ pid) target s

    -- A process that has come to a preserved cgroup, or is gone, is left alone.
    place-left :
        (u : Target) (q : ℤ) (s : State)
        → show_ℤ q ≡ show_ℤ pid
        → Settled s
        → (place os u q s).1 ≡ s
    unfolding place settle
    place-left u q s same (inl there) = ground (arith, pre)
    place-left u q s same (inr gone) = ground arith

    pub place-Settled : (u : Target) (q : ℤ) (s : State) → Settled s → Settled (place os u q s).1
    place-Settled u q s done = elim (Bool-cases (bytes_eq (show_ℤ q) (show_ℤ pid))) [
      | inl same ↦ rw (place-left u q s ((bytes_eq_iff (show_ℤ q) (show_ℤ pid)).0 same) done) done
      | inr other ↦
          let ne : show_ℤ q ≢ show_ℤ pid = ground (arith, bytes_eq_iff (show_ℤ q) (show_ℤ pid)) in
          rw (place-keeps u q pid s ne) done
    ]

    pub place_pids-Settled :
        (u : Target) (qs : List ℤ) (s : State) → Settled s → Settled (place_pids os u qs s).1
    unfolding place_pids
    place_pids-Settled u [] s done = done
    place_pids-Settled u (q ∷ qs) s done =
        >>=-keeps Settled (place os u q) _ s (place-Settled u q s done)
          (λ _ r d. place_pids-Settled u qs r d)

    bash_pidof-Settled : (path : Bytes) (s : State) → Settled s → Settled (bash_pidof os path s).1
    bash_pidof-Settled path s done = rw (bash_pidof-keeps path (show_ℤ pid) s) done

    pub place_running-Settled :
        (u : Target) (paths : List Bytes) (s : State)
        → Settled s
        → Settled (place_running os u paths s).1
    unfolding place_running
    place_running-Settled u [] s done = done
    place_running-Settled u (path ∷ paths) s done =
        >>=-keeps Settled (bash_pidof os path) _ s (bash_pidof-Settled path s done) λ pids r d.
          >>=-keeps Settled (place_pids os u pids) _ r (place_pids-Settled u pids r d)
            (λ _ v e. place_running-Settled u paths v e)

  -- `pidof` prints pids, or does not run.
  abbrev pub PrintsPids : Type 0
  PrintsPids =
      (path : Bytes) (s : State)
      → ((os.popen (codes "pidof " ++ path) s).0 ≡ none)
        ⊎ ((ns : List ℕ) × ((os.popen (codes "pidof " ++ path) s).0 ≡ some (pidof_text ns)))

  -- `pidof` prints this process for the program, whenever it is asked.
  abbrev pub Finds : Bytes → ℕ → Type 0
  Finds path p =
      (s : State)
      → (before after : List ℕ) × ((os.popen (codes "pidof " ++ path) s).0
          ≡ some (pidof_text (before ++ p ∷ after)))

  pub bash_pidof-printed :
      (path : Bytes) (s : State) (ns : List ℕ)
      → (os.popen (codes "pidof " ++ path) s).0 ≡ some (pidof_text ns)
      → (bash_pidof os path s).0 ≡ returned (map pos ns)
  unfolding bash_pidof
  bash_pidof-printed path s ns e =
      ground (arith, pids_of-pidof_text (os.unset_int (os.popen (codes "pidof " ++ path) s).1) ns)

  pub place_pids-Returns : (u : Target) (qs : List ℤ) (s : State) → Returns (place_pids os u qs s)
  unfolding place_pids
  place_pids-Returns u [] s = (tt, refl)
  place_pids-Returns u (q ∷ qs) s =
      >>=-Returns (place os u q) _ s (place-Returns u q s) (λ _ r. place_pids-Returns u qs r)

  module _ (prints : PrintsPids) where
    pub bash_pidof-Returns : (path : Bytes) (s : State) → Returns (bash_pidof os path s)
    unfolding bash_pidof
    bash_pidof-Returns path s = elim (prints path s) [
      | inl failed ↦ ([], rw (failed, bash_pidof) refl)
      | inr (ns, printed) ↦ (map pos ns, bash_pidof-printed path s ns printed)
    ]

    place_running-Returns :
        (u : Target) (paths : List Bytes) (s : State) → Returns (place_running os u paths s)
    unfolding place_running
    place_running-Returns u [] s = (tt, refl)
    place_running-Returns u (path ∷ paths) s =
        >>=-Returns (bash_pidof os path) _ s (bash_pidof-Returns path s) λ pids r.
          >>=-Returns (place_pids os u pids) _ r (place_pids-Returns u pids r)
            (λ _ v. place_running-Returns u paths v)

    -- The scan ends.
    pub process_running_program-Returns :
        (c : Config) (s : State) → Returns (process_running_program os c s)
    unfolding process_running_program
    process_running_program-Returns c s =
        >>=-Returns (place_running os (noproxy c) c.program_noproxy) _ s
          (place_running-Returns (noproxy c) c.program_noproxy s)
          (λ _ r. place_running-Returns (proxy c) c.program_proxy r)
