-- ===== src/Daemon/Place/Scan/Found.antt =====
-- Where the scan of running processes leaves a process that `pidof` finds.
use mathlib.Core.Path.{subst}
use cgproxy.Base.{
  sym, ℕ, true, false, List, [], ◌∷◌, ◌++◌, map, Bytes, bytes_eq, bytes_eq_iff, ◌≡◌, ◌≢◌, ◌⊎◌, inl,
  inr, refl, ◌∙◌, arith, Bool-cases,
}
use cgproxy.Base.Int.{ℤ, pos}
use cgproxy.Base.Decimal.{show_ℤ}
use cgproxy.Constants.{cgroup2_mount_point, success}
use cgproxy.Effect.{returned, Returns, >>=-keeps}
use cgproxy.System.{Os}
use cgproxy.Text.{belong_to_any}
use cgproxy.Proc.{get_cgroup}
use cgproxy.Pidof.{bash_pidof}
use cgproxy.Attach.{attach_int}
use cgproxy.Attach.Laws.{MovesWritten, IsSettled, attach-IsSettled}
use cgproxy.Attach.Frame.{IsQuiet}
use cgproxy.Config.{Config}
use cgproxy.Daemon.Place.{
  Target, noproxy, proxy, is_preserved, settle, place, place_pids, place_running,
  process_running_program,
}
use cgproxy.Daemon.Place.Scan.{
  PrintsPids, Finds, place-Returns, place-keeps, place-Settled, place_pids-Settled,
  place_running-Settled, bash_pidof-printed, place_pids-Returns, bash_pidof-keeps, attach_int-same,
  bash_pidof-Returns, process_running_program-Returns,
}
use cgproxy.Text.{belong_to_cgroup}
use cgproxy.Constants.{cgroup_noproxy_preserved}

module _ (os : Os) (quiet : IsQuiet os) (prints : PrintsPids os quiet) where
  open os use {State}

  module _ (u : Target) (p : ℕ) (cg : Bytes) (pre : is_preserved u.preserved ≡ true)
      (moves : MovesWritten os cgroup2_mount_point) (there : cg ≢ [])
      (free : is_preserved cg ≡ false) (elsewhere : belong_to_any cg u.cgroups ≡ false)
      (answers : (s : State)
        → get_cgroup os (show_ℤ (pos p)) s ≡ returned cg
        → (attach_int os cgroup2_mount_point (pos p) u.preserved s).0 ≡ returned success) where
    abbrev IsDone : State → Type 0
    IsDone s = IsSettled os (show_ℤ (pos p)) u.preserved s

    -- The process waits in its cgroup, or has come to the preserved one.
    abbrev IsPlaced : State → Type 0
    IsPlaced s = (get_cgroup os (show_ℤ (pos p)) s ≡ returned cg) ⊎ IsDone s

    place-attach :
        (q : ℤ) (s : State)
        → show_ℤ q ≡ show_ℤ (pos p)
        → get_cgroup os (show_ℤ (pos p)) s ≡ returned cg
        → (place os u q s).1 ≡ (attach_int os cgroup2_mount_point (pos p) u.preserved s).1
    unfolding place settle
    place-attach q s same at =
        ground (arith, attach_int-same os quiet q (pos p) u.preserved s same, answers s at)

    place-waiting :
        (q : ℤ) (s : State)
        → show_ℤ q ≡ show_ℤ (pos p)
        → get_cgroup os (show_ℤ (pos p)) s ≡ returned cg
        → IsDone (place os u q s).1
    unfolding attach_int
    place-waiting q s same at = rw (place-attach q s same at) (
        attach-IsSettled os cgroup2_mount_point (show_ℤ (pos p)) u.preserved moves s (answers s at))

    place-found : (s : State) → IsPlaced s → IsDone (place os u (pos p) s).1
    place-found s (inl at) = place-waiting (pos p) s refl at
    place-found s (inr done) = place-Settled os quiet (pos p) u.preserved pre u (pos p) s done

    place-IsPlaced : (q : ℤ) (s : State) → IsPlaced s → IsPlaced (place os u q s).1
    place-IsPlaced q s (inr done) = inr (place-Settled os quiet (pos p) u.preserved pre u q s done)
    place-IsPlaced q s (inl at) = elim (Bool-cases (bytes_eq (show_ℤ q) (show_ℤ (pos p)))) [
      | inl same ↦ inr (place-waiting q s ((bytes_eq_iff (show_ℤ q) (show_ℤ (pos p))).0 same) at)
      | inr other ↦
          let ne : show_ℤ q ≢ show_ℤ (pos p) =
            ground (arith, bytes_eq_iff (show_ℤ q) (show_ℤ (pos p))) in
          inl (place-keeps os quiet u q (pos p) s ne ∙ at)
    ]

    place_pids-IsPlaced : (qs : List ℤ) (s : State) → IsPlaced s → IsPlaced (place_pids os u qs s).1
    unfolding place_pids
    place_pids-IsPlaced [] s h = h
    place_pids-IsPlaced (q ∷ qs) s h =
        >>=-keeps IsPlaced (place os u q) _ s (place-IsPlaced q s h)
          (λ _ r d. place_pids-IsPlaced qs r d)

    place_pids-found :
        (before after : List ℕ) (s : State)
        → IsPlaced s
        → IsDone (place_pids os u (map pos (before ++ p ∷ after)) s).1
    unfolding place_pids
    place_pids-found [] after s h =
        >>=-keeps IsDone (place os u (pos p)) _ s (place-found s h)
          (λ _ r d. place_pids-Settled os quiet (pos p) u.preserved pre u (map pos after) r d)
    place_pids-found (q ∷ before) after s h =
        let (o, e) = place-Returns os quiet u (pos q) s in
        rw e (place_pids-found before after (place os u (pos q) s).1 (place-IsPlaced (pos q) s h))

    bash_pidof-IsPlaced :
        (path : Bytes) (s : State) → IsPlaced s → IsPlaced (bash_pidof os path s).1
    bash_pidof-IsPlaced path s h = rw (bash_pidof-keeps os quiet path (show_ℤ (pos p)) s) h

    place_running-found :
        (earlier later : List Bytes) (path : Bytes) (s : State)
        → Finds os quiet path p
        → IsPlaced s
        → IsDone (place_running os u (earlier ++ path ∷ later) s).1
    unfolding place_running
    place_running-found [] later path s finds h =
        let (before, after, printed) = finds s in
        let r = (bash_pidof os path s).1 in
        rw (bash_pidof-printed os quiet path s (before ++ p ∷ after) printed) (
          >>=-keeps IsDone (place_pids os u (map pos (before ++ p ∷ after))) _ r
            (place_pids-found before after r (bash_pidof-IsPlaced path s h))
            (λ _ v d. place_running-Settled os quiet (pos p) u.preserved pre u later v d))
    place_running-found (first ∷ earlier) later path s finds h =
        let (pids, e) = bash_pidof-Returns os quiet prints first s in
        let r = (bash_pidof os first s).1 in
        let (_, f) = place_pids-Returns os quiet u pids r in
        rw e (
          rw f (
            place_running-found earlier later path (place_pids os u pids r).1 finds
              (place_pids-IsPlaced pids r (bash_pidof-IsPlaced first s h))))

    -- One of the two loops of the scan leaves a process of a listed program in the preserved cgroup of the
    -- list, or gone.
    place_running-IsSettled :
        (earlier later : List Bytes) (path : Bytes) (s : State)
        → Finds os quiet path p
        → get_cgroup os (show_ℤ (pos p)) s ≡ returned cg
        → IsDone (place_running os u (earlier ++ path ∷ later) s).1
    place_running-IsSettled earlier later path s finds at =
        place_running-found earlier later path s finds (inl at)

  -- If a write to cgroup.procs moves a process and nobody else does, all entries in /proc can be
  -- read and pidof prints pids, the scan ends; and a process that pidof finds for a program in
  -- program_noproxy, in a cgroup that is neither empty nor preserved nor a cgroup_noproxy and from
  -- which its attach answers 0, is then in the preserved cgroup without proxy, or is gone, whatever
  -- the other programs are, also if its program is in program_proxy.
  pub process_running_program-IsSettled :
      MovesWritten os cgroup2_mount_point
      → (c : Config) (earlier later : List Bytes) (path : Bytes) (p : ℕ) (cg : Bytes) (s : State)
      → c.program_noproxy ≡ earlier ++ path ∷ later
      → Finds os quiet path p
      → get_cgroup os (show_ℤ (pos p)) s ≡ returned cg
      → cg ≢ []
      → is_preserved cg ≡ false
      → belong_to_any cg c.cgroup_noproxy ≡ false
      → ((r : State)
          → get_cgroup os (show_ℤ (pos p)) r ≡ returned cg
          → (attach_int os cgroup2_mount_point (pos p) cgroup_noproxy_preserved r).0
            ≡ returned success)
      → Returns (process_running_program os c s)
        × IsSettled os (show_ℤ (pos p)) cgroup_noproxy_preserved (process_running_program os c s).1
  unfolding process_running_program is_preserved belong_to_cgroup
  process_running_program-IsSettled moves c earlier later path p cg s listed finds at there free
        elsewhere answers =
      let first : IsSettled os (show_ℤ (pos p)) cgroup_noproxy_preserved
          (place_running os (noproxy c) (earlier ++ path ∷ later) s).1 =
        place_running-IsSettled (noproxy c) p cg refl moves there free elsewhere answers earlier
          later path s finds at in
      (
        process_running_program-Returns os quiet prints c s,
        >>=-keeps (IsSettled os (show_ℤ (pos p)) cgroup_noproxy_preserved)
            (place_running os (noproxy c) c.program_noproxy) _ s
            (subst
              (λ l.
                IsSettled os (show_ℤ (pos p)) cgroup_noproxy_preserved
                  (place_running os (noproxy c) l s).1)
              (sym listed) first)
            (λ _ r d.
              place_running-Settled os quiet (pos p) cgroup_noproxy_preserved refl (proxy c)
                c.program_proxy r d),
      )
