-- ===== src/Daemon/Interleave/Preserved.antt =====
-- Processes in a preserved cgroup while a configuration is loaded.
use cgproxy.Base.{
  true, none, some, List, [], ◌∷◌, Bytes, is_empty, contains, All, ◌≡◌, inl, inr, refl, Bool-cases,
  Option-cases,
}
use cgproxy.Base.Int.{ℤ}
use cgproxy.Base.Decimal.{show_ℤ}
use cgproxy.Effect.{Outcome, returned, raised, exited, hangs, ◌>>=◌, >>=-keeps, ret}
use cgproxy.System.{Os}
use cgproxy.Json.{Json}
use cgproxy.Proc.{get_cgroup}
use cgproxy.Config.{Config}
use cgproxy.Config.Load.{to_real_program_path}
use cgproxy.Config.Load.Lookup.{IsKept, to_real_program_path-keeps}
use cgproxy.Daemon.Place.{is_preserved, exe_link}
use cgproxy.Daemon.Interleave.{
  Block, first, second, target_of, Handler, opening, listing, reading, checking, moving, done,
  behind, handler_step, Write, writes, finishing,
}
use cgproxy.Daemon.Interleave.Mixed.{
  Moment, Shared, stored, loader_step, handled, loads, handles, Reach, here, after, begin,
}

-- Nothing was moved, and nothing is about to be.
abbrev pub Calm : Handler → Type 0
Calm (checking _ _ _) = ⊥
Calm (moving _ _ _) = ⊥
Calm (done (some _) _) = ⊥
Calm _ = Unit {0}

-- The process has this cgroup.
abbrev pub Stays : (os : Os) → ℤ → Bytes → os.State → Type 0
Stays os pid cg s = get_cgroup os (show_ℤ pid) s ≡ returned cg

module _ (os : Os) (pid : ℤ) (cg : Bytes) (kept : is_preserved cg ≡ true) where
  open os use {State}

  abbrev Here : State → Type 0
  Here = Stays os pid cg

  abbrev Keeps : Write os → Type 0
  Keeps w = (c : Config) (s : State) → Here s → Here (w c s).1

  behind-Calm : (b : Block) (path : Bytes) → Calm (behind b path)
  behind-Calm first path = tt
  behind-Calm second path = tt

  handler_step-Calm :
      (p : Handler) (c : Config) (s : State)
      → Here s
      → Calm p
      → Calm (handler_step os pid p c s).0 × ((handler_step os pid p c s).1 ≡ s)
  unfolding handler_step
  handler_step-Calm opening c s h k = elim (Option-cases (os.realpath (exe_link os pid) s)) [
    | inl gone ↦ rw (gone, Calm, handler_step) (tt, refl)
    | inr (path, runs) ↦ rw (runs, Calm, handler_step) (tt, refl)
  ]
  handler_step-Calm (listing b path) c s h k =
      elim (Bool-cases (contains path (target_of b c).programs)) [
        | inl found ↦ rw (found, Calm, handler_step) (tt, refl)
        | inr missing ↦ rw (missing, Calm, handler_step) (behind-Calm b path, refl)
      ]
  handler_step-Calm (reading b path) c s h k = elim (Bool-cases (is_empty cg)) [
    | inl empty ↦ rw (h, empty) (tt, refl)
    | inr full ↦ rw (h, full, kept) (tt, refl)
  ]
  handler_step-Calm (checking _ _ _) c s h k = elim k [ ]
  handler_step-Calm (moving _ _ _) c s h k = elim k [ ]
  handler_step-Calm (done none o) c s h k = (tt, refl)
  handler_step-Calm (done (some _) o) c s h k = elim k [ ]

  -- The process still stands there, and nothing was moved.
  abbrev Inv : Shared os → Type 0
  Inv x = Here x.now.sys × Calm x.handler × All Keeps x.pending

  loader_step-Inv :
      (p : Handler) (ws : List (Write os)) (m : Moment os) (ms : List (Moment os))
      → let x : Shared os = record { handler = p; pending = ws; now = m; past = ms } in
        Inv x → Inv (loader_step os x)
  unfolding loader_step
  loader_step-Inv p [] m ms i = i
  loader_step-Inv p (w ∷ ws) m ms (h, k, (keep, keeps)) =
      by_outcome (w m.config m.sys).0 (w m.config m.sys).1 (keep m.config m.sys h)
    where
      by_outcome :
          (o : Outcome Config) (s : State)
          → Here s
          → Inv (stored os o s ws (record { handler = p; pending = w ∷ ws; now = m; past = ms }))
      by_outcome (returned c) s h = (h, k, keeps)
      by_outcome (raised _) s h = (h, k, tt)
      by_outcome (exited _) s h = (h, k, tt)
      by_outcome hangs s h = (h, k, tt)

  handled-Inv : (x : Shared os) → Inv x → Inv (handled os pid x)
  unfolding handled
  handled-Inv x (h, k, keeps) =
      let (calm, same) = handler_step-Calm x.handler x.now.config x.now.sys h k in
      (rw same h, calm, keeps)

  Reach-Inv : {x y : Shared os} → Reach os pid x y → Inv x → Inv y
  Reach-Inv here i = i
  Reach-Inv (after r (loads x)) i = loader_step-Inv x.handler x.pending x.now x.past (Reach-Inv r i)
  Reach-Inv (after r (handles x)) i = handled-Inv x (Reach-Inv r i)

  resolves-Keeps :
      IsKept os Here
      → (names : Config → List Bytes) (f : Config → List Bytes → Config)
      → Keeps (λ c. to_real_program_path os (names c) >>= (λ v. ret (f c v)))
  resolves-Keeps kept_there names f c s h =
      >>=-keeps Here (to_real_program_path os (names c)) (λ v. ret (f c v)) s
        (to_real_program_path-keeps os Here kept_there (names c) s h) (λ a t q. q)

  writes-Keeps :
      IsKept os (Stays os pid cg) → (json : Json) (j : json.Value) → All Keeps (writes os json j)
  unfolding writes finishing
  writes-Keeps kept_there json j =
      let pure : Config → (s : State) → Here s → Here s = λ c s h. h in
      let last : All Keeps (finishing os) = (
        resolves-Keeps kept_there (λ c. c.program_noproxy)
            (λ c v. record c { program_noproxy = v }),
        (
          resolves-Keeps kept_there (λ c. c.program_proxy) (λ c v. record c { program_proxy = v }),
          (pure, (pure, (pure, (pure, tt)))),
        ),
      ) in
      (
        pure,
        (
          pure,
          (
            pure,
            (
              pure,
              (pure, (pure, (pure, (pure, (pure, (pure, (pure, (pure, (pure, (pure, last)))))))))),
            ),
          ),
        ),
      )

  -- A process in a preserved cgroup is neither moved nor about to be moved while a configuration is
  -- loaded, however the steps of the two threads are mixed, and keeps its cgroup, if running which
  -- and readlink does not change the cgroup that is read for it.
  pub Reach-Calm :
      IsKept os (Stays os pid cg)
      → (json : Json) (j : json.Value) (c : Config) (s : State) {x : Shared os} → Stays os pid cg s
      → Reach os pid (begin os (writes os json j) c s) x
      → Stays os pid cg x.now.sys × Calm x.handler
  Reach-Calm kept_there json j c s h r =
      let (stays, calm, keeps) = Reach-Inv r (h, tt, writes-Keeps kept_there json j) in
      (stays, calm)
