-- ===== src/Daemon/Exclusion/Race.antt =====
-- What the `unlink` of `unlock` allows.
use cgproxy.Base.{ℕ, true, none, some, List, [], ◌∷◌, ◌==◌, ◌≡◌, refl, ◌∙◌, arith}
use cgproxy.Daemon.Exclusion.{
  Files, IsFileSystem, running, daemon_step, World, advance, Reach, here, after, IsInitial,
  run_order,
}

module _ (files : Files) where
  then_on : {x y z : World files} → Reach files x y → Reach files y z → Reach files x z
  then_on r here = r
  then_on r (after q p) = after (then_on r q) p

  pub run_order-Reach : (ps : List ℕ) (x : World files) → Reach files x (run_order files ps x)
  unfolding run_order
  run_order-Reach [] x = here
  run_order-Reach (p ∷ ps) x = then_on (after here p) (run_order-Reach ps (advance files p x))

-- The first daemon is between `close` and `unlink` when the second one opens the file and locks it;
-- the third one begins behind the `unlink`.
abbrev pub overtaken : List ℕ
overtaken = 1 ∷ 1 ∷ 1 ∷ 2 ∷ 2 ∷ 1 ∷ 3 ∷ 3 ∷ []

abbrev pub Runs : (files : Files) → ℕ → World files → Type 0
Runs files p x = (i : ℕ) × (x.pc p ≡ running i)

module _ (files : Files) (law : IsFileSystem files) where
  open files use {State}

  -- A daemon that opens the file where nobody has the lock on it gets the lock.
  lock-free :
      (p : ℕ) (s : State)
      → files.holder (files.open_file s).0 s ≡ none
      → (files.flock p (files.open_file s).0 (files.open_file s).1).0 ≡ true
  lock-free p s free = law.flock_free p _ _ (law.open_holder (files.open_file s).0 s ∙ free)

  -- The state behind `open` and `flock`.
  abbrev locked : ℕ → State → State
  locked p s = (files.flock p (files.open_file s).0 (files.open_file s).1).1

  -- Behind the `close` of a daemon that had the lock the next one finds its file without a lock.
  closed-free :
      (p : ℕ) (s : State)
      → files.holder (files.open_file s).0 s ≡ none
      → let t = files.close p (files.open_file s).0 (locked p s) in
        files.holder (files.open_file t).0 t ≡ none
  closed-free p s free =
      let i = (files.open_file s).0 in
      let t = files.close p i (locked p s) in
      let got = lock-free p s free in
      let self : (i == i) ≡ true = ground arith in
      let own : files.holder i (locked p s) ≡ some p =
        law.flock_holder p i i (files.open_file s).1 ∙ rw (got, self) refl in
      let there : files.named t ≡ some i =
        law.close_named p i (locked p s)
        ∙ law.flock_named p i (files.open_file s).1
        ∙ law.open_names s in
      rw (law.open_there i t there) (law.close_holder p i i (locked p s) own ∙ rw self refl)

  -- From a state with no lock three daemons can come to where two of them run: the second one opens
  -- and locks the file between the close and the unlink of the first one, and the third one begins
  -- behind the unlink, on every file system that keeps the documented laws of open, flock, close
  -- and unlink.
  pub two_daemons :
      (x : World files)
      → IsInitial files x
      → let y = run_order files overtaken x in Reach files x y × Runs files 2 y × Runs files 3 y
  unfolding run_order advance daemon_step
  two_daemons x init =
      let free = init.1 (files.open_file x.fs).0 in
      let first = lock-free 1 x.fs free in
      let t = files.close 1 (files.open_file x.fs).0 (locked 1 x.fs) in
      let second = lock-free 2 t (closed-free 1 x.fs free) in
      let u = files.unlink (locked 2 t) in
      let third = lock-free 3 u (law.open_new u (law.unlink_named (locked 2 t))) in
      (
        run_order-Reach files overtaken x,
        ((files.open_file t).0, rw (init.0 1, init.0 2, first, second) refl),
        ((files.open_file u).0, rw (init.0 1, init.0 2, init.0 3, first, third) refl),
      )
