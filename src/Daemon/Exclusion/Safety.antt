-- ===== src/Daemon/Exclusion/Safety.antt =====
-- How many daemons run at once.
use cgproxy.Base.{
  ℕ, true, false, some, ◌==◌, ◌≡◌, ◌≢◌, ◌⊎◌, inl, inr, refl, sym, ◌∙◌, ap, arith, Bool-cases,
}
use cgproxy.Daemon.Exclusion.{
  Files, IsFileSystem, Pc, outside, opened, running, unlocking, stopped, failed, daemon_step, World,
  advance, Reach, here, after, IsInitial,
}

module _ (files : Files) (law : IsFileSystem files) where
  open files use {State}

  -- A daemon that runs has the lock on its file.
  abbrev Owns : ℕ → Pc → State → Type 0
  Owns p v s = (i : ℕ) → v ≡ running i → files.holder i s ≡ some p

  -- The lock of another daemon stays while one makes its call.
  holder-other :
      (p q : ℕ) (v : Pc) (s : State) (i : ℕ)
      → (q == p) ≡ false
      → Owns p v s
      → files.holder i s ≡ some q
      → files.holder i (daemon_step files p v s).1 ≡ some q
  unfolding daemon_step
  holder-other p q outside s i ne o k = law.open_holder i s ∙ k
  holder-other p q (opened j) s i ne o k = elim (Bool-cases (files.flock p j s).0) [
    | inl taken ↦ ground (arith, law.flock_holder p j i s, law.flock_held p q j s)
    | inr refused ↦ law.flock_holder p j i s ∙ rw refused k
  ]
  holder-other p q (running j) s i ne o k =
      let own : files.holder j s ≡ some p = o j refl in ground (arith, law.close_holder p j i s own)
  holder-other p q (unlocking j) s i ne o k = law.unlink_holder i s ∙ k
  holder-other p q stopped s i ne o k = k
  holder-other p q failed s i ne o k = k

  self-Owns :
      (p : ℕ) (v : Pc) (s : State) → Owns p (daemon_step files p v s).0 (daemon_step files p v s).1
  unfolding daemon_step
  self-Owns p outside s i e = cc
  self-Owns p (opened j) s i e = elim (Bool-cases (files.flock p j s).0) [
    | inl taken ↦
        let same : running j ≡ running i = rw taken at e in ground (arith, law.flock_holder p j i s)
    | inr refused ↦ let never : failed ≡ running i = rw refused at e in cc
  ]
  self-Owns p (running j) s i e = cc
  self-Owns p (unlocking j) s i e = cc
  self-Owns p stopped s i e = cc
  self-Owns p failed s i e = cc

  -- Every daemon that runs has the lock on its file.
  abbrev AllOwn : World files → Type 0
  AllOwn x = (p : ℕ) → Owns p (x.pc p) x.fs

  advance-AllOwn : (p : ℕ) (x : World files) → AllOwn x → AllOwn (advance files p x)
  unfolding advance
  advance-AllOwn p x own q i e = elim (Bool-cases (q == p)) [
    | inl self ↦
        let same : q ≡ p = ground arith in
        let e' : (daemon_step files p (x.pc p) x.fs).0 ≡ running i = rw self at e in
        self-Owns p (x.pc p) x.fs i e' ∙ ap some (sym same)
    | inr other ↦
        let e' : x.pc q ≡ running i = rw other at e in
        holder-other p q (x.pc p) x.fs i other (own p) (own q i e')
  ]

  Reach-AllOwn : {x y : World files} → IsInitial files x → Reach files x y → AllOwn y
  Reach-AllOwn init here = λ p i e. absurd (begins (sym (init.0 p) ∙ e))
    where
      begins : {i : ℕ} → outside ≡ running i → ⊥
      begins h = cc
  Reach-AllOwn init (after r p) = advance-AllOwn p _ (Reach-AllOwn init r)

  pub Reach-one_on_file :
      {x y : World files} (p q i : ℕ)
      → IsInitial files x
      → Reach files x y
      → y.pc p ≡ running i
      → y.pc q ≡ running i
      → p ≡ q
  Reach-one_on_file p q i init r at_p at_q =
      let own = Reach-AllOwn init r in
      let both : some p ≡ some q = sym (own p i at_p) ∙ own q i at_q in cc

  -- The file of a daemon that has opened it is the one that the path names.
  abbrev Names : Pc → State → Type 0
  Names v s = (i : ℕ) → (v ≡ opened i) ⊎ (v ≡ running i) → files.named s ≡ some i

  -- Somebody has stopped, or nobody has and the path still names the file of all.
  abbrev Inv : World files → Type 0
  Inv x = ((p : ℕ) × (x.pc p ≡ stopped)) ⊎ ((p : ℕ) → Names (x.pc p) x.fs)

  -- A call other than `unlink` leaves the name, where there is one.
  named-kept :
      (p : ℕ) (v : Pc) (s : State) (i : ℕ)
      → ((j : ℕ) → v ≢ unlocking j)
      → files.named s ≡ some i
      → files.named (daemon_step files p v s).1 ≡ some i
  unfolding daemon_step
  named-kept p outside s i other n = law.open_names s ∙ ap some (law.open_there i s n)
  named-kept p (opened j) s i other n = law.flock_named p j s ∙ n
  named-kept p (running j) s i other n = law.close_named p j s ∙ n
  named-kept p (unlocking j) s i other n = absurd (other j refl)
  named-kept p stopped s i other n = n
  named-kept p failed s i other n = n

  self-Names :
      (p : ℕ) (v : Pc) (s : State)
      → Names v s
      → Names (daemon_step files p v s).0 (daemon_step files p v s).1
  unfolding daemon_step
  self-Names p outside s n i (inl e) =
      let same : (files.open_file s).0 ≡ i = cc in law.open_names s ∙ ap some same
  self-Names p outside s n i (inr e) = cc
  self-Names p (opened j) s n i (inl e) = elim (Bool-cases (files.flock p j s).0) [
    | inl taken ↦ let never : running j ≡ opened i = rw taken at e in cc
    | inr refused ↦ let never : failed ≡ opened i = rw refused at e in cc
  ]
  self-Names p (opened j) s n i (inr e) = elim (Bool-cases (files.flock p j s).0) [
    | inl taken ↦
        let same : running j ≡ running i = rw taken at e in
        let here : j ≡ i = cc in law.flock_named p j s ∙ n j (inl refl) ∙ ap some here
    | inr refused ↦ let never : failed ≡ running i = rw refused at e in cc
  ]
  self-Names p (running j) s n i (inl e) = cc
  self-Names p (running j) s n i (inr e) = cc
  self-Names p (unlocking j) s n i (inl e) = cc
  self-Names p (unlocking j) s n i (inr e) = cc
  self-Names p stopped s n i (inl e) = cc
  self-Names p stopped s n i (inr e) = cc
  self-Names p failed s n i (inl e) = cc
  self-Names p failed s n i (inr e) = cc

  -- The daemon that is about to unlink the file, and all others.
  Pc-cases : (v : Pc) → ((j : ℕ) × (v ≡ unlocking j)) ⊎ ((j : ℕ) → v ≢ unlocking j)
  Pc-cases (unlocking j) = inl (j, refl)
  Pc-cases outside = inr (λ j e. cc)
  Pc-cases (opened i) = inr (λ j e. cc)
  Pc-cases (running i) = inr (λ j e. cc)
  Pc-cases stopped = inr (λ j e. cc)
  Pc-cases failed = inr (λ j e. cc)

  stopped-stays :
      (p q : ℕ) (x : World files) → x.pc q ≡ stopped → (advance files p x).pc q ≡ stopped
  unfolding advance daemon_step
  stopped-stays p q x e = elim (Bool-cases (q == p)) [
    | inl self ↦
        let same : q ≡ p = ground arith in
        let at_p : x.pc p ≡ stopped = rw (← same) e in rw (self, at_p) refl
    | inr other ↦ rw other e
  ]

  unlinking-stops :
      (p j : ℕ) (x : World files) → x.pc p ≡ unlocking j → (advance files p x).pc p ≡ stopped
  unfolding advance daemon_step
  unlinking-stops p j x e = let self : (p == p) ≡ true = ground arith in rw (self, e) refl

  advance-Names :
      (p : ℕ) (x : World files)
      → ((j : ℕ) → x.pc p ≢ unlocking j)
      → ((q : ℕ) → Names (x.pc q) x.fs)
      → (q : ℕ) → Names ((advance files p x).pc q) (advance files p x).fs
  unfolding advance
  advance-Names p x keeps names q i w = elim (Bool-cases (q == p)) [
    | inl self ↦ self-Names p (x.pc p) x.fs (names p) i (rw self at w)
    | inr other ↦ named-kept p (x.pc p) x.fs i keeps (names q i (rw other at w))
  ]

  advance-Inv : (p : ℕ) (x : World files) → Inv x → Inv (advance files p x)
  advance-Inv p x (inl (q, e)) = inl (q, stopped-stays p q x e)
  advance-Inv p x (inr names) = elim (Pc-cases (x.pc p)) [
    | inl (j, e) ↦ inl (p, unlinking-stops p j x e)
    | inr keeps ↦ inr (advance-Names p x keeps names)
  ]

  Reach-Inv : {x y : World files} → IsInitial files x → Reach files x y → Inv y
  Reach-Inv init here = inr (λ p i w. absurd (begins i (init.0 p) w))
    where
      begins : {v : Pc} (i : ℕ) → v ≡ outside → (v ≡ opened i) ⊎ (v ≡ running i) → ⊥
      begins i e (inl f) = cc
      begins i e (inr f) = cc
  Reach-Inv init (after r p) = advance-Inv p _ (Reach-Inv init r)

  -- Of any number of daemons that call lock and unlock in any order, call by call, from a state
  -- with no lock, at most one runs as long as none has come to the end of unlock, on a file system
  -- that keeps the documented laws of open, flock, close and unlink.
  pub Reach-one_daemon :
      {x y : World files} (p q i j : ℕ)
      → IsInitial files x
      → Reach files x y
      → ((r : ℕ) → y.pc r ≢ stopped)
      → y.pc p ≡ running i
      → y.pc q ≡ running j
      → p ≡ q
  Reach-one_daemon {x} {y} p q i j init r alive at_p at_q = elim (Reach-Inv init r) [
    | inl (k, e) ↦ absurd (alive k e)
    | inr names ↦
        let same : some i ≡ some j = sym (names p i (inr at_p)) ∙ names q j (inr at_q) in
        let file : j ≡ i = cc in Reach-one_on_file p q i init r at_p (at_q ∙ ap running file)
  ]
