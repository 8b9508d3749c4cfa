-- ===== src/Tests/Locks.antt =====
-- Three daemons on a file system that keeps the locks in a list.
use cgproxy.Base.{
  ℕ, ◌+◌, ◌≤◌, Bool, true, Option, none, some, List, [], ◌∷◌, ◌==◌, if◌then◌else◌, ◌≡◌, ◌≢◌, refl,
  arith, Bool-cases, inl, inr,
}
use cgproxy.Daemon.Exclusion.{
  Files, IsFileSystem, outside, running, failed, stopped, daemon_step, World, advance, Reach,
  IsInitial, run_order,
}
use cgproxy.Daemon.Exclusion.Safety.{Reach-one_daemon}
use cgproxy.Daemon.Exclusion.Race.{run_order-Reach, overtaken, Runs, two_daemons}

-- The file that the path names, and which process has the lock on which file.
record Disk : Type 0 where
  name : Option ℕ
  locks : List (ℕ × ℕ)

abbrev lock_on : ℕ → List (ℕ × ℕ) → Option ℕ
lock_on i [] = none
lock_on i ((j, p) ∷ ls) = if i == j then some p else lock_on i ls

abbrev without : ℕ → List (ℕ × ℕ) → List (ℕ × ℕ)
without i [] = []
without i ((j, p) ∷ ls) = let rest = without i ls in if i == j then rest else (j, p) ∷ rest

-- A number above those of all files with a lock.
abbrev unused : List (ℕ × ℕ) → ℕ
unused [] = 0
unused ((j, p) ∷ ls) = j + 1 + unused ls

abbrev open_disk : Option ℕ → Disk → ℕ × Disk
open_disk (some i) d = (i, d)
open_disk none d = (unused d.locks, record d { name = some (unused d.locks) })

abbrev flock_disk : Option ℕ → ℕ → ℕ → Disk → Bool × Disk
flock_disk none p i d = (true, record d { locks = (i, p) ∷ d.locks })
flock_disk (some q) p i d = (q == p, d)

abbrev disk : Files
disk = record {
  State = Disk;
  named = λ d. d.name;
  holder = λ i d. lock_on i d.locks;
  open_file = λ d. open_disk d.name d;
  flock = λ p i d. flock_disk (lock_on i d.locks) p i d;
  close = λ p i d. record d { locks = without i d.locks };
  unlink = λ d. record d { name = none };
}

lock_on-unused : (i : ℕ) (ls : List (ℕ × ℕ)) → unused ls ≤ i → lock_on i ls ≡ none
lock_on-unused i [] h = refl
lock_on-unused i ((j, p) ∷ ls) h = ground (arith, lock_on-unused i ls)

lock_on-without :
    (i j : ℕ) (ls : List (ℕ × ℕ))
    → lock_on j (without i ls) ≡ (if j == i then none else lock_on j ls)
lock_on-without i j [] = ground arith
lock_on-without i j ((k, p) ∷ ls) = ground (arith, lock_on-without i j ls)

open_names_disk :
    (o : Option ℕ) (d : Disk) → d.name ≡ o → (open_disk o d).1.name ≡ some (open_disk o d).0
open_names_disk (some i) d h = h
open_names_disk none d h = refl

open_holder_disk :
    (o : Option ℕ) (d : Disk) (i : ℕ) → lock_on i (open_disk o d).1.locks ≡ lock_on i d.locks
open_holder_disk (some _) d i = refl
open_holder_disk none d i = refl

flock_holder_disk :
    (o : Option ℕ) (p i j : ℕ) (d : Disk)
    → lock_on i d.locks ≡ o
    → lock_on j (flock_disk o p i d).1.locks ≡ (
        if (flock_disk o p i d).0
        then (if j == i then some p else lock_on j d.locks)
        else lock_on j d.locks)
flock_holder_disk none p i j d h = refl
flock_holder_disk (some q) p i j d h = ground arith

flock_named_disk : (o : Option ℕ) (p i : ℕ) (d : Disk) → (flock_disk o p i d).1.name ≡ d.name
flock_named_disk none p i d = refl
flock_named_disk (some q) p i d = refl

disk-IsFileSystem : IsFileSystem disk
disk-IsFileSystem = record {
  open_names = λ d. open_names_disk d.name d refl;
  open_there = λ i d h. rw h refl;
  open_new = λ d h. rw h (lock_on-unused (unused d.locks) d.locks (omega arith));
  open_holder = λ i d. open_holder_disk d.name d i;
  flock_free = λ p i d h. rw h refl;
  flock_held = λ p q i d h ok. let same : (q == p) ≡ true = rw h at ok in ground arith;
  flock_holder = λ p i j d. flock_holder_disk (lock_on i d.locks) p i j d refl;
  flock_named = λ p i d. flock_named_disk (lock_on i d.locks) p i d;
  close_holder = λ p i j d h. lock_on-without i j d.locks;
  close_named = λ p i d. refl;
  unlink_named = λ d. refl;
  unlink_holder = λ i d. refl;
}

abbrev nobody : World disk
nobody = record { pc = λ _. outside; fs = record { name = none; locks = [] } }

abbrev nobody-IsInitial : IsInitial disk nobody
nobody-IsInitial = (λ p. refl, λ i. refl)

-- The first daemon gets the lock, and the second one does not.
abbrev two : List ℕ
two = 1 ∷ 2 ∷ 1 ∷ 2 ∷ []

alive : (r : ℕ) → (run_order disk two nobody).pc r ≢ stopped
unfolding run_order advance daemon_step
alive r e = elim (Bool-cases (r == 2)) [
  | inl second ↦ let never : failed ≡ stopped = rw second at e in cc
  | inr not_second ↦ elim (Bool-cases (r == 1)) [
    | inl first ↦ let never : running 0 ≡ stopped = rw (not_second, first) at e in cc
    | inr not_first ↦ let never : outside ≡ stopped = rw (not_second, not_first) at e in cc
  ]
]

Reach-one_daemon_example : ◌≡◌ {A = ℕ} 1 1
unfolding run_order advance daemon_step
Reach-one_daemon_example =
    Reach-one_daemon disk disk-IsFileSystem {x = nobody} {y = run_order disk two nobody} 1 1 0 0
      nobody-IsInitial (run_order-Reach disk two nobody) alive refl refl

two_daemons_example :
    let y = run_order disk overtaken nobody in Reach disk nobody y × Runs disk 2 y × Runs disk 3 y
two_daemons_example = two_daemons disk disk-IsFileSystem nobody nobody-IsInitial
