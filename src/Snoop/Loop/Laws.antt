-- ===== src/Snoop/Loop/Laws.antt =====
-- When the thread reports that it is ready, and what it leaves behind.
use cgproxy.Base.{
  ℕ, ◌+◌, ◌-◌, Bool, true, false, not, ◌&&◌, Option, some, List, [], ◌∷◌, if◌then◌else◌, if-ind,
  ◌≡◌, refl, arith, Bool-cases, inl, inr,
}
use cgproxy.Base.Int.{ℤ}
use cgproxy.Effect.{M, Outcome, returned, raised, exited, hangs, continue}
use cgproxy.Snoop.Loop.{
  Session, Setup, Thread, is_ok, notify, pass, after_pass, main_loop, execsnoop, new_thread,
  start_thread,
}

abbrev first_ok : List Session → Bool
first_ok [] = false
first_ok (s ∷ _) = is_ok s.new_err

-- The memory limit, the BPF objects and the first perf buffer are there.
abbrev is_ready : Setup → List Session → Bool
is_ready setup sessions =
    is_ok setup.rlimit_err && setup.loaded && is_ok setup.attach_err && first_ok sessions

module _ {D : Type 0} where
  -- What a pass does to the promise: it is fulfilled in the first pass and never again.
  pass-fulfilled :
      (callback : Option (ℤ → M D ℤ)) (s : Session) (t : Thread D)
      → ((pass callback s t).1.fulfilled ≡ (if t.notified then t.fulfilled else t.fulfilled + 1))
        × ((pass callback s t).1.notified ≡ true)
        × ((pass callback s t).1.buffers ≡ t.buffers + 1)
  unfolding pass notify
  pass-fulfilled callback s t = ground arith

  -- What the rest of the thread does to the promise is what the passes behind it do.
  behind_pass :
      (s : Session) (again : M (Thread D) ℤ) (o : Outcome (Unit {0})) (v : Thread D) (n : ℕ)
      → ((w : Thread D) → w.notified ≡ true → w.fulfilled ≡ n → (again w).1.fulfilled ≡ n)
      → v.notified ≡ true
      → v.fulfilled ≡ n
      → (continue o v (λ _. after_pass s again)).1.fulfilled ≡ n
  unfolding after_pass
  behind_pass s again (returned _) v n ih h e =
      ground (arith, ih (record v { buffers = v.buffers - 1 }) h e)
  behind_pass s again (raised x) v n ih h e = e
  behind_pass s again (exited x) v n ih h e = e
  behind_pass s again hangs v n ih h e = e

  main_loop-notified :
      (callback : Option (ℤ → M D ℤ)) (sessions : List Session) (t : Thread D) (n : ℕ)
      → t.notified ≡ true
      → t.fulfilled ≡ n
      → (main_loop callback sessions t).1.fulfilled ≡ n
  unfolding main_loop
  main_loop-notified callback [] t n h e = e
  main_loop-notified callback (s ∷ rest) t n h e =
      let (count, set, _) = pass-fulfilled callback s t in
      if-ind (λ (r : Outcome ℤ × Thread D). r.1.fulfilled ≡ n) (not (is_ok s.new_err)) _ _ e
        (behind_pass s (main_loop callback rest) (pass callback s t).0 (pass callback s t).1 n
          (λ w. main_loop-notified callback rest w n) set (ground arith))

  main_loop-fulfilled :
      (callback : Option (ℤ → M D ℤ)) (sessions : List Session) (d : D)
      → (main_loop callback sessions (new_thread d)).1.fulfilled
        ≡ (if first_ok sessions then 1 else 0)
  unfolding main_loop
  main_loop-fulfilled callback [] d = refl
  main_loop-fulfilled callback (s ∷ rest) d =
      let t = new_thread d in
      let (count, set, _) = pass-fulfilled callback s t in
      elim (Bool-cases (is_ok s.new_err)) [
        | inl fine ↦ rw fine (
            behind_pass s (main_loop callback rest) (pass callback s t).0 (pass callback s t).1 1
              (λ w. main_loop-notified callback rest w 1) set (ground arith))
        | inr broken ↦ rw broken refl
      ]

  -- The promise that the daemon waits for is fulfilled exactly once if everything up to the first
  -- perf buffer is there, however often the loop starts again after EINTR, and never otherwise.
  pub start_thread-fulfilled :
      (callback : ℤ → M D ℤ) (setup : Setup) (sessions : List Session) (d : D)
      → (start_thread callback setup sessions d).1.fulfilled
        ≡ (if is_ready setup sessions then 1 else 0)
  unfolding start_thread execsnoop
  start_thread-fulfilled callback setup sessions d =
      ground (arith, main_loop-fulfilled (some callback) sessions d)
