-- ===== src/Snoop/Loop.antt =====
-- execsnoop-kernel/execsnoop_share.cpp and execsnoop-libbpf/execsnoop_share.cpp: the thread that hands
-- the events to the callback.
pub mod Laws
use cgproxy.Base.{
  ℕ, suc, ◌+◌, ◌-◌, Bool, true, false, not, Option, none, some, List, [], ◌∷◌, ◌++◌, if◌then◌else◌,
}
use cgproxy.Base.Int.{ℤ, pos, negsuc, eq_ℤ}
use cgproxy.Effect.{M, Outcome, returned, raised, exited, hangs, continue}
use cgproxy.Snoop.Kernel.{Event}

abbrev eintr : ℤ
eintr = negsuc 3

-- One pass of the code behind the label `main_loop`: the error of the new perf buffer, the events of
-- each poll that succeeds, and the error of the poll that does not.
pub record Session : Type 0 where
  pub new_err : ℤ
  pub polls : List (List Event)
  pub poll_err : ℤ

-- What the calls of libbpf answer before the first pass.
pub record Setup : Type 0 where
  pub rlimit_err : ℤ
  pub loaded : Bool
  pub attach_err : ℤ

-- How often the promise is fulfilled, the buffers that are not freed, whether the group was signalled,
-- and the state of the callback.
pub record Thread (D : Type 0) : Type 0 where
  pub fulfilled : ℕ
  pub notified : Bool
  pub buffers : ℕ
  pub killed : Bool
  pub daemon : D

abbrev pub is_ok : ℤ → Bool
is_ok n = eq_ℤ n (pos 0)

module _ {D : Type 0} where
  -- `handle_event`
  unfoldable pub handle_event : Option (ℤ → M D ℤ) → Event → M D (Unit {0})
  handle_event none e d = (returned tt, d)
  handle_event (some callback) e d =
      let out = callback e.pid d in continue out.0 out.1 (λ _ s. (returned tt, s))

  unfoldable pub handle_events : Option (ℤ → M D ℤ) → List Event → M D (Unit {0})
  handle_events callback [] d = (returned tt, d)
  handle_events callback (e ∷ es) d =
      let out = handle_event callback e d in continue out.0 out.1 (λ _. handle_events callback es)

  unfoldable pub poll_loop : Option (ℤ → M D ℤ) → List (List Event) → M D (Unit {0})
  poll_loop callback [] d = (returned tt, d)
  poll_loop callback (es ∷ polls) d =
      let out = handle_events callback es d in continue out.0 out.1 (λ _. poll_loop callback polls)

  -- `if (!notified) {status.set_value(); notified=true;}`
  pub notify : Thread D → Thread D
  notify t = if t.notified then t else record t { fulfilled = t.fulfilled + 1; notified = true }

  -- From the new perf buffer to the poll that fails.
  pub pass : Option (ℤ → M D ℤ) → Session → M (Thread D) (Unit {0})
  pass callback s t =
      let u = notify (record t { buffers = t.buffers + 1 }) in
      let out = poll_loop callback s.polls u.daemon in (out.0, record u { daemon = out.1 })

  -- From `perf_buffer__free` on, with what the jump to `main_loop` does.
  pub after_pass : Session → M (Thread D) ℤ → M (Thread D) ℤ
  after_pass s again t =
      let freed = record t { buffers = t.buffers - 1 } in
      if eq_ℤ s.poll_err eintr
      then again freed
      else (returned s.poll_err, record freed { killed = true })

  -- The passes behind `main_loop`. Where the sequence ends the thread still polls.
  pub main_loop : Option (ℤ → M D ℤ) → List Session → M (Thread D) ℤ
  main_loop callback [] t = (hangs, t)
  main_loop callback (s ∷ rest) t =
      let again = main_loop callback rest in
      let out = pass callback s t in
      if not (is_ok s.new_err)
      then (returned (pos 1), t)
      else continue out.0 out.1 (λ _. after_pass s again)

  -- `execsnoop`
  pub execsnoop : Option (ℤ → M D ℤ) → Setup → List Session → M (Thread D) ℤ
  execsnoop callback setup sessions t =
      if not (is_ok setup.rlimit_err)
      then (returned (pos 1), t)
      else if not setup.loaded
      then (returned (pos 1), t)
      else if not (is_ok setup.attach_err)
      then (returned setup.attach_err, t)
      else main_loop callback sessions t

  abbrev pub new_thread : D → Thread D
  new_thread d = record { fulfilled = 0; notified = false; buffers = 0; killed = false; daemon = d }

  -- `startThread`
  pub start_thread : (ℤ → M D ℤ) → Setup → List Session → D → Outcome ℤ × Thread D
  start_thread callback setup sessions d = execsnoop (some callback) setup sessions (new_thread d)
