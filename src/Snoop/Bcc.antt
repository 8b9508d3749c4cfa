-- ===== src/Snoop/Bcc.antt =====
-- execsnoop-bcc/execsnoop.cpp: the variant that compiles its programs when it starts.
pub mod Laws
use cgproxy.Base.{
  ℕ, ◌+◌, ◌/◌, ◌%◌, Bool, true, false, not, Option, none, some, List, [], ◌∷◌, if◌then◌else◌,
}
use cgproxy.Base.Int.{ℤ, pos, eq_ℤ}
use cgproxy.Base.Word.{to_u32, of_u32}
use cgproxy.Effect.{M, Outcome, returned, raised, exited, hangs, continue}
use cgproxy.Snoop.Kernel.{Task, pid_of}
use cgproxy.Snoop.Loop.{is_ok}

-- `struct data_t`
pub record Data : Type 0 where
  pub pid : ℤ

-- `int retval = PT_REGS_RC(ctx)`: the lower half of the long.
unfoldable pub truncated : ℤ → ℤ
truncated rc = of_u32 (to_u32 rc)

-- `ret_syscall_execve`, with the value that the call returns: what it hands to the perf buffer, if any.
unfoldable pub ret_syscall_execve : Task → ℤ → Option Data
ret_syscall_execve t rc =
    if eq_ℤ (truncated rc) (pos 0) then some (record { pid = pid_of t }) else none

-- `syscall_execve`, the probe at the entry, which is compiled and attached nowhere.
unfoldable pub syscall_execve : Task → Data
syscall_execve t = record { pid = pid_of t }

-- What the four steps of bcc answer, and the data that each poll of the perf buffer delivers.
pub record Bpf : Type 0 where
  pub init_code : ℤ
  pub attach_code : ℤ
  pub open_code : ℤ
  pub free_err : ℤ
  pub polls : List (List Data)

-- How often the promise is fulfilled, and the state of the callback.
pub record Thread (D : Type 0) : Type 0 where
  pub fulfilled : ℕ
  pub daemon : D

module _ {D : Type 0} where
  -- `handle_events`, on one piece of data.
  unfoldable pub handle_data : Option (ℤ → M D ℤ) → Data → M D (Unit {0})
  handle_data none e d = (returned tt, d)
  handle_data (some callback) e d =
      let out = callback e.pid d in continue out.0 out.1 (λ _ s. (returned tt, s))

  unfoldable pub handle_poll : Option (ℤ → M D ℤ) → List Data → M D (Unit {0})
  handle_poll callback [] d = (returned tt, d)
  handle_poll callback (e ∷ es) d =
      let out = handle_data callback e d in continue out.0 out.1 (λ _. handle_poll callback es)

  -- `while (true)`: where the polls end the thread still polls.
  unfoldable pub poll_forever : Option (ℤ → M D ℤ) → List (List Data) → M D ℤ
  poll_forever callback [] d = (hangs, d)
  poll_forever callback (es ∷ polls) d =
      let out = handle_poll callback es d in continue out.0 out.1 (λ _. poll_forever callback polls)

  -- From `status.set_value()` on.
  pub serve_events : Option (ℤ → M D ℤ) → List (List Data) → M (Thread D) ℤ
  serve_events callback polls t =
      let out = poll_forever callback polls t.daemon in
      (out.0, record { fulfilled = t.fulfilled + 1; daemon = out.1 })

  -- `execsnoop`
  pub bcc_execsnoop : Option (ℤ → M D ℤ) → Bpf → M (Thread D) ℤ
  bcc_execsnoop callback bpf t =
      let out = serve_events callback bpf.polls t in
      if not (is_ok bpf.init_code)
      then (returned (pos 1), t)
      else if not (is_ok bpf.attach_code)
      then (returned (pos 1), t)
      else if not (is_ok bpf.open_code)
      then (returned (pos 1), t)
      else if not (is_ok bpf.free_err)
      then (returned (pos 1), t)
      else out

  -- `startThread`
  pub start_bcc : (ℤ → M D ℤ) → Bpf → D → Outcome ℤ × Thread D
  start_bcc callback bpf d =
      bcc_execsnoop (some callback) bpf (record { fulfilled = 0; daemon = d })
