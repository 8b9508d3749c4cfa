-- ===== src/Snoop/Tools.antt =====
-- execsnoop-libbpf/execsnoop.c, execsnoop-kernel/execsnoop_user.c and execsnoop-kernel/execsnoop_user_1.c:
-- the tools that print the events.
pub mod Laws
use cgproxy.Base.{ℕ, Bool, true, false, not, List, [], ◌∷◌, ◌++◌, Bytes, codes, if◌then◌else◌}
use cgproxy.Base.Int.{ℤ, pos, negsuc, eq_ℤ}
use cgproxy.Base.Decimal.{show_ℤ}
use cgproxy.Base.Word.{of_u32}
use cgproxy.Effect.{M, Outcome, returned, raised, exited, hangs}
use cgproxy.Socket.Wire.{c_string}
use cgproxy.Snoop.Kernel.{Event}
use cgproxy.Snoop.Loop.{Setup, is_ok}

-- What a poll of the perf buffer does.
pub data Poll : Type 0 where
  handled : List Event → Poll
  failed : ℤ → Poll

-- What was printed, and whether the group was sent SIGINT.
pub record Screen : Type 0 where
  pub printed : List Bytes
  pub killed : Bool

-- The line of an event; `%d` prints the bits of a `uid_t` as an `int`.
unfoldable pub event_line : Event → Bytes
event_line e =
    codes "comm: "
    ++ (c_string e.comm
        ++ (codes ", pid: "
            ++ (show_ℤ e.pid
                ++ (codes ", tgid: "
                    ++ (show_ℤ e.tgid
                        ++ (codes ", ppid: "
                            ++ (show_ℤ e.ppid
                                ++ (codes ", uid: " ++ (show_ℤ (of_u32 e.uid) ++ b'\n' ∷ [])))))))))

-- `handle_event`
pub print_event : Event → Screen → Screen
print_event e s = record s { printed = s.printed ++ event_line e ∷ [] }

pub print_events : List Event → Screen → Screen
print_events [] s = s
print_events (e ∷ es) s = print_events es (print_event e s)

-- The loop, `kill` and the return. Where the sequence ends the tool still polls.
pub poll_until_failure : List Poll → M Screen ℤ
poll_until_failure [] s = (hangs, s)
poll_until_failure (handled es ∷ polls) s = poll_until_failure polls (print_events es s)
poll_until_failure (failed err ∷ _) s = (returned err, record s { killed = true })

-- From `perf_buffer__new` on.
pub watch : ℤ → List Poll → M Screen ℤ
watch new_err polls s =
    let out = poll_until_failure polls s in
    if not (is_ok new_err) then (returned (pos 1), s) else out

-- `main` of execsnoop.c.
pub libbpf_main : Setup → ℤ → List Poll → M Screen ℤ
libbpf_main setup new_err polls s =
    let out = watch new_err polls s in
    if not (is_ok setup.rlimit_err)
    then (returned (pos 1), s)
    else if not setup.loaded
    then (returned (pos 1), s)
    else if not (is_ok setup.attach_err)
    then (returned setup.attach_err, s)
    else out

-- `main` of execsnoop_user_1.c, which differs from that in the name of the skeleton.
unfoldable pub user_1_main : Setup → ℤ → List Poll → M Screen ℤ
user_1_main = libbpf_main

-- `main` of execsnoop_user.c; `load_err` is what `load_bpf_file` answers.
unfoldable pub user_main : ℤ → ℤ → List Poll → M Screen ℤ
user_main load_err new_err polls s =
    let out = watch new_err polls s in if not (is_ok load_err) then (returned (pos 1), s) else out
