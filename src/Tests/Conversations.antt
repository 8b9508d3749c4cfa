-- ===== src/Tests/Conversations.antt =====
-- A client that asks for process 42 to be proxied, and the daemon that answers.
use cgproxy.Base.{true, some, ap, ◌∙◌, [], ◌∷◌, Bytes, contains, bytes_eq, ◌≡◌, refl, arith}
use cgproxy.Base.Int.{pos}
use cgproxy.Base.Decimal.{show_ℤ, show_ℕ}
use cgproxy.Constants.{success}
use cgproxy.Effect.{returned}
use cgproxy.Valid.{valid_pid, valid_cgroup}
use cgproxy.Proc.{get_cgroup, file_exist, dir_exist, lines, lines_onto, find_cgroup}
use cgproxy.Attach.{
  validate, write2procs, check_again, move, move_if_needed, ensure_dir, attach, attach_int,
}
use cgproxy.Config.{default_config}
use cgproxy.Config.Load.{Host}
use cgproxy.Socket.Wire.{int_bytes, IsText}
use cgproxy.Socket.Server.{Server, round}
use cgproxy.Command.{pid_message, World, send_pid}
use cgproxy.Daemon.Messages.Branches.{answered}
use cgproxy.Command.Laws.{handle_msg-pid_message}
use cgproxy.Service.{callback}
use cgproxy.Service.Conversation.{Carries, attached, send_pid-attach}
use cgproxy.Tests.Machine.{Machine, machine}
use cgproxy.Tests.Codec.{codec, codec-IsLawful}
use cgproxy.Tests.Nets.{Wire, wire, idle, wires, stale, asking, wire-Carries}
use cgproxy.Tests.Placing.{in_user}
use cgproxy.Tests.Serving.{install}

-- MSG_TYPE_PROXY_PID and the pid, in the texts of this JSON library.
abbrev request : Bytes
request = 3 ∷ 42 ∷ []

abbrev daemon : Server Wire (Host Machine)
daemon = asking request (record { config = default_config; sys = in_user })

abbrev client : World Wire Machine
client = record { net = idle (some (int_bytes success) ∷ []); sys = in_user }

answers : (attached machine codec install wire wire true (pos 42) daemon).0 ≡ returned success
unfolding attach attach_int ensure_dir dir_exist validate valid_pid valid_cgroup write2procs move
    move_if_needed check_again get_cgroup file_exist lines lines_onto find_cgroup bytes_eq contains
    show_ℤ show_ℕ
answers = refl

request-IsText : IsText request
request-IsText = ((λ e. omega (arith, e)), ((λ e. omega (arith, e)), tt))

carries : Carries machine codec install wire wire wires request client.net stale daemon
unfolding pid_message bytes_eq
carries = wire-Carries machine codec install request daemon.daemon request-IsText (omega arith) (
    handle_msg-pid_message machine codec install codec-IsLawful true (pos 42) request daemon.daemon
      refl
    ∙ ap
        (λ o. (
          answered machine codec install o,
          record daemon.daemon {
            sys = (attached machine codec install wire wire true (pos 42) daemon).1;
          },
        ))
        answers)

send_pid-attach_example :
    ((send_pid machine wire codec (pos 42) true client).0 ≡ returned success)
    × ((round wire (callback machine codec install wire) stale daemon).1.daemon ≡ record {
      config = default_config;
      sys = (attached machine codec install wire wire true (pos 42) daemon).1;
    })
    × ((round wire (callback machine codec install wire) stale daemon).1.live ≡ 0)
unfolding pid_message bytes_eq
send_pid-attach_example =
    send_pid-attach machine codec install wire wire codec-IsLawful wires true (pos 42) request
      client stale daemon refl request-IsText (omega arith) carries answers
