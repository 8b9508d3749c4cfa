-- ===== src/Tests/Commands.antt =====
-- Command lines, on the machine.
use cgproxy.Base.{true, some, List, [], ◌∷◌, Bytes, codes, bytes_eq, ◌≡◌, refl}
use cgproxy.Base.Int.{ℤ, pos}
use cgproxy.Base.Word.{to_u32, of_u32}
use cgproxy.Effect.{returned}
use cgproxy.Command.{Options, default_options, World, send_pid, pid_message}
use cgproxy.Socket.Wire.{int_bytes, bytes_int, overlay}
use cgproxy.Socket.Client.{send, send_length, send_text, receive}
use cgproxy.Tests.Machine.{Machine, machine}
use cgproxy.Tests.Codec.{codec}
use cgproxy.Tests.Nets.{Wire, wire, idle}

-- `ls -l` behind a daemon that gives this answer.
abbrev calling : ℤ → World Wire Machine
calling status = record {
  net = idle (some (int_bytes status) ∷ []);
  sys = record { uid = 1000; pid = pos 42; files = []; dirs = []; links = []; ran = [] };
}

abbrev listing : Options
listing = record default_options { rest = codes "ls" ∷ codes "-l" ∷ [] }

abbrev argv : List Bytes
argv = codes "--noproxy" ∷ codes "ls" ∷ codes "-l" ∷ []

sent_7 : (send_pid machine wire codec (pos 42) true (calling (pos 7))).0 ≡ returned (pos 7)
unfolding send_pid send send_length send_text receive overlay int_bytes bytes_int to_u32 of_u32
    pid_message bytes_eq
sent_7 = refl

sent_0 : (send_pid machine wire codec (pos 42) true (calling (pos 0))).0 ≡ returned (pos 0)
unfolding send_pid send send_length send_text receive overlay int_bytes bytes_int to_u32 of_u32
    pid_message bytes_eq
sent_0 = refl
