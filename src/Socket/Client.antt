-- ===== src/Socket/Client.antt =====
-- src/socket_client.cpp
pub mod Laws
use cgproxy.Base.{
  ℕ, Bool, true, false, not, Option, none, some, List, [], ◌∷◌, Bytes, if◌then◌else◌, length,
}
use cgproxy.Base.Int.{ℤ, pos}
use cgproxy.Constants.{socket_path, unknown_error, conn_error}
use cgproxy.Effect.{M, Outcome, returned, exited, killed, sigpipe}
use cgproxy.Socket.{Net}
use cgproxy.Socket.Wire.{sizeof_int, int_bytes, bytes_int, overlay, c_string}

module _ (net : Net) where
  open net use {State}

  -- The macro `return_if_error` on its error branch.
  pub fail : ℤ → M State ℤ
  fail sfd s = (returned conn_error, net.close sfd s)

  -- `read(sfd, &status, sizeof(int))`, with the value that `status` has before it, and the end.
  unfoldable pub receive : ℤ → M State ℤ
  receive sfd s =
      let out = net.read sfd sizeof_int s in
      elim out.0 [
        | none ↦ fail sfd out.1
        | some bs ↦
            (returned (bytes_int (overlay bs (int_bytes unknown_error))), net.close sfd out.1)
      ]

  -- A write to a daemon that has closed its end ends the client by SIGPIPE.
  unfoldable pub send_text : ℤ → Bytes → M State ℤ
  send_text sfd msg s =
      let out = net.write sfd msg s in
      if net.hung_up sfd s
      then (killed sigpipe, out.1)
      else if out.0
      then receive sfd out.1
      else fail sfd out.1

  unfoldable pub send_length : ℤ → Bytes → M State ℤ
  send_length sfd msg s =
      let out = net.write sfd (int_bytes (pos (length msg))) s in
      if net.hung_up sfd s
      then (killed sigpipe, out.1)
      else if out.0
      then send_text sfd msg out.1
      else fail sfd out.1

  -- `send`: the status that it leaves. The address is SOCKET_PATH.
  unfoldable pub send : Bytes → M State ℤ
  send msg s =
      let made = net.socket s in
      let out = net.connect made.0 made.1 in
      if out.0 then send_length made.0 (c_string msg) out.1 else fail made.0 out.1
