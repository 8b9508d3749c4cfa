-- ===== src/Socket/Client/Laws.antt =====
-- What status the client is left with.
use cgproxy.Base.{
  Bool, true, false, not, ◌&&◌, ◌||◌, Option, none, some, [], Bytes, if◌then◌else◌, length, ◌≡◌,
  arith,
}
use cgproxy.Base.Int.{ℤ, pos}
use cgproxy.Constants.{unknown_error, conn_error}
use cgproxy.Effect.{returned}
use cgproxy.Socket.{Net}
use cgproxy.Base.Word.{IsInt}
use cgproxy.Socket.Wire.{
  sizeof_int, int_bytes, c_string, bytes_int-int_bytes, overlay-int_bytes, overlay-nil,
}
use cgproxy.Socket.Client.{fail, receive, send_text, send_length, send}

module _ (net : Net) (msg : Bytes) (s : net.State) where
  abbrev pub fd : ℤ
  fd = (net.socket s).0

  abbrev pub connected : Bool × net.State
  connected = net.connect fd (net.socket s).1

  abbrev pub length_sent : Bool × net.State
  length_sent = net.write fd (int_bytes (pos (length (c_string msg)))) connected.1

  abbrev pub text_sent : Bool × net.State
  text_sent = net.write fd (c_string msg) length_sent.1

  abbrev pub reply : Option Bytes × net.State
  reply = net.read fd sizeof_int text_sent.1

  -- The daemon closes its end before one of the two writes.
  abbrev pub broken : Bool
  broken = net.hung_up fd connected.1 || net.hung_up fd length_sent.1

  -- The calls up to the reply succeed.
  abbrev pub IsSent : Type 0
  IsSent = (connected.0 ≡ true) × (length_sent.0 ≡ true) × (text_sent.0 ≡ true) × (broken ≡ false)

  -- Where all calls succeed and the reply is the four bytes of an int, the status that send leaves
  -- is that int, and the socket is closed.
  pub send_replied :
      (n : ℤ)
      → IsSent
      → reply.0 ≡ some (int_bytes n)
      → IsInt n
      → send net msg s ≡ (returned n, net.close fd reply.1)
  unfolding send send_length send_text receive
  send_replied n (c, l, t, b) r i =
      ground (arith, overlay-int_bytes n (int_bytes unknown_error), bytes_int-int_bytes n i)

  -- A daemon that closes the connection with no reply leaves UNKNOWN_ERROR.
  send_unanswered :
      IsSent → reply.0 ≡ some [] → send net msg s ≡ (returned unknown_error, net.close fd reply.1)
  unfolding send send_length send_text receive
  send_unanswered (c, l, t, b) r =
      ground (arith, overlay-nil unknown_error, bytes_int-int_bytes unknown_error (omega arith))

  abbrev arrived : Option Bytes → Bool
  arrived none = false
  arrived (some _) = true

  -- All calls of the connection succeed, up to the reply.
  abbrev all_succeed : Bool
  all_succeed = connected.0 && length_sent.0 && text_sent.0 && arrived reply.0

  -- The state of the network behind the first call that fails.
  abbrev after_failure : net.State
  after_failure =
      if not connected.0
      then connected.1
      else if not length_sent.0
      then length_sent.1
      else if not text_sent.0
      then text_sent.1
      else reply.1

  -- When a call of the connection fails, and no write ends the client, whichever it is, no further one is made but the close of
  -- the socket, and the status is CONN_ERROR.
  send_failed :
      broken ≡ false
      → all_succeed ≡ false
      → send net msg s ≡ (returned conn_error, net.close fd after_failure)
  unfolding send send_length send_text receive fail
  send_failed b h = ground arith
