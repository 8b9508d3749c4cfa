-- ===== src/Socket/Server.antt =====
-- src/socket_server.cpp: the loop that takes a message, hands it to the callback and sends back what
-- that answers.
pub mod Laws
use cgproxy.Base.{
  ℕ, zero, suc, ◌+◌, ◌-◌, Bool, true, false, not, ◌&&◌, Option, none, some, List, [], ◌∷◌, ◌++◌,
  Bytes, ◌==◌, if◌then◌else◌, length, take, drop, ltb,
}
use cgproxy.Base.Int.{ℤ, pos, negsuc, eq_ℤ}
use cgproxy.Constants.{socket_path, listen_backlog}
use cgproxy.Effect.{M, Outcome, returned, raised, exited, continue, killed, sigpipe, sigsegv}
use cgproxy.Socket.{Net}
use cgproxy.Socket.Wire.{sizeof_int, int_bytes, bytes_int, overlay, c_string}

-- `SocketServer`, with the buffers that `malloc` gave and `free` has not taken back, and the state of
-- the callback.
pub record Server (N D : Type 0) : Type 0 where
  pub sfd : ℤ
  pub cfd : ℤ
  pub live : ℕ
  pub net : N
  pub daemon : D

-- Whether `malloc` has memory in a round, and what stood there before `read` wrote to it: in `msg_len`,
-- and in the buffer.
pub record Stale : Type 0 where
  pub granted : Bool
  pub len_bytes : Bytes
  pub buffer : Bytes

abbrev pub count_of : ℤ → ℕ
count_of (pos n) = n
count_of (negsuc n) = 0

-- The buffer of `n + 1` bytes with what was read in front, and its NUL behind `n` bytes.
pub buffer_text : ℕ → Bytes → Bytes → Bytes
buffer_text n read stale = c_string (take n (read ++ drop (length read) stale))

-- `malloc(msg_len + 1)` gives a buffer. Behind the largest `int` the sum is negative, and no negative
-- size, which is a huge one as a `size_t`, is ever granted.
abbrev pub allocates : Stale → ℤ → Bool
allocates stale (pos n) = ltb n 2147483647 && stale.granted
allocates stale (negsuc zero) = stale.granted
allocates stale (negsuc (suc _)) = false

-- The buffer has room for `msg_len` bytes and the NUL.
abbrev has_room : ℤ → Bool
has_room (pos _) = true
has_room (negsuc _) = false

abbrev is_error : ℤ → Bool
is_error n = eq_ℤ n (negsuc 0)

module _ (net : Net) {D : Type 0} (callback : Bytes → M D ℤ) where
  abbrev pub State : Type 0
  State = Server net.State D

  abbrev on_net : State → net.State → State
  on_net v n = record v { net = n }

  -- From the callback on. A write to a client that has closed its end ends the daemon by SIGPIPE; else
  -- the answer of `write` decides nothing: both ways the loop goes on.
  pub answer : Bytes → M State (Unit {0})
  answer text v =
      let out = callback text v.daemon in
      continue out.0 (record v { daemon = out.1 })
        (λ status w.
          let freed = record w { live = w.live - 1 } in
          (
            if net.hung_up freed.cfd freed.net then killed sigpipe else returned tt,
            on_net freed (net.write freed.cfd (int_bytes status) freed.net).1,
          ))

  -- From `malloc` on. With no buffer, or one of no bytes for the length -1, the bytes that are read and
  -- the NUL go where nothing was allocated.
  pub receive_text : Stale → ℤ → M State (Unit {0})
  receive_text stale msg_len v =
      let got = allocates stale msg_len in
      let w = record v { live = if got then v.live + 1 else v.live } in
      let out = net.read w.cfd msg_len w.net in
      elim out.0 [
        | none ↦ (returned tt, on_net w out.1)
        | some bs ↦
            if got && has_room msg_len
            then answer (buffer_text (count_of msg_len) bs stale.buffer) (on_net w out.1)
            else (killed sigsegv, on_net w out.1)
      ]

  pub receive_length : Stale → M State (Unit {0})
  receive_length stale v =
      let out = net.read v.cfd sizeof_int v.net in
      elim out.0 [
        | none ↦ (returned tt, on_net v out.1)
        | some bs ↦ receive_text stale (bytes_int (overlay bs stale.len_bytes)) (on_net v out.1)
      ]

  -- One round of `while (true)`.
  pub round : Stale → M State (Unit {0})
  round stale v =
      let closed = net.close v.cfd v.net in
      let out = net.accept v.sfd closed in
      let w = record v { cfd = out.0; net = out.1 } in
      if is_error out.0 then (returned tt, w) else receive_length stale w

  -- Some rounds; an exception of the callback ends the thread.
  pub rounds : List Stale → M State (Unit {0})
  rounds [] v = (returned tt, v)
  rounds (stale ∷ rest) v = let out = round stale v in continue out.0 out.1 (λ _. rounds rest)

  -- `socketListening` up to `set_value`; `false` is the early return.
  unfoldable pub open_socket : net.State → D → Bool × State
  open_socket n d =
      let made = net.socket n in
      let v : State = record { sfd = made.0; cfd = negsuc 0; live = 0; net = made.1; daemon = d } in
      let removed = net.unlink socket_path v.net in
      let there = net.path_exists socket_path v.net in
      if there && not removed.0
      then (false, on_net v removed.1)
      else (let m = if there then removed.1 else v.net in
          let bound = net.bind v.sfd socket_path m in
          (true, on_net v (net.chmod_all socket_path (net.listen v.sfd listen_backlog bound))))

  -- The destructor.
  unfoldable pub shut : State → net.State
  shut v = (net.unlink socket_path (net.close v.cfd (net.close v.sfd v.net))).1

  -- `startThread`: whether the promise is fulfilled, and how the thread goes on. Behind the early return
  -- the destructor runs.
  unfoldable pub start_server : List Stale → net.State → D → Bool × (Outcome (Unit {0}) × State)
  start_server stales n d =
      let opened = open_socket n d in
      let served = rounds stales opened.1 in
      if opened.0 then (true, served) else (false, (returned tt, on_net opened.1 (shut opened.1)))
