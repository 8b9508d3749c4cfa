-- ===== src/Socket.antt =====
-- The unix socket between the client and the daemon: the calls of the kernel, which are not part of
-- the program, and the bytes of an `int` on the wire.
pub mod Wire
pub mod Client
pub mod Server
use cgproxy.Base.{ℕ, Bool, Option, Bytes}
use cgproxy.Base.Int.{ℤ}

-- The calls on an unknown state. `none` and `false` stand for -1; `read` answers the bytes that it
-- delivers, at most as many as are asked for, and takes its count as the `int` that the code passes.
pub record Net : Type 1 where
  pub State : Type 0
  pub socket : State → ℤ × State
  pub connect : ℤ → State → Bool × State
  pub write : ℤ → Bytes → State → Bool × State
  -- The other end is closed, so that a write raises SIGPIPE, which no part of the program handles.
  pub hung_up : ℤ → State → Bool
  pub read : ℤ → ℤ → State → Option Bytes × State
  pub close : ℤ → State → State
  pub path_exists : Bytes → State → Bool
  pub unlink : Bytes → State → Bool × State
  pub bind : ℤ → Bytes → State → State
  pub listen : ℤ → ℕ → State → State
  pub chmod_all : Bytes → State → State
  pub accept : ℤ → State → ℤ × State
