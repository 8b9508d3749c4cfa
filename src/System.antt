-- ===== src/System.antt =====
-- The system calls that the program makes, which are not part of it: a record of operations on an
-- unknown state. A call that only reads leaves the state alone; what other processes do in the
-- meantime is part of the calls that return a new state.
use cgproxy.Base.{ℕ, Bool, Option, Bytes}
use cgproxy.Base.Int.{ℤ}

pub record Stat : Type 0 where
  pub is_reg : Bool
  pub is_dir : Bool

-- How a text is appended to a file: the stream does not open, goes bad, or takes it.
pub data Append : Type 0 where
  not_open bad written : Append

pub record Os : Type 1 where
  pub State : Type 0
  pub getuid : State → ℕ
  pub stat : Bytes → State → Option Stat
  pub mkdir : Bytes → State → Bool × State
  pub read_file : Bytes → State → Option Bytes
  pub append_file : Bytes → Bytes → State → Append × State
  pub sleep_ms : ℕ → State → State
  pub realpath : Bytes → State → Option Bytes
  -- What an `int` holds that was never set.
  pub unset_int : State → ℤ
  pub popen : Bytes → State → Option Bytes × State
  pub system : Bytes → State → ℤ × State
  pub setenv : Bytes → Bytes → State → State
  pub open_file : Bytes → State → ℤ × State
  pub flock : ℤ → State → Bool × State
  pub write_file : Bytes → Bytes → State → State
  -- `ofstream` on a path: whether it opens; the file is then empty.
  pub truncate_file : Bytes → State → Bool × State
  pub getpid : State → ℤ
  pub close : ℤ → State → State
  pub unlink : Bytes → State → Bool × State
