-- ===== src/Daemon/Life.antt =====
-- `lock`, `unlock`, `start`, `stop`, `signalHandler`, the threads and `main` of src/cgproxyd.hpp.
pub mod Laws
use cgproxy.Base.{
  ℕ, Bool, true, false, not, ◌&&◌, ◌||◌, Option, none, some, List, [], ◌∷◌, ◌++◌, Bytes, codes,
  bytes_eq, ◌==◌, if◌then◌else◌,
}
use cgproxy.Base.Int.{ℤ, pos, negsuc, eq_ℤ}
use cgproxy.Base.Decimal.{show_ℤ}
use cgproxy.Constants.{pid_lock_file, success, error, exit_failure}
use cgproxy.Effect.{M, ◌>>=◌, ◌>>◌, ret, change, exit, Outcome, returned, raised, exited, hangs}
use cgproxy.System.{Os}
use cgproxy.Json.{Json}
use cgproxy.Config.{Config, default_config}
use cgproxy.Config.Load.{Host, load_from_file}
use cgproxy.Daemon.Place.{process_running_program}
use cgproxy.Daemon.Messages.{Install, run_script, apply_config, on_sys}

-- `processArgs` of the daemon.
pub record Flags : Type 0 where
  pub print_help : Bool
  pub enable_debug : Bool
  pub enable_execsnoop : Bool
  pub enable_socketserver : Bool

abbrev pub default_flags : Flags
default_flags = record {
  print_help = false;
  enable_debug = false;
  enable_execsnoop = false;
  enable_socketserver = true;
}

-- `argv[i][0] != '-'`; an empty argument begins with its NUL.
abbrev pub is_option : Bytes → Bool
is_option [] = false
is_option (c ∷ _) = c == b'-'

unfoldable pub set_flags : Bytes → Flags → Flags
set_flags arg f = record f {
  print_help = f.print_help || bytes_eq arg (codes "--help");
  enable_debug = f.enable_debug || bytes_eq arg (codes "--debug");
  enable_execsnoop = f.enable_execsnoop || bytes_eq arg (codes "--execsnoop");
}

-- The loop, over the arguments behind the program's name.
unfoldable pub process_args : List Bytes → Flags → Flags
process_args [] f = f
process_args (arg ∷ rest) f =
    let g = set_flags arg f in
    let more = process_args rest g in if not (is_option arg) then g else more

-- What the threads of `start` meet: whether the library of execsnoop is loaded at run time, what
-- `dlopen` and `dlsym` answer, and whether the thread reports within THREAD_TIMEOUT seconds.
pub record Threads : Type 0 where
  pub dl : Bool
  pub dlopen_ok : Bool
  pub dlsym_ok : Bool
  pub execsnoop_ready : Bool

unfoldable pub load_execsnoop_lib : Threads → Bool
load_execsnoop_lib t = if not t.dlopen_ok then false else t.dlsym_ok

module _ (os : Os) where
  open os use {State}

  -- `lock`; the file descriptor is its result, where it returns.
  unfoldable pub lock : M State ℤ
  lock s =
      let opened = os.open_file pid_lock_file s in
      let locked = os.flock opened.0 opened.1 in
      if not locked.0 then (exited exit_failure, locked.1) else (
        returned opened.0,
        os.write_file pid_lock_file (show_ℤ (os.getpid locked.1) ++ b'\n' ∷ []) locked.1,
      )

  unfoldable pub unlock : ℤ → State → State
  unlock fd s = (os.unlink pid_lock_file (os.close fd s)).1

  -- Also the destructor.
  unfoldable pub stop : Install → ℤ → State → State
  stop env fd s = unlock fd (run_script os env.tproxy_iptables_clean s)

  -- `exit(0)` does not run the destructor of the object on the stack of `main`.
  unfoldable pub signal_handler : Install → Option ℤ → M State (Unit {0})
  signal_handler env none s = (exited (pos 0), s)
  signal_handler env (some fd) s = (exited (pos 0), stop env fd s)

  start_execsnoop : Threads → Config → M State (Unit {0})
  start_execsnoop t c =
      if t.dl && not (load_execsnoop_lib t)
      then ret tt
      else if t.execsnoop_ready
      then process_running_program os c
      else ret tt

  -- `startExecsnoopThread`
  unfoldable pub start_execsnoop_thread : Threads → M (Host State) (Unit {0})
  unfolding start_execsnoop
  start_execsnoop_thread t h = on_sys os (start_execsnoop t h.config) h

  module _ (json : Json) (env : Install) where
    -- `start` from the loading of the configuration on. The threads run until they are joined, which is
    -- where the function returns; the socket thread's own work is `Socket.Server`.
    start_locked : Flags → Threads → M (Host State) ℤ
    start_locked f t = do
      status ← load_from_file os json env.default_config_file
      if not (eq_ℤ status success) then ret (negsuc 0) else (do
        _ ← apply_config os env
        (if f.enable_execsnoop then start_execsnoop_thread t else ret tt)
        ret (pos 0))

    pub start : Flags → Threads → M (Host State) (ℤ × ℤ)
    unfolding start_locked
    start f t = do fd ← on_sys os lock; res ← start_locked f t; ret (fd, res)

    -- `main` behind `processArgs`: the destructor runs when `start` returns.
    pub main : Flags → Threads → M (Host State) ℤ
    main f t h =
        if f.print_help
        then (exited (pos 0), h)
        else if not (os.getuid h.sys == 0)
        then (exited exit_failure, h)
        else (do out ← start f t; (λ g. (returned out.1, record g { sys = stop env out.0 g.sys })))
            h
