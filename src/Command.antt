-- ===== src/Command.antt =====
-- src/cgproxy.hpp, src/main.cpp and tools/cgattach.cpp: the command line.
pub mod Laws
use cgproxy.Base.{
  ℕ, zero, suc, ◌+◌, ◌-◌, ◌<◌, Bool, true, false, not, ◌&&◌, ◌||◌, Option, none, some, List, [],
  ◌∷◌, ◌++◌, Bytes, codes, bytes_eq, is_empty, ◌==◌, ltb, if◌then◌else◌, length,
}
use cgproxy.Base.Int.{ℤ, pos, negsuc, eq_ℤ}
use cgproxy.Base.Decimal.{read_ℕ}
use cgproxy.Constants.{exit_failure, msg_type_proxy_pid, msg_type_noproxy_pid}
use cgproxy.Effect.{
  M, ◌>>=◌, ret, exit, raise, Outcome, returned, raised, exited, std_out_of_range, json_type_error,
}
use cgproxy.Text.{join_args}
use cgproxy.Valid.{valid_pid, valid_cgroup}
use cgproxy.Json.{Json, fetched}
use cgproxy.System.{Os}
use cgproxy.Attach.{attach}
use cgproxy.Socket.{Net}
use cgproxy.Socket.Client.{send}
use cgproxy.Daemon.Life.{is_option}

-- The variables that `processArgs` sets; `rest` is `argv + shift`.
pub record Options : Type 0 where
  pub print_help : Bool
  pub proxy : Bool
  pub debug : Bool
  pub attach_pid : Bool
  pub arg_pid : Bytes
  pub rest : List Bytes

abbrev pub default_options : Options
default_options = record {
  print_help = false;
  proxy = true;
  debug = false;
  attach_pid = false;
  arg_pid = [];
  rest = [];
}

pub set_options : Bytes → Options → Options
set_options arg o = record o {
  proxy = o.proxy && not (bytes_eq arg (codes "--noproxy"));
  debug = o.debug || bytes_eq arg (codes "--debug");
  print_help = o.print_help || bytes_eq arg (codes "--help");
}

-- The loop of `processArgs`; `none` is the answer `false`. With `waits`, `--pid` was the last argument.
unfoldable pub process_args : Bool → List Bytes → Options → Option Options
process_args true [] o = none
process_args true (arg ∷ rest) o =
    let p = record o { attach_pid = true; arg_pid = arg } in
    let more = process_args false rest p in if not (valid_pid arg) then none else more
process_args false [] o = some (record o { rest = [] })
process_args false (arg ∷ rest) o =
    let waiting = process_args true rest o in
    let p = set_options arg o in
    let more = process_args false rest p in
    if bytes_eq arg (codes "--pid")
    then waiting
    else if not (is_option arg)
    then some (record p { rest = arg ∷ rest })
    else more

-- `std::stoi` on a text of digits, the only kind that `validPid` accepts: it throws where the number does
-- not fit an `int`.
pub stoi : Bytes → Outcome ℤ
stoi s = if ltb (read_ℕ s) 2147483648 then returned (pos (read_ℕ s)) else raised std_out_of_range

abbrev pub pid_type : Bool → ℤ
pid_type proxied = if proxied then msg_type_proxy_pid else msg_type_noproxy_pid

-- The object that `send_pid` builds.
unfoldable pub pid_message : (json : Json) → Bool → ℤ → json.Value
pid_message json proxied pid =
    json.object
      ((codes "type", json.of_int (pid_type proxied)) ∷ (codes "data", json.of_int pid) ∷ [])

-- What the process that was called sees: the socket, the pid of its own, and the shell.
pub record World (N S : Type 0) : Type 0 where
  pub net : N
  pub sys : S

module _ (os : Os) (net : Net) (json : Json) where
  abbrev pub State : Type 0
  State = World net.State os.State

  unfoldable pub send_pid : ℤ → Bool → M State ℤ
  send_pid pid proxied w = elim (json.dump (pid_message json proxied pid)) [
    | none ↦ (raised json_type_error, w)
    | some msg ↦ let out = send net msg w.net in (out.0, record w { net = out.1 })
  ]

  -- The pid that `main` sends.
  unfoldable pub pid_of : Options → M State ℤ
  pid_of o w = if o.attach_pid then (stoi o.arg_pid, w) else (returned (os.getpid w.sys), w)

  -- `main` from the first `send_pid` on.
  pub attach_and_run : Options → M State ℤ
  attach_and_run o = do
    pid ← pid_of o
    status ← send_pid pid o.proxy
    if not (eq_ℤ status (pos 0))
        then exit exit_failure
        else if o.attach_pid
        then ret (pos 0)
        else (λ w.
            let out = os.system (join_args o.rest b' ') w.sys in
            (returned out.0, record w { sys = out.1 }))

  -- `main` of the client, over the arguments behind the program's name.
  unfoldable pub main : List Bytes → M State ℤ
  main argv = elim (process_args false argv default_options) [
    | none ↦ exit exit_failure
    | some o ↦
        if o.print_help
        then exit (pos 0)
        else if not o.attach_pid && is_empty o.rest
        then exit exit_failure
        else attach_and_run o
  ]

-- `processArgs` of src/main.cpp: whether the daemon is meant.
unfoldable pub as_cgproxyd : List Bytes → Bool
as_cgproxyd [] = false
as_cgproxyd (arg ∷ rest) =
    let more = as_cgproxyd rest in
    bytes_eq arg (codes "--daemon") || (if not (is_option arg) then false else more)

-- tools/cgattach.cpp over its arguments; `is_root` is whether `setuid(0)` succeeds. What `attach`
-- answers is dropped, and the status of the process is 0.
pub cgattach : (os : Os) → Bool → Bytes → List Bytes → M os.State ℤ
cgattach os is_root mount (pid ∷ cgroup_target ∷ []) =
    if not is_root
    then exit exit_failure
    else if valid_pid pid && valid_cgroup cgroup_target
    then (do _ ← attach os mount pid cgroup_target; ret (pos 0))
    else exit exit_failure
cgattach os is_root mount _ = exit exit_failure

-- `main` of src/main.cpp has no `return`: what the other `main` returns is dropped, and the status of
-- the process is 0.
pub drop_status : {S : Type 0} → Outcome ℤ × S → Outcome ℤ × S
drop_status (returned _, s) = (returned (pos 0), s)
drop_status (o, s) = (o, s)

module _ (os : Os) (net : Net) (json : Json) where
  -- The process `cgproxy` without `--daemon`.
  pub client_process : List Bytes → M (World net.State os.State) ℤ
  client_process argv w = drop_status (main os net json argv w)
