-- ===== src/Daemon/Messages.antt =====
-- `handle_msg` and `applyConfig`: what the daemon does for a client.
pub mod Laws
pub mod Branches
pub mod Kept
pub mod Reload
pub mod Variables
pub mod Rules
use cgproxy.Base.{
  ℕ, Bool, true, false, Option, none, some, List, [], ◌∷◌, Bytes, codes, if◌then◌else◌,
}
use cgproxy.Base.Int.{ℤ, pos, eq_ℤ}
use cgproxy.Constants.{
  cgroup2_mount_point, cgroup_proxy_preserved, cgroup_noproxy_preserved, success, error, msg_error,
  msg_type_config_json, msg_type_config_path, msg_type_proxy_pid, msg_type_noproxy_pid,
}
use cgproxy.Effect.{
  M, ◌>>=◌, ◌>>◌, ret, change, try_catch, Exn, json_parse_error, json_type_error, json_out_of_range,
  std_out_of_range, std_invalid_argument, Outcome, returned, raised,
}
use cgproxy.System.{Os}
use cgproxy.Json.{Json, fetched}
use cgproxy.Attach.{attach_int}
use cgproxy.Config.{Config}
use cgproxy.Config.Env.{to_env}
use cgproxy.Config.Load.{Host, load_from_json_str, load_from_file}

-- The paths that cmake fills in.
pub record Install : Type 0 where
  pub tproxy_iptables_start : Bytes
  pub tproxy_iptables_clean : Bytes
  pub default_config_file : Bytes

-- `catch (out_of_range &)` names the `std` one; the rest is caught as `exception`.
abbrev pub msg_catch : Exn → ℤ
msg_catch std_out_of_range = msg_error
msg_catch _ = error

module _ (os : Os) where
  open os use {State}

  -- A call that works on the system alone.
  abbrev pub on_sys : {A : Type 0} → M State A → M (Host State) A
  on_sys m h = ((m h.sys).0, record h { sys = (m h.sys).1 })

  abbrev pub run_script : Bytes → State → State
  run_script cmd s = (os.system cmd s).1

  -- The script is stopped before it is started with the new environment.
  unfoldable pub apply_config_sys : Install → Config → State → State
  apply_config_sys env c s =
      run_script env.tproxy_iptables_start (to_env os c (run_script env.tproxy_iptables_clean s))

  pub apply_config : Install → M (Host State) ℤ
  apply_config env h = (returned (pos 0), record h { sys = apply_config_sys env h.config h.sys })

  module _ (json : Json) (env : Install) where
    abbrev pub at : json.Value → Bytes → M (Host State) json.Value
    at j key h = (json.at j key, h)

    abbrev pub get : {A : Type 0} → Option A → M (Host State) A
    get o h = (fetched o, h)

    -- `if (status == SUCCESS) status = applyConfig();`
    unfoldable pub apply_if_loaded : ℤ → M (Host State) ℤ
    apply_if_loaded status = if eq_ℤ status success then apply_config env else ret status

    pub handle_config_json : json.Value → M (Host State) ℤ
    handle_config_json j = do
      payload ← at j (codes "data")
      js ← get (json.dump payload)
      status ← load_from_json_str os json js
      apply_if_loaded status

    unfoldable pub handle_config_path : json.Value → M (Host State) ℤ
    handle_config_path j = do
      payload ← at j (codes "data")
      path ← get (json.get_string payload)
      status ← load_from_file os json path
      apply_if_loaded status

    pub handle_attach : Bytes → json.Value → M (Host State) ℤ
    handle_attach cgroup j = do
      payload ← at j (codes "data")
      pid ← get (json.get_int payload)
      on_sys (attach_int os cgroup2_mount_point pid cgroup)

    -- The `switch`.
    unfoldable pub dispatch : ℤ → json.Value → M (Host State) ℤ
    dispatch type j =
        if eq_ℤ type msg_type_config_json
        then handle_config_json j
        else if eq_ℤ type msg_type_config_path
        then handle_config_path j
        else if eq_ℤ type msg_type_proxy_pid
        then handle_attach cgroup_proxy_preserved j
        else if eq_ℤ type msg_type_noproxy_pid
        then handle_attach cgroup_noproxy_preserved j
        else ret msg_error

    -- The body of the second `try`.
    unfoldable pub handle_json : json.Value → M (Host State) ℤ
    handle_json j = do kind ← at j (codes "type"); type ← get (json.get_int kind); dispatch type j

    unfoldable pub handle_msg : Bytes → M (Host State) ℤ
    handle_msg msg = elim (json.parse msg) [
      | none ↦ ret msg_error
      | some j ↦ try_catch (handle_json j) (λ e. ret (msg_catch e))
    ]

    -- The callback that the socket thread is given: -1 while there is no instance.
    unfoldable pub handle_msg_static : Option (Host State) → Bytes → Outcome ℤ × Option (Host State)
    handle_msg_static none msg = (returned error, none)
    handle_msg_static (some h) msg = let out = handle_msg msg h in (out.0, some out.1)
