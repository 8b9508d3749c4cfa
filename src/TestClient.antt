-- ===== src/TestClient.antt =====
-- test/socket_client_test.cpp: a client that sends the daemon a configuration, the path of one, or a
-- process.
use cgproxy.Base.{Bool, none, some, [], ◌∷◌, Bytes, codes}
use cgproxy.Base.Int.{ℤ, pos}
use cgproxy.Constants.{msg_type_config_json, msg_type_config_path}
use cgproxy.Effect.{M, ◌>>=◌, ret, raised, json_type_error}
use cgproxy.Json.{Json}
use cgproxy.Config.{Config, default_config}
use cgproxy.Config.Load.{to_json_str}
use cgproxy.Command.{pid_message}
use cgproxy.Socket.{Net}
use cgproxy.Socket.Client.{send}

module _ (json : Json) where
  -- The object that `send_config` builds of the text of `toJsonStr`.
  unfoldable pub config_message : Bytes → json.Value
  config_message js =
      json.object
        ((codes "type", json.of_int msg_type_config_json) ∷ (codes "data", json.of_string js) ∷ [])

  unfoldable pub path_message : Bytes → json.Value
  path_message s =
      json.object
        ((codes "type", json.of_int msg_type_config_path) ∷ (codes "data", json.of_string s) ∷ [])

  module _ (net : Net) where
    open net use {State}

    -- `SOCKET::send(j.dump(), status)`; the result is the status.
    unfoldable pub send_json : json.Value → M State ℤ
    send_json j n = elim (json.dump j) [
      | none ↦ (raised json_type_error, n)
      | some msg ↦ send net msg n
    ]

    unfoldable pub send_config : Config → M State ℤ
    unfolding send_json
    send_config c = do js ← (λ n. (to_json_str json c, n)); send_json (config_message js)

    unfoldable pub send_config_path : Bytes → M State ℤ
    unfolding send_json
    send_config_path s = send_json (path_message s)

    unfoldable pub send_pid : ℤ → Bool → M State ℤ
    unfolding send_json
    send_pid pid proxied = send_json (pid_message json proxied pid)

    pub test_config : M State (Unit {0})
    test_config = do
      _ ← send_config (record default_config { cgroup_proxy = codes "/" ∷ [] })
      ret tt

    pub test_config_path : M State (Unit {0})
    test_config_path = do _ ← send_config_path (codes "/etc/cgproxy/config.json"); ret tt

    unfoldable pub main : M State ℤ
    unfolding test_config
    main = do _ ← test_config; ret (pos 0)
