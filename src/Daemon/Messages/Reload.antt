-- ===== src/Daemon/Messages/Reload.antt =====
-- The messages for a configuration, as test/socket_client_test.cpp writes them.
use cgproxy.Base.{false, some, Bytes, codes, bytes_eq, if◌then◌else◌, ◌≡◌, refl, ◌∙◌, arith}
use cgproxy.Base.Int.{ℤ, eq_ℤ, eq_ℤ_iff}
use cgproxy.Constants.{success, param_error, msg_type_config_json, msg_type_config_path}
use cgproxy.Effect.{returned}
use cgproxy.System.{Os}
use cgproxy.Json.{Json, IsLawful, KeepsTexts, TextIsOneItem}
use cgproxy.Config.Load.{validate_json_str, Host, load_from_json_str, load_from_file}
use cgproxy.Config.Load.Status.{validate_text}
use cgproxy.Daemon.Messages.{
  Install, apply_config_sys, apply_config, apply_if_loaded, handle_config_json, handle_config_path,
  dispatch, handle_json, handle_msg,
}
use cgproxy.TestClient.{config_message, path_message}

module _ (os : Os) (json : Json) (env : Install) where
  -- The configuration is applied where the load answered 0.
  abbrev pub applied : ℤ → Host os.State → Host os.State
  applied n h =
      if eq_ℤ n success then record h { sys = apply_config_sys os env h.config h.sys } else h

  apply_if_loaded-applied :
      (n : ℤ) (h : Host os.State) → apply_if_loaded os json env n h ≡ (returned n, applied n h)
  unfolding apply_if_loaded apply_config
  apply_if_loaded-applied n h = ground (arith, eq_ℤ_iff n success)

  module _ (msg : Bytes) (h : Host os.State) {j kind payload : json.Value} where
    -- A configuration that the validation refuses is answered with PARAM_ERROR.
    config_refused :
        {q : Bytes}
        → json.parse msg ≡ some j
        → json.at j (codes "type") ≡ returned kind
        → json.get_int kind ≡ some msg_type_config_json
        → json.at j (codes "data") ≡ returned payload
        → json.dump payload ≡ some q
        → validate_json_str json q ≡ returned false
        → handle_msg os json env msg h ≡ (returned param_error, h)
    unfolding handle_msg handle_json dispatch handle_config_json apply_if_loaded load_from_json_str
    config_refused good k kn p pn bad = ground arith

    path_loaded :
        {path : Bytes} {n : ℤ}
        → json.parse msg ≡ some j
        → json.at j (codes "type") ≡ returned kind
        → json.get_int kind ≡ some msg_type_config_path
        → json.at j (codes "data") ≡ returned payload
        → json.get_string payload ≡ some path
        → (load_from_file os json path h).0 ≡ returned n
        → handle_msg os json env msg h ≡ (returned n, applied n (load_from_file os json path h).1)
    unfolding handle_msg handle_json dispatch handle_config_path
    path_loaded {path} {n} good k kn p pn load =
        ground (arith, apply_if_loaded-applied n (load_from_file os json path h).1)

  module _ (law : IsLawful json) (msg : Bytes) (h : Host os.State) where
    -- The message that carries a configuration as a text is answered with PARAM_ERROR.
    pub handle_msg-config_text :
        TextIsOneItem json
        → (js q : Bytes) → json.dump (config_message json js) ≡ some msg
        → json.dump (json.of_string js) ≡ some q
        → handle_msg os json env msg h ≡ (returned param_error, h)
    unfolding config_message
    handle_msg-config_text one js q dumped text =
        config_refused msg h {kind = json.of_int msg_type_config_json} {payload = json.of_string js}
          (law.parse-dump _ msg dumped)
          (law.at-object (codes "type") _ _ _ ∙ unfold bytes_eq in refl)
          (law.get_int-of_int msg_type_config_json)
          (law.at-object (codes "data") _ _ _ ∙ unfold bytes_eq in refl) text
          (validate_text json js q one (law.parse-dump _ q text))

    pub handle_msg-config_path :
        KeepsTexts json
        → (path : Bytes) {n : ℤ} → json.dump (path_message json path) ≡ some msg
        → (load_from_file os json path h).0 ≡ returned n
        → handle_msg os json env msg h ≡ (returned n, applied n (load_from_file os json path h).1)
    unfolding path_message
    handle_msg-config_path keeps path {n} dumped load =
        path_loaded msg h {kind = json.of_int msg_type_config_path} {payload = json.of_string path}
          (law.parse-dump _ msg dumped)
          (law.at-object (codes "type") _ _ _ ∙ unfold bytes_eq in refl)
          (law.get_int-of_int msg_type_config_path)
          (law.at-object (codes "data") _ _ _ ∙ unfold bytes_eq in refl) (keeps path) load
