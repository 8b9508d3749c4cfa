-- ===== src/Service/Reload.antt =====
-- The client of test/socket_client_test.cpp and the daemon over the two ends of a connection.
use cgproxy.Base.{some, ◌<◌, Bytes, length, ◌≡◌, arith}
use cgproxy.Base.Int.{ℤ}
use cgproxy.Base.Word.{IsInt}
use cgproxy.Constants.{param_error}
use cgproxy.Effect.{returned}
use cgproxy.System.{Os}
use cgproxy.Json.{Json, IsLawful, KeepsTexts, TextIsOneItem}
use cgproxy.Config.{Config}
use cgproxy.Config.Load.{to_json_str, load_from_file}
use cgproxy.Daemon.Messages.{Install}
use cgproxy.Daemon.Messages.Reload.{applied, handle_msg-config_text, handle_msg-config_path}
use cgproxy.Socket.{Net}
use cgproxy.Socket.Wire.{IsText}
use cgproxy.Socket.Client.{send}
use cgproxy.Socket.Server.{Stale, round}
use cgproxy.Service.Conversation.{Daemon, Ends, Carries, exchange}
use cgproxy.Service.{callback}
use cgproxy.TestClient.{config_message, path_message, send_json, send_config, send_config_path}

module _ (os : Os) (json : Json) (env : Install) (near far : Net) where
  send_json-answer :
      (j : json.Value) (msg : Bytes) (s : near.State) {status : ℤ}
      → json.dump j ≡ some msg
      → (send near msg s).0 ≡ returned status
      → (send_json json near j s).0 ≡ returned status
  unfolding send_json
  send_json-answer j msg s dumped e = rw (dumped, send_json) e

  module _ (law : IsLawful json) (ends : Ends near far) (msg : Bytes) (s : near.State)
      (stale : Stale) (v : Daemon os json env near far) (text : IsText msg)
      (int : length msg < 2147483647)
      (carried : Carries os json env near far ends msg s stale v) where
    -- The test client that sends a configuration is left with PARAM_ERROR, and the daemon as it
    -- was, with every buffer freed: the client sends the configuration as a text instead of an
    -- object, which the daemon writes out as a quoted text, whose only item has the empty key, if
    -- the JSON library lists a text as one item under that key and reads back what it wrote, the
    -- connection is made and stays open, malloc has memory, and either end reads the bytes that the
    -- other one has written where it asks for as many.
    pub send_config_refused :
        TextIsOneItem json
        → (c : Config) {js q : Bytes} → to_json_str json c ≡ returned js
        → json.dump (config_message json js) ≡ some msg
        → json.dump (json.of_string js) ≡ some q
        → ((send_config json near c s).0 ≡ returned param_error)
          × ((round far (callback os json env far) stale v).1.daemon ≡ v.daemon)
          × ((round far (callback os json env far) stale v).1.live ≡ v.live)
    unfolding send_config
    send_config_refused one c {js} {q} written dumped quoted =
        let handled = handle_msg-config_text os json env law msg v.daemon one js q dumped quoted in
        let (told, d, l) =
          exchange os json env near far ends msg s stale v text int carried handled (omega arith) in
        (
          rw (written, send_config) (send_json-answer (config_message json js) msg s dumped told),
          d,
          l,
        )

    -- The test client that sends the path of a configuration is left with the status that the load
    -- of the file returns, which fits an int; the daemon has loaded the file and, if the status is
    -- 0, applied it, and every buffer is freed, if the connection is made and stays open, malloc
    -- has memory, either end reads the bytes that the other one has written where it asks for as
    -- many, and the JSON library reads back the text of the path.
    pub send_config_path-applied :
        KeepsTexts json
        → (path : Bytes) {n : ℤ} → json.dump (path_message json path) ≡ some msg
        → (load_from_file os json path v.daemon).0 ≡ returned n
        → IsInt n
        → ((send_config_path json near path s).0 ≡ returned n)
          × ((round far (callback os json env far) stale v).1.daemon
              ≡ applied os json env n (load_from_file os json path v.daemon).1)
          × ((round far (callback os json env far) stale v).1.live ≡ v.live)
    unfolding send_config_path
    send_config_path-applied keeps path dumped load small =
        let handled = handle_msg-config_path os json env law msg v.daemon keeps path dumped load in
        let (told, d, l) =
          exchange os json env near far ends msg s stale v text int carried handled small in
        (send_json-answer (path_message json path) msg s dumped told, d, l)
