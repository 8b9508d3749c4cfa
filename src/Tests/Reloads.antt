-- ===== src/Tests/Reloads.antt =====
-- A configuration that is saved and loaded, and the messages of the test client.
use cgproxy.Base.{
  Bool, true, false, ◌||◌, ◌==◌, some, [], ◌∷◌, Bytes, codes, bytes_eq, bytes_eq_refl, ◌≡◌, refl,
  ap, ◌∙◌, arith,
}
use cgproxy.Constants.{success, param_error}
use cgproxy.Effect.{returned}
use cgproxy.Config.{default_config}
use cgproxy.Config.Load.{Host, to_json, to_json_str, load_from_file}
use cgproxy.Config.Load.RoundTrip.{loaded}
use cgproxy.Config.Load.Status.{finish_load-Returns}
use cgproxy.Config.Save.{save_to_file}
use cgproxy.Config.Save.Laws.{KeepsFiles, load_from_file-save_to_file}
use cgproxy.Daemon.Messages.Reload.{applied, handle_msg-config_text, handle_msg-config_path}
use cgproxy.Socket.Wire.{int_bytes, c_string, IsText}
use cgproxy.Socket.Server.{Server, round}
use cgproxy.Service.{callback}
use cgproxy.Service.Reload.{send_config_refused, send_config_path-applied}
use cgproxy.TestClient.{config_message, path_message, send_config, send_config_path}
use cgproxy.Tests.Machine.{Machine, machine}
use cgproxy.Tests.Nets.{Wire, wire, idle, wires, stale, asking, wire-Carries}
use cgproxy.Tests.Serving.{install, host, default-IsValid}
use cgproxy.Tests.Postfix.{
  write, postfix, postfix-IsLawful, postfix-IsTyped, postfix-SkipsSpace, postfix-KeepsTexts,
  postfix-TextIsOneItem,
}

machine-KeepsFiles : KeepsFiles machine
machine-KeepsFiles f text s opens = rw (bytes_eq_refl f) refl

abbrev saved : Bytes
saved = write (to_json postfix default_config)

abbrev file : Bytes
file = codes "/tmp/config.json"

answers_0 : (save_to_file machine postfix default_config file host.sys).0 ≡ returned success
unfolding save_to_file to_json_str
answers_0 = refl

load_from_file-save_to_file_example :
    let h : Host Machine = record {
      config = default_config;
      sys = (save_to_file machine postfix default_config file host.sys).1;
    } in
    load_from_file machine postfix file h ≡ loaded machine default_config h
unfolding to_json_str
load_from_file-save_to_file_example =
    load_from_file-save_to_file machine postfix postfix-IsLawful postfix-IsTyped postfix-SkipsSpace
      machine-KeepsFiles default_config default_config file host.sys {js = saved} default-IsValid
      refl answers_0

abbrev has_nul : Bytes → Bool
has_nul [] = false
has_nul (c ∷ cs) = c == 0 || has_nul cs

has_nul-IsText : (t : Bytes) → has_nul t ≡ false → IsText t
has_nul-IsText [] h = tt
has_nul-IsText (c ∷ cs) h = (ground arith, has_nul-IsText cs (ground arith))

abbrev daemon_for : Host Machine → Bytes → Server Wire (Host Machine)
daemon_for h request = asking request h

-- The machine on which the configuration was saved.
abbrev saved_host : Host Machine
saved_host = record {
  config = record default_config { enable_gateway = true };
  sys = (save_to_file machine postfix default_config file host.sys).1;
}

loads : (load_from_file machine postfix file saved_host).0 ≡ returned success
unfolding to_json_str
loads =
    ap (λ r. r.0)
      (load_from_file-save_to_file machine postfix postfix-IsLawful postfix-IsTyped
        postfix-SkipsSpace machine-KeepsFiles default_config saved_host.config file host.sys
        {js = saved} default-IsValid refl answers_0)
    ∙ (let (c, e) = finish_load-Returns machine default_config saved_host.sys in rw e refl)

-- The message of the test client with its configuration, and with the path of the saved one.
abbrev config_request : Bytes
config_request = write (config_message postfix saved)

abbrev path_request : Bytes
path_request = write (path_message postfix file)

send_config_refused_example :
    ((send_config postfix wire default_config (idle (some (int_bytes param_error) ∷ []))).0
      ≡ returned param_error)
    × ((round wire
          (callback machine postfix install wire)
          stale
          (daemon_for host config_request)).1.daemon
        ≡ host)
    × ((round wire
          (callback machine postfix install wire)
          stale
          (daemon_for host config_request)).1.live
        ≡ 0)
unfolding to_json_str to_json config_message c_string bytes_eq
send_config_refused_example =
    send_config_refused machine postfix install wire wire postfix-IsLawful wires config_request
      (idle (some (int_bytes param_error) ∷ [])) stale (daemon_for host config_request)
      (has_nul-IsText config_request refl) (omega arith)
      (wire-Carries machine postfix install config_request host (has_nul-IsText config_request refl)
        (omega arith)
        (handle_msg-config_text machine postfix install postfix-IsLawful config_request host
          postfix-TextIsOneItem saved (write (postfix.of_string saved)) refl refl))
      postfix-TextIsOneItem default_config {js = saved} {q = write (postfix.of_string saved)} refl
      refl refl

send_config_path-applied_example :
    ((send_config_path postfix wire file (idle (some (int_bytes success) ∷ []))).0
      ≡ returned success)
    × ((round wire
          (callback machine postfix install wire)
          stale
          (daemon_for saved_host path_request)).1.daemon
        ≡ applied machine postfix install success
            (load_from_file machine postfix file saved_host).1)
    × ((round wire
          (callback machine postfix install wire)
          stale
          (daemon_for saved_host path_request)).1.live
        ≡ 0)
unfolding path_message c_string
send_config_path-applied_example =
    send_config_path-applied machine postfix install wire wire postfix-IsLawful wires path_request
      (idle (some (int_bytes success) ∷ [])) stale (daemon_for saved_host path_request)
      (has_nul-IsText path_request refl) (omega arith)
      (wire-Carries machine postfix install path_request saved_host
        (has_nul-IsText path_request refl) (omega arith)
        (handle_msg-config_path machine postfix install postfix-IsLawful path_request saved_host
          postfix-KeepsTexts file refl loads))
      postfix-KeepsTexts file refl loads (omega arith)
