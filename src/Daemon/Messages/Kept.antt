-- ===== src/Daemon/Messages/Kept.antt =====
-- What each step of the daemon on a message keeps, the message keeps.
use cgproxy.Base.{◌≡◌, codes, refl, inl, inr, Option-cases}
use cgproxy.Base.Int.{ℤ}
use cgproxy.Base.{Bytes}
use cgproxy.Constants.{cgroup2_mount_point, cgroup_proxy_preserved, cgroup_noproxy_preserved}
use cgproxy.Effect.{ret, Outcome, returned, raised, exited, hangs, continue, handle, >>=-keeps}
use cgproxy.System.{Os}
use cgproxy.Json.{Json}
use cgproxy.Attach.{attach_int}
use cgproxy.Config.Load.{Host, load_from_json_str, load_from_file}
use cgproxy.Daemon.Messages.{
  Install, at, get, msg_catch, apply_if_loaded, handle_config_json, handle_config_path,
  handle_attach, handle_json, handle_msg,
}
use cgproxy.Daemon.Messages.Laws.{dispatch-ind}

module _ (os : Os) (env : Install) (json : Json) (P : Host os.State → Type 0)
    (of_text : (js : Bytes) (h : Host os.State)
      → P h
      → P
          (continue
            (load_from_json_str os json js h).0
            (load_from_json_str os json js h).1
            (apply_if_loaded os json env)).1)
    (of_path : (f : Bytes) (h : Host os.State)
      → P h
      → P
          (continue
            (load_from_file os json f h).0
            (load_from_file os json f h).1
            (apply_if_loaded os json env)).1)
    (of_attach : (cg : Bytes) (pid : ℤ) (h : Host os.State)
      → P h
      → P (record h { sys = (attach_int os cgroup2_mount_point pid cg h.sys).1 })) where
  handle_config_json-keeps :
      (j : json.Value) (h : Host os.State) → P h → P (handle_config_json os json env j h).1
  unfolding handle_config_json
  handle_config_json-keeps j h a =
      >>=-keeps P (at os json env j (codes "data")) _ h a λ payload h1 a1.
        >>=-keeps P (get os json env (json.dump payload)) _ h1 a1 λ js h2 a2. of_text js h2 a2

  handle_config_path-keeps :
      (j : json.Value) (h : Host os.State) → P h → P (handle_config_path os json env j h).1
  unfolding handle_config_path
  handle_config_path-keeps j h a =
      >>=-keeps P (at os json env j (codes "data")) _ h a λ payload h1 a1.
        >>=-keeps P (get os json env (json.get_string payload)) _ h1 a1
          λ path h2 a2. of_path path h2 a2

  handle_attach-keeps :
      (cg : Bytes) (j : json.Value) (h : Host os.State)
      → P h
      → P (handle_attach os json env cg j h).1
  unfolding handle_attach
  handle_attach-keeps cg j h a =
      >>=-keeps P (at os json env j (codes "data")) _ h a λ payload h1 a1.
        >>=-keeps P (get os json env (json.get_int payload)) _ h1 a1
          λ pid h2 a2. of_attach cg pid h2 a2

  handle_json-keeps : (j : json.Value) (h : Host os.State) → P h → P (handle_json os json env j h).1
  unfolding handle_json
  handle_json-keeps j h a = >>=-keeps P (at os json env j (codes "type")) _ h a λ kind h1 a1.
      >>=-keeps P (get os json env (json.get_int kind)) _ h1 a1 λ type h2 a2.
        dispatch-ind os json env (λ m. P (m h2).1) type j (handle_config_json-keeps j h2 a2)
          (handle_config_path-keeps j h2 a2) (handle_attach-keeps cgroup_proxy_preserved j h2 a2)
          (handle_attach-keeps cgroup_noproxy_preserved j h2 a2) a2

  caught-state : (o : Outcome ℤ) (t : Host os.State) → (handle o t (λ x. ret (msg_catch x))).1 ≡ t
  caught-state (returned n) t = refl
  caught-state (raised x) t = refl
  caught-state (exited x) t = refl
  caught-state hangs t = refl

  pub handle_msg-keeps :
      (msg : Bytes) (h : Host os.State) → P h → P (handle_msg os json env msg h).1
  unfolding handle_msg
  handle_msg-keeps msg h a = elim (Option-cases (json.parse msg)) [
    | inl bad_text ↦ rw (bad_text, handle_msg) a
    | inr (j, good) ↦
        let out = handle_json os json env j h in
        rw (good, handle_msg, caught-state out.0 out.1) (handle_json-keeps j h a)
  ]
