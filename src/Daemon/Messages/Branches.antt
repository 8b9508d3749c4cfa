-- ===== src/Daemon/Messages/Branches.antt =====
-- What the answer of the daemon says about its configuration, and the branches of single messages.
use cgproxy.Base.{
  Bool, true, false, some, Bytes, codes, if◌then◌else◌, ◌≡◌, ◌≢◌, inl, inr, refl, arith, ap,
  Option-cases, Bool-cases,
}
use cgproxy.Base.Int.{ℤ, eq_ℤ}
use cgproxy.Constants.{
  cgroup2_mount_point, cgroup_proxy_preserved, cgroup_noproxy_preserved, success, error,
  msg_type_proxy_pid, msg_type_noproxy_pid,
}
use cgproxy.Effect.{
  M, json_out_of_range, Outcome, returned, raised, exited, hangs, continue, handle, ret,
}
use cgproxy.System.{Os}
use cgproxy.Json.{Json, fetched}
use cgproxy.Attach.{attach_int}
use cgproxy.Config.Load.{Host}
use cgproxy.Config.Load.Status.{load_from_json_str_unchanged, load_from_file_unchanged}
use cgproxy.Daemon.Messages.{
  Install, msg_catch, apply_config, apply_if_loaded, handle_config_json, handle_config_path,
  handle_attach, dispatch, handle_json, handle_msg,
}
use cgproxy.Daemon.Messages.Laws.{dispatch-ind}

module _ (os : Os) (json : Json) (env : Install) where
  abbrev State : Type 0
  State = Host os.State

  -- Unless the outcome is the answer 0, the configuration is that of `h`.
  abbrev Guarded : State → Outcome ℤ × State → Type 0
  Guarded h r = r.0 ≢ returned success → r.1.config ≡ h.config

  -- A step that only reads.
  reads-Guarded :
      {A : Type 0} (h : State) (o : Outcome A) (f : A → M State ℤ)
      → ((a : A) → Guarded h (f a h))
      → Guarded h (continue o h f)
  reads-Guarded h (returned a) f k = k a
  reads-Guarded h (raised e) f k = λ _. refl
  reads-Guarded h (exited c) f k = λ _. refl
  reads-Guarded h hangs f k = λ _. refl

  apply_if_loaded-Guarded :
      (h : State) (o : Outcome ℤ) (t : State)
      → (o ≢ returned success → t ≡ h)
      → Guarded h (continue o t (apply_if_loaded os json env))
  unfolding apply_if_loaded apply_config
  apply_if_loaded-Guarded h (returned n) t e = elim (Bool-cases (eq_ℤ n success)) [
    | inl yes' ↦ rw yes' (λ no'. absurd (no' refl))
    | inr no' ↦ rw no' (λ ne. ap (λ (g : State). g.config) (e ne))
  ]
  apply_if_loaded-Guarded h (raised x) t e = λ ne. ap (λ (g : State). g.config) (e ne)
  apply_if_loaded-Guarded h (exited x) t e = λ ne. ap (λ (g : State). g.config) (e (λ q. cc))
  apply_if_loaded-Guarded h hangs t e = λ ne. ap (λ (g : State). g.config) (e (λ q. cc))

  handle_config_json-Guarded :
      (j : json.Value) (h : State) → Guarded h (handle_config_json os json env j h)
  unfolding handle_config_json
  handle_config_json-Guarded j h = reads-Guarded h (json.at j (codes "data")) _ λ payload.
      reads-Guarded h (fetched (json.dump payload)) _
        λ js. apply_if_loaded-Guarded h _ _ (load_from_json_str_unchanged os json js h)

  handle_config_path-Guarded :
      (j : json.Value) (h : State) → Guarded h (handle_config_path os json env j h)
  unfolding handle_config_path
  handle_config_path-Guarded j h = reads-Guarded h (json.at j (codes "data")) _ λ payload.
      reads-Guarded h (fetched (json.get_string payload)) _
        λ path. apply_if_loaded-Guarded h _ _ (load_from_file_unchanged os json path h)

  handle_attach-Guarded :
      (cg : Bytes) (j : json.Value) (h : State) → Guarded h (handle_attach os json env cg j h)
  unfolding handle_attach
  handle_attach-Guarded cg j h =
      reads-Guarded h (json.at j (codes "data")) _
        λ payload. reads-Guarded h (fetched (json.get_int payload)) _ λ pid. λ _. refl

  handle_json-Guarded : (j : json.Value) (h : State) → Guarded h (handle_json os json env j h)
  unfolding handle_json
  handle_json-Guarded j h = reads-Guarded h (json.at j (codes "type")) _ λ kind.
      reads-Guarded h (fetched (json.get_int kind)) _ λ type.
        dispatch-ind os json env (λ m. Guarded h (m h)) type j (handle_config_json-Guarded j h)
          (handle_config_path-Guarded j h) (handle_attach-Guarded cgroup_proxy_preserved j h)
          (handle_attach-Guarded cgroup_noproxy_preserved j h) (λ _. refl)

  handle-Guarded :
      (h : State) (o : Outcome ℤ) (t : State)
      → Guarded h (o, t)
      → Guarded h (handle o t (λ e. ret (msg_catch e)))
  handle-Guarded h (returned n) t g = g
  handle-Guarded h (raised x) t g = λ _. g (λ q. cc)
  handle-Guarded h (exited x) t g = g
  handle-Guarded h hangs t g = g

  -- A message that is not answered with 0 does not change the configuration of the daemon.
  pub handle_msg-Guarded :
      (msg : Bytes) (h : State)
      → (handle_msg os json env msg h).0 ≢ returned success
      → (handle_msg os json env msg h).1.config ≡ h.config
  unfolding handle_msg
  handle_msg-Guarded msg h = elim (Option-cases (json.parse msg)) [
    | inl bad_text ↦ rw (bad_text, handle_msg) (λ _. refl)
    | inr (j, good) ↦ rw (good, handle_msg) (handle-Guarded h _ _ (handle_json-Guarded j h))
  ]

  -- A message with no type is answered with -1: the exception of the JSON library is not the
  -- out_of_range that the first handler names, so the MSG_ERROR behind it is not reached.
  pub handle_msg_no_type :
      (msg : Bytes) (h : State) {j : json.Value}
      → json.parse msg ≡ some j
      → json.at j (codes "type") ≡ raised json_out_of_range
      → handle_msg os json env msg h ≡ (returned error, h)
  unfolding handle_msg handle_json
  handle_msg_no_type msg h good missing = ground arith

  -- What an `attach` that throws is answered with.
  abbrev pub answered : Outcome ℤ → Outcome ℤ
  answered (raised e) = returned (msg_catch e)
  answered o = o

  -- A message for a pid attaches that process to the preserved cgroup of its type, answers what
  -- `attach` answers, and leaves the configuration alone.
  pub handle_msg-attach :
      (msg : Bytes) (h : State) (proxied : Bool) (pid : ℤ) {j kind payload : json.Value}
      → json.parse msg ≡ some j
      → json.at j (codes "type") ≡ returned kind
      → json.get_int kind ≡ some (if proxied then msg_type_proxy_pid else msg_type_noproxy_pid)
      → json.at j (codes "data") ≡ returned payload
      → json.get_int payload ≡ some pid
      → let cg = if proxied then cgroup_proxy_preserved else cgroup_noproxy_preserved in
        let out = attach_int os cgroup2_mount_point pid cg h.sys in
        handle_msg os json env msg h ≡ (answered out.0, record h { sys = out.1 })
  unfolding handle_msg handle_json dispatch handle_attach
  handle_msg-attach msg h true pid good k kn p pn = ground arith
  handle_msg-attach msg h false pid good k kn p pn = ground arith
