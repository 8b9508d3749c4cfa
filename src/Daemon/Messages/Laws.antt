-- ===== src/Daemon/Messages/Laws.antt =====
-- What every message does to the daemon.
use cgproxy.Base.{Bytes, codes, ◌≡◌, inl, inr, refl, Option-cases, Bool-cases, if-ind}
use cgproxy.Base.Int.{ℤ, pos, eq_ℤ}
use cgproxy.Base.Decimal.{show_ℤ}
use cgproxy.Constants.{
  cgroup2_mount_point, cgroup_proxy_preserved, cgroup_noproxy_preserved, success, error, msg_error,
}
use cgproxy.Effect.{
  M, Exn, std_out_of_range, Outcome, returned, raised, exited, hangs, Returns, IsPlain, >>=-IsPlain,
  >>=-keeps, try_catch, handle, ret,
}
use cgproxy.System.{Os}
use cgproxy.Json.{Json, fetched-IsPlain, AtIsPlain, ListsItems}
use cgproxy.Attach.{attach_int}
use cgproxy.Attach.Laws.{attach-IsStatus}
use cgproxy.Config.Load.{Host, load_from_json_str, load_from_file}
use cgproxy.Config.Load.Validity.{
  IsValid, StringsAreArrays, load_from_json_str-IsValid, load_from_file-IsValid,
}
use cgproxy.Config.Load.Total.{load_from_json_str-IsPlain, load_from_file-IsPlain}
use cgproxy.Daemon.Messages.{
  Install, at, get, msg_catch, apply_config, apply_if_loaded, handle_config_json,
  handle_config_path, handle_attach, dispatch, handle_json, handle_msg,
}

module _ (os : Os) (json : Json) (env : Install) where
  abbrev State : Type 0
  State = Host os.State

  apply_if_loaded-IsPlain : (n : ℤ) (h : State) → IsPlain (apply_if_loaded os json env n h).0
  unfolding apply_if_loaded apply_config
  apply_if_loaded-IsPlain n h = elim (Bool-cases (eq_ℤ n success)) [
    | inl yes' ↦ rw yes' (inl (pos 0, refl))
    | inr no' ↦ rw no' (inl (n, refl))
  ]

  attach_int-IsPlain :
      (mount : Bytes) (pid : ℤ) (cg : Bytes) (s : os.State)
      → IsPlain (attach_int os mount pid cg s).0
  unfolding attach_int
  attach_int-IsPlain mount pid cg s = elim (attach-IsStatus os mount (show_ℤ pid) cg s) [
    | inl ok ↦ inl (success, ok)
    | inr (inl failed) ↦ inl (error, failed)
    | inr (inr thrown) ↦ inr (std_out_of_range, thrown)
  ]

  pub dispatch-ind :
      (Q : M State ℤ → Type 0) (type : ℤ) (j : json.Value)
      → Q (handle_config_json os json env j)
      → Q (handle_config_path os json env j)
      → Q (handle_attach os json env cgroup_proxy_preserved j)
      → Q (handle_attach os json env cgroup_noproxy_preserved j)
      → Q (ret msg_error)
      → Q (dispatch os json env type j)
  unfolding dispatch
  dispatch-ind Q type j a b c d e =
      if-ind Q _ _ _ a (if-ind Q _ _ _ b (if-ind Q _ _ _ c (if-ind Q _ _ _ d e)))

  module _ (ends : AtIsPlain json) where
    handle_config_json-IsPlain :
        (j : json.Value) (h : State) → IsPlain (handle_config_json os json env j h).0
    unfolding handle_config_json
    handle_config_json-IsPlain j h =
        >>=-IsPlain (at os json env j (codes "data")) _ h (ends j (codes "data")) λ payload h1.
          >>=-IsPlain (get os json env (json.dump payload)) _ h1
            (fetched-IsPlain (json.dump payload))
            λ js h2.
              >>=-IsPlain (load_from_json_str os json js) _ h2
                (load_from_json_str-IsPlain json os js h2)
                λ status h3. apply_if_loaded-IsPlain status h3

    handle_config_path-IsPlain :
        (j : json.Value) (h : State) → IsPlain (handle_config_path os json env j h).0
    unfolding handle_config_path
    handle_config_path-IsPlain j h =
        >>=-IsPlain (at os json env j (codes "data")) _ h (ends j (codes "data")) λ payload h1.
          >>=-IsPlain (get os json env (json.get_string payload)) _ h1
            (fetched-IsPlain (json.get_string payload))
            λ path h2.
              >>=-IsPlain (load_from_file os json path) _ h2
                (load_from_file-IsPlain json os path h2)
                λ status h3. apply_if_loaded-IsPlain status h3

    handle_attach-IsPlain :
        (cg : Bytes) (j : json.Value) (h : State) → IsPlain (handle_attach os json env cg j h).0
    unfolding handle_attach
    handle_attach-IsPlain cg j h =
        >>=-IsPlain (at os json env j (codes "data")) _ h (ends j (codes "data")) λ payload h1.
          >>=-IsPlain (get os json env (json.get_int payload)) _ h1
            (fetched-IsPlain (json.get_int payload))
            λ pid h2. attach_int-IsPlain cgroup2_mount_point pid cg h2.sys

    dispatch-IsPlain :
        (type : ℤ) (j : json.Value) (h : State) → IsPlain (dispatch os json env type j h).0
    dispatch-IsPlain type j h =
        dispatch-ind (λ m. IsPlain (m h).0) type j (handle_config_json-IsPlain j h)
          (handle_config_path-IsPlain j h) (handle_attach-IsPlain cgroup_proxy_preserved j h)
          (handle_attach-IsPlain cgroup_noproxy_preserved j h) (inl (msg_error, refl))

    handle_json-IsPlain : (j : json.Value) (h : State) → IsPlain (handle_json os json env j h).0
    unfolding handle_json
    handle_json-IsPlain j h =
        >>=-IsPlain (at os json env j (codes "type")) _ h (ends j (codes "type")) λ kind h1.
          >>=-IsPlain (get os json env (json.get_int kind)) _ h1
            (fetched-IsPlain (json.get_int kind)) λ type h2. dispatch-IsPlain type j h2

    -- The daemon answers every message with a status: no message makes it throw, exit or run on, if
    -- looking up a key returns or throws.
    pub handle_msg-Returns : (msg : Bytes) (h : State) → Returns (handle_msg os json env msg h)
    unfolding handle_msg
    handle_msg-Returns msg h = elim (Option-cases (json.parse msg)) [
      | inl bad_text ↦ (msg_error, rw (bad_text, handle_msg) refl)
      | inr (j, good) ↦ elim (handle_json-IsPlain j h) [
        | inl (n, e) ↦ (n, rw (good, handle_msg, e) refl)
        | inr (x, e) ↦ (msg_catch x, rw (good, handle_msg, e) refl)
      ]
    ]

  module _ (lists : ListsItems json) (arrays : StringsAreArrays json) where
    abbrev HasValid : State → Type 0
    HasValid h = IsValid h.config

    apply_if_loaded-HasValid :
        (n : ℤ) (h : State) → HasValid h → HasValid (apply_if_loaded os json env n h).1
    unfolding apply_if_loaded apply_config
    apply_if_loaded-HasValid n h v = elim (Bool-cases (eq_ℤ n success)) [
      | inl yes' ↦ rw yes' v
      | inr no' ↦ rw no' v
    ]

    handle_config_json-HasValid :
        (j : json.Value) (h : State) → HasValid h → HasValid (handle_config_json os json env j h).1
    unfolding handle_config_json
    handle_config_json-HasValid j h v =
        >>=-keeps HasValid (at os json env j (codes "data")) _ h v λ payload h1 v1.
          >>=-keeps HasValid (get os json env (json.dump payload)) _ h1 v1 λ js h2 v2.
            >>=-keeps HasValid (load_from_json_str os json js) _ h2
              (load_from_json_str-IsValid json lists arrays os js h2 v2) apply_if_loaded-HasValid

    handle_config_path-HasValid :
        (j : json.Value) (h : State) → HasValid h → HasValid (handle_config_path os json env j h).1
    unfolding handle_config_path
    handle_config_path-HasValid j h v =
        >>=-keeps HasValid (at os json env j (codes "data")) _ h v λ payload h1 v1.
          >>=-keeps HasValid (get os json env (json.get_string payload)) _ h1 v1 λ path h2 v2.
            >>=-keeps HasValid (load_from_file os json path) _ h2
              (load_from_file-IsValid json lists arrays os path h2 v2) apply_if_loaded-HasValid

    handle_attach-HasValid :
        (cg : Bytes) (j : json.Value) (h : State)
        → HasValid h
        → HasValid (handle_attach os json env cg j h).1
    unfolding handle_attach
    handle_attach-HasValid cg j h v =
        >>=-keeps HasValid (at os json env j (codes "data")) _ h v λ payload h1 v1.
          >>=-keeps HasValid (get os json env (json.get_int payload)) _ h1 v1 λ pid h2 v2. v2

    handle_json-HasValid :
        (j : json.Value) (h : State) → HasValid h → HasValid (handle_json os json env j h).1
    unfolding handle_json
    handle_json-HasValid j h v =
        >>=-keeps HasValid (at os json env j (codes "type")) _ h v λ kind h1 v1.
          >>=-keeps HasValid (get os json env (json.get_int kind)) _ h1 v1 λ type h2 v2.
            dispatch-ind (λ m. HasValid (m h2).1) type j (handle_config_json-HasValid j h2 v2)
              (handle_config_path-HasValid j h2 v2)
              (handle_attach-HasValid cgroup_proxy_preserved j h2 v2)
              (handle_attach-HasValid cgroup_noproxy_preserved j h2 v2) v2

    try_catch-state :
        (m : M State ℤ) (f : Exn → ℤ) (h : State) → (try_catch m (λ e. ret (f e)) h).1 ≡ (m h).1
    try_catch-state m f h = go (m h).0 (m h).1
      where
        go : (o : Outcome ℤ) (t : State) → (handle o t (λ e. ret (f e))).1 ≡ t
        go (returned a) t = refl
        go (raised e) t = refl
        go (exited c) t = refl
        go hangs t = refl

    -- No message makes a valid configuration invalid, whatever the daemon answers, if the JSON
    -- library finds only what is among the items and reads lists of texts only from arrays.
    pub handle_msg-IsValid :
        (msg : Bytes) (h : State)
        → IsValid h.config
        → IsValid (handle_msg os json env msg h).1.config
    unfolding handle_msg
    handle_msg-IsValid msg h v = elim (Option-cases (json.parse msg)) [
      | inl bad_text ↦ rw (bad_text, handle_msg) v
      | inr (j, good) ↦
          rw (good, handle_msg, try_catch-state (handle_json os json env j) msg_catch h)
            (handle_json-HasValid j h v)
    ]
