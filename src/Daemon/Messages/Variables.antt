-- ===== src/Daemon/Messages/Variables.antt =====
-- The scripts always run with the variables of the configuration that the daemon has.
use mathlib.Core.Path.{subst}
use cgproxy.Base.{[], ◌∷◌, ◌++◌, Bytes, ◌≡◌, ◌≢◌, sym, arith, inl, inr, Bool-cases}
use cgproxy.Base.Int.{ℤ, eq_ℤ, eq_ℤ_iff}
use cgproxy.Base.Decimal.{show_ℤ}
use cgproxy.Constants.{success, cgroup2_mount_point}
use cgproxy.Effect.{Outcome, returned, raised, exited, hangs, continue}
use cgproxy.System.{Os}
use cgproxy.Json.{Json}
use cgproxy.Attach.{attach_int}
use cgproxy.Attach.Kept.{attach-kept}
use cgproxy.Config.{Config}
use cgproxy.Config.Env.{to_env}
use cgproxy.Config.Env.Kept.{Environment, InEnv, to_env-InEnv, AreSet-kept}
use cgproxy.Config.Load.{Host}
use cgproxy.Config.Load.Status.{load_from_json_str_unchanged, load_from_file_unchanged}
use cgproxy.Daemon.Messages.{
  Install, run_script, apply_config_sys, apply_config, apply_if_loaded, handle_msg,
}
use cgproxy.Daemon.Messages.Kept.{handle_msg-keeps}

module _ (os : Os) (env : Install) (e : Environment os) where
  -- Behind applyConfig the variables are those of the configuration that was applied.
  apply_config_sys-InEnv : (c : Config) (s : os.State) → InEnv os e c (apply_config_sys os env c s)
  unfolding apply_config_sys
  apply_config_sys-InEnv c s =
      let written = to_env os c (run_script os env.tproxy_iptables_clean s) in
      AreSet-kept os e _ written _ (λ k. e.system_keeps k env.tproxy_iptables_start written)
        (to_env-InEnv os e c (run_script os env.tproxy_iptables_clean s))

  attach_int-InEnv :
      (mount cg : Bytes) (pid : ℤ) (c : Config) (s : os.State)
      → InEnv os e c s
      → InEnv os e c (attach_int os mount pid cg s).1
  unfolding attach_int
  attach_int-InEnv mount cg pid c s h =
      AreSet-kept os e _ s _
        (λ k.
          attach-kept os (show_ℤ pid) (e.getenv k)
            (record {
              mkdir = e.mkdir_keeps k;
              append = λ procs t. e.append_keeps k procs (show_ℤ pid ++ b'\n' ∷ []) t;
              sleep = e.sleep_keeps k;
            })
            mount cg s)
        h

  module _ (json : Json) where
    -- The variables are those of the configuration of the daemon.
    abbrev pub Agrees : Host os.State → Type 0
    Agrees h = InEnv os e h.config h.sys

    pub apply_config-Agrees : (h : Host os.State) → Agrees (apply_config os env h).1
    unfolding apply_config
    apply_config-Agrees h = apply_config_sys-InEnv h.config h.sys

    after_load :
        (h : Host os.State) (r : Outcome ℤ) (t : Host os.State)
        → (r ≢ returned success → t ≡ h)
        → Agrees h
        → Agrees (continue r t (apply_if_loaded os json env)).1
    unfolding apply_if_loaded apply_config
    after_load h (returned n) t same a = elim (Bool-cases (eq_ℤ n success)) [
      | inl ok ↦ rw ok (apply_config_sys-InEnv t.config t.sys)
      | inr failed ↦
          let ne : returned n ≢ returned success = ground (arith, eq_ℤ_iff n success) in
          rw failed (subst Agrees (sym (same ne)) a)
    ]
    after_load h (raised x) t same a = subst Agrees (sym (same (λ q. cc))) a
    after_load h (exited x) t same a = subst Agrees (sym (same (λ q. cc))) a
    after_load h hangs t same a = subst Agrees (sym (same (λ q. cc))) a

    -- No message parts the variables from the configuration.
    pub handle_msg-Agrees :
        (msg : Bytes) (h : Host os.State) → Agrees h → Agrees (handle_msg os json env msg h).1
    handle_msg-Agrees =
        handle_msg-keeps os env json Agrees
          (λ js h a. after_load h _ _ (load_from_json_str_unchanged os json js h) a)
          (λ f h a. after_load h _ _ (load_from_file_unchanged os json f h) a)
          (λ cg pid h a. attach_int-InEnv cgroup2_mount_point cg pid h.config h.sys a)
