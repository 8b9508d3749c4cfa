-- ===== src/Daemon/Messages/Rules.antt =====
-- The rules of the machine while the daemon takes messages.
use mathlib.Core.Path.{subst}
use cgproxy.Base.{
  true, List, [], ◌∷◌, ◌++◌, Bytes, codes, ◌≡◌, refl, sym, ap, ◌∙◌, inl, inr, Bool-cases,
}
use cgproxy.Base.Int.{ℤ, eq_ℤ}
use cgproxy.Base.Decimal.{show_ℤ}
use cgproxy.Constants.{success, cgroup2_mount_point}
use cgproxy.Effect.{Outcome, returned, raised, exited, hangs, continue}
use cgproxy.System.{Os}
use cgproxy.Json.{Json}
use cgproxy.Attach.{attach_int}
use cgproxy.Attach.Kept.{attach-kept}
use cgproxy.Config.{Config}
use cgproxy.Config.Env.{env_of, set_all, to_env}
use cgproxy.Config.Env.Kept.{Environment}
use cgproxy.Config.Load.{Host}
use cgproxy.Config.Load.Lookup.{IsKept, load_from_json_str-keeps, load_from_file-keeps}
use cgproxy.Daemon.Messages.{
  Install, run_script, apply_config_sys, apply_config, apply_if_loaded, handle_msg,
}
use cgproxy.Daemon.Messages.Kept.{handle_msg-keeps}
use cgproxy.Script.Env.{read_variables, Variables}
use cgproxy.Script.{Family, ipv4, Command, stop}
use cgproxy.Script.Tables.{Tables, Kernel, Obeys, effects}
use cgproxy.Script.Main.{Shell, stop_word, is_there, script}
use cgproxy.Script.Stopped.{IsFree}
use cgproxy.Script.Rounds.{KeepsTables, stop-tables, script-restores}

abbrev pub kernel_on :
    (os : Os) → (Command → os.State → os.State) → (Family → os.State → Tables) → Kernel
kernel_on os run tables = record { State = os.State; run = run; tables = tables }

-- The two commands of the daemon run the script, as root and with the environment of the daemon, and no
-- other call touches the rules.
pub record Scripts (os : Os) (env : Install) (e : Environment os) : Type 1 where
  pub run : Command → os.State → os.State
  pub tables : Family → os.State → Tables
  pub obeys : Obeys (kernel_on os run tables)
  pub shell : Shell (kernel_on os run tables)
  pub root : shell.is_root ≡ true
  pub makes : KeepsTables (kernel_on os run tables) shell
  -- What `findmnt` prints.
  pub found : os.State → Bytes
  pub starts :
      (s : os.State)
      → (os.system env.tproxy_iptables_start s).1
        ≡ (script
            (kernel_on os run tables)
            shell
            []
            (read_variables (λ n. e.getenv n s) (found s))
            s).1
  pub stops :
      (s : os.State)
      → (os.system env.tproxy_iptables_clean s).1
        ≡ (script
            (kernel_on os run tables)
            shell
            (stop_word ∷ [])
            (read_variables (λ n. e.getenv n s) (found s))
            s).1
  pub setenv_keeps :
      (f : Family) (k v : Bytes) (s : os.State) → tables f (os.setenv k v s) ≡ tables f s
  pub mkdir_keeps :
      (f : Family) (path : Bytes) (s : os.State) → tables f (os.mkdir path s).1 ≡ tables f s
  pub append_keeps :
      (f : Family) (path text : Bytes) (s : os.State)
      → tables f (os.append_file path text s).1 ≡ tables f s
  pub sleep_keeps : (f : Family) (s : os.State) → tables f (os.sleep_ms 100 s) ≡ tables f s
  pub popen_keeps :
      (f : Family) (cmd : Bytes) (s : os.State) → tables f (os.popen cmd s).1 ≡ tables f s
  pub popen_environment :
      (n cmd : Bytes) (s : os.State) → e.getenv n (os.popen cmd s).1 ≡ e.getenv n s

module _ (os : Os) (env : Install) (e : Environment os) (sc : Scripts os env e)
    (base : Family → Tables) (free : (f : Family) (v : Variables) → IsFree f v (base f)) where
  open os use {State}

  abbrev kernel : Kernel
  kernel = kernel_on os sc.run sc.tables

  abbrev variables : State → Bytes → Variables
  variables s found = read_variables (λ n. e.getenv n s) found

  -- Cleaning with the variables of the environment gives the rules of before.
  abbrev pub Cleans : State → Type 0
  Cleans s =
      (f : Family)
      → effects f (stop (is_there (sc.tables ipv4 s).ent) (variables s [])) (sc.tables f s) ≡ base f

  Cleans-same :
      (s t : State)
      → ((f : Family) → sc.tables f t ≡ sc.tables f s)
      → ((n : Bytes) → e.getenv n t ≡ e.getenv n s)
      → Cleans s
      → Cleans t
  Cleans-same s t same kept h f =
      (λ i.
        effects f (stop (is_there (same ipv4 i).ent) (read_variables (λ n. kept n i) []))
          (same f i))
      ∙ h f

  pub clean-tables :
      (f : Family) (s : State)
      → Cleans s
      → sc.tables f (run_script os env.tproxy_iptables_clean s) ≡ base f
  unfolding stop read_variables
  clean-tables f s h =
      ap (sc.tables f) (sc.stops s)
      ∙ stop-tables kernel sc.shell sc.obeys sc.makes f (variables s (sc.found s)) s sc.root
      ∙ h f

  set_all-tables :
      (f : Family) (vars : List (Bytes × Bytes)) (s : State)
      → sc.tables f (set_all os vars s) ≡ sc.tables f s
  unfolding set_all
  set_all-tables f [] s = refl
  set_all-tables f ((k, v) ∷ vars) s =
      set_all-tables f vars (os.setenv k v s) ∙ sc.setenv_keeps f k v s

  start-Cleans :
      (s : State)
      → ((f : Family) → sc.tables f s ≡ base f)
      → Cleans (run_script os env.tproxy_iptables_start s)
  unfolding stop read_variables
  start-Cleans s same f =
      let v : Variables = variables s (sc.found s) in
      let s1 : State = (script kernel sc.shell [] v s).1 in
      let free_now : (g : Family) → IsFree g v (sc.tables g s) =
        (λ g. subst (IsFree g v) (sym (same g)) (free g v)) in
      (λ i.
        effects f
          (stop (is_there (sc.tables ipv4 (sc.starts s i)).ent)
            (read_variables (λ n. e.system_keeps n env.tproxy_iptables_start s i) []))
          (sc.tables f (sc.starts s i)))
      ∙ sym (stop-tables kernel sc.shell sc.obeys sc.makes f v s1 sc.root)
      ∙ script-restores kernel sc.shell sc.obeys sc.makes f v s free_now
      ∙ same f

  apply_config_sys-Cleans :
      (c : Config) (s : State) → Cleans s → Cleans (apply_config_sys os env c s)
  unfolding apply_config_sys to_env
  apply_config_sys-Cleans c s h =
      let cleaned : State = run_script os env.tproxy_iptables_clean s in
      start-Cleans (to_env os c cleaned)
        (λ f. set_all-tables f (env_of c) cleaned ∙ clean-tables f s h)

  pub apply_config-Cleans : (h : Host State) → Cleans h.sys → Cleans (apply_config os env h).1.sys
  unfolding apply_config
  apply_config-Cleans h = apply_config_sys-Cleans h.config h.sys

  -- Where nothing of the script is there, nothing is cleaned.
  pub free-Cleans : (s : State) → ((f : Family) → sc.tables f s ≡ base f) → Cleans s
  unfolding stop effects
  free-Cleans s same f =
      let (_, none_there, _, _, _, _, _, _, _, _, _, _) = free ipv4 (variables s []) in
      ap (λ b. effects f (stop b (variables s [])) (sc.tables f s))
        (ap (λ (t : Tables). is_there t.ent) (same ipv4) ∙ ap is_there none_there)
      ∙ same f

  attach_int-Cleans :
      (cg : Bytes) (pid : ℤ) (s : State)
      → Cleans s
      → Cleans (attach_int os cgroup2_mount_point pid cg s).1
  unfolding attach_int
  attach_int-Cleans cg pid s h =
      Cleans-same s _
        (λ f.
          attach-kept os (show_ℤ pid) (sc.tables f)
            (record {
              mkdir = sc.mkdir_keeps f;
              append = λ procs t. sc.append_keeps f procs (show_ℤ pid ++ b'\n' ∷ []) t;
              sleep = sc.sleep_keeps f;
            })
            cgroup2_mount_point cg s)
        (λ k.
          attach-kept os (show_ℤ pid) (e.getenv k)
            (record {
              mkdir = e.mkdir_keeps k;
              append = λ procs t. e.append_keeps k procs (show_ℤ pid ++ b'\n' ∷ []) t;
              sleep = e.sleep_keeps k;
            })
            cgroup2_mount_point cg s)
        h

  popen-Cleans : (cmd : Bytes) (s : State) → Cleans s → Cleans (os.popen cmd s).1
  popen-Cleans cmd s h =
      Cleans-same s (os.popen cmd s).1 (λ f. sc.popen_keeps f cmd s)
        (λ n. sc.popen_environment n cmd s) h

  looked_up : IsKept os Cleans
  looked_up = record {
    which = λ name s h. popen-Cleans (codes "which " ++ name) s h;
    readlink = λ path s h. popen-Cleans (codes "readlink -e " ++ path) s h;
  }

  module _ (json : Json) where
    after_load :
        (r : Outcome ℤ) (t : Host State)
        → Cleans t.sys
        → Cleans (continue r t (apply_if_loaded os json env)).1.sys
    unfolding apply_if_loaded apply_config
    after_load (returned n) t h = elim (Bool-cases (eq_ℤ n success)) [
      | inl ok ↦ rw ok (apply_config_sys-Cleans t.config t.sys h)
      | inr failed ↦ rw failed h
    ]
    after_load (raised x) t h = h
    after_load (exited x) t h = h
    after_load hangs t h = h

    pub handle_msg-Cleans :
        (msg : Bytes) (h : Host State) → Cleans h.sys → Cleans (handle_msg os json env msg h).1.sys
    handle_msg-Cleans =
        handle_msg-keeps os env json (λ h. Cleans h.sys)
          (λ js h a. after_load _ _ (load_from_json_str-keeps os Cleans looked_up json js h a))
          (λ f h a. after_load _ _ (load_from_file-keeps os Cleans looked_up json f h a))
          (λ cg pid h a. attach_int-Cleans cg pid h.sys a)
