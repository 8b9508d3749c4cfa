-- ===== src/Service/Rules.antt =====
-- The rules of the machine while clients come and go.
use mathlib.Core.Path.{subst}
use cgproxy.Base.{List, ◌≡◌, refl, sym}
use cgproxy.System.{Os}
use cgproxy.Json.{Json}
use cgproxy.Config.Env.Kept.{Environment}
use cgproxy.Config.Load.{Host}
use cgproxy.Daemon.Messages.{Install, run_script, apply_config}
use cgproxy.Daemon.Messages.Rules.{
  Scripts, Cleans, free-Cleans, apply_config-Cleans, handle_msg-Cleans, clean-tables,
}
use cgproxy.Script.Env.{Variables}
use cgproxy.Script.{Family}
use cgproxy.Script.Tables.{Tables}
use cgproxy.Script.Stopped.{IsFree}
use cgproxy.Socket.{Net}
use cgproxy.Socket.Server.{Server, Stale, rounds}
use cgproxy.Socket.Server.Laws.{rounds-keeps}
use cgproxy.Service.{callback}

module _ (os : Os) (json : Json) (env : Install) (net : Net) (e : Environment os)
    (sc : Scripts os env e) where
  -- Where the daemon is started on a machine on which no rule jumps to a chain of the script, and
  -- which has none of the chains of the script, no masquerading rule of it, no policy by mark and
  -- no table with a local default route, then from the first applyConfig on, over any number of
  -- connections and whatever clients send, the clean script with which the daemon ends brings the
  -- rules of iptables and of policy routing back to what they were before, for both families, also
  -- when the lists, the table or the mark were changed in between, if both commands of the daemon
  -- run the script as root with the environment of the daemon and no other call touches the rules.
  pub serve-restores :
      (stales : List Stale) (h : Host os.State) (v : Server net.State (Host os.State))
      → ((f : Family) (w : Variables) → IsFree f w (sc.tables f h.sys))
      → v.daemon ≡ (apply_config os env h).1
      → (f : Family)
      → sc.tables f (
          run_script os env.tproxy_iptables_clean
            (rounds net (callback os json env net) stales v).1.daemon.sys)
        ≡ sc.tables f h.sys
  serve-restores stales h v free applied f =
      let base : Family → Tables = λ g. sc.tables g h.sys in
      let first : Cleans os env e sc base free v.daemon.sys =
        subst (λ (d : Host os.State). Cleans os env e sc base free d.sys) (sym applied)
          (apply_config-Cleans os env e sc base free h
            (free-Cleans os env e sc base free h.sys (λ g. refl))) in
      clean-tables os env e sc base free f _ (
        rounds-keeps net (callback os json env net) (λ d. Cleans os env e sc base free d.sys)
          (λ t d a. handle_msg-Cleans os env e sc base free json t d a) stales v first)
