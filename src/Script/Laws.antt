-- ===== src/Script/Laws.antt =====
-- Starting the script and stopping it again.
use cgproxy.Base.{
  true, not, ◌&&◌, Option, none, some, List, [], ◌∷◌, ◌++◌, Bytes, ◌≡◌, refl, if◌then◌else◌, sym,
  ap, ◌∙◌,
}
use cgproxy.Script.Env.{Variables}
use cgproxy.Script.{
  Family, ipv4, ipv6, Chain, reply, tproxy_ent, tproxy_out, Rule, Command, flush, delete_chain,
  when, unroute, on_all, enabled, start, stop, stop_family, on_ip, pre_rules, ent_rules, out_rules,
  mark_rules,
}
use cgproxy.Script.Tables.{Tables, chain, effects, Kernel, run_all, Obeys, run_all-effects}
use cgproxy.Script.Effects.{effects-append}
use cgproxy.Script.Main.{is_there}
use cgproxy.Script.Marks.{Netfilter, Packet, in_any, proxies, walk-out_rules}
use cgproxy.Script.Started.{bare, masq, started, start-effects}
use cgproxy.Script.Stopped.{
  IsFree, AvoidsChains-masq, clear, bare_eta, unhook-effects, unroute-effects, last_commands,
  last_commands-effects, IsForeign-stop_family,
}

module _ (v : Variables) (f : Family) (t : Tables) (free : IsFree f v t) where
  abbrev before : Tables
  before = bare t.prerouting_rules t.output_rules t.postrouting_rules t.policies t.routes

  is_bare : t ≡ before
  is_bare = let (p, e, o, m, _, _, _, _, _, _, _, _) = free in bare_eta t p e o m

  start-free : effects f (start v) t ≡ started f v before
  start-free =
      ap (effects f (start v)) is_bare
      ∙ start-effects v t.prerouting_rules t.output_rules t.postrouting_rules t.policies t.routes f

  abbrev with_masq : Tables
  with_masq =
      bare t.prerouting_rules t.output_rules
        (t.postrouting_rules ++ when v.enable_gateway (masq f ∷ [])) t.policies t.routes

  stop_family-effects : effects f (stop_family f v) (started f v before) ≡ with_masq
  stop_family-effects =
      let (_, _, _, _, hpr, hou, hpo, _, hp, hq, hn, hm) = free in
      let po : List Rule = t.postrouting_rules ++ when v.enable_gateway (masq f ∷ []) in
      let hpo' = AvoidsChains-masq f v.enable_gateway t.postrouting_rules hpo in
      let ds : List Command = unroute f v in
      unhook-effects f (enabled f v) t.prerouting_rules t.output_rules po _ _ (pre_rules v)
        (ent_rules (on_ip f) v) (out_rules v) (mark_rules v)
        (on_all flush f ++ (on_all delete_chain f ++ ds)) hpr hou
      ∙ clear t.prerouting_rules t.output_rules po hpr hou hpo' _ _ f (pre_rules v)
          (ent_rules (on_ip f) v) (out_rules v) (mark_rules v) ds
      ∙ unroute-effects f v t.prerouting_rules t.output_rules po t.policies t.routes hp hq hn hm

  last-effects : effects f last_commands with_masq ≡ before
  last-effects =
      let (_, _, _, _, _, _, _, h, _, _, _, _) = free in
      last_commands-effects f v.enable_gateway t.prerouting_rules t.output_rules t.postrouting_rules
        t.policies t.routes h

stop-started :
    (v : Variables) (f : Family) (t : Tables) (free : IsFree f v t)
    → effects f (stop true v) (started f v (before v f t free)) ≡ before v f t free
unfolding stop
stop-started v ipv4 t free =
    let rest : List Command = last_commands in
    effects-append ipv4 (stop_family ipv4 v) (stop_family ipv6 v ++ rest) _
    ∙ ap (effects ipv4 (stop_family ipv6 v ++ rest)) (stop_family-effects v ipv4 t free)
    ∙ effects-append ipv4 (stop_family ipv6 v) rest _
    ∙ ap (effects ipv4 rest) (IsForeign-stop_family ipv4 ipv6 v refl _)
    ∙ last-effects v ipv4 t free
stop-started v ipv6 t free =
    let rest : List Command = last_commands in
    effects-append ipv6 (stop_family ipv4 v) (stop_family ipv6 v ++ rest) _
    ∙ ap (effects ipv6 (stop_family ipv6 v ++ rest)) (IsForeign-stop_family ipv6 ipv4 v refl _)
    ∙ effects-append ipv6 (stop_family ipv6 v) rest _
    ∙ ap (effects ipv6 rest) (stop_family-effects v ipv6 t free)
    ∙ last-effects v ipv6 t free

-- The rules that a packet meets in a chain.
abbrev pub rules_or : Option (List Rule) → List Rule
rules_or none = []
rules_or (some rs) = rs

unfoldable pub rules_of : Tables → Chain → List Rule
rules_of t c = rules_or (chain c t)

module _ (k : Kernel) (obeys : Obeys k) (v : Variables) (s : k.State)
    (free : (f : Family) → IsFree f v (k.tables f s)) where
  started-tables :
      (f : Family)
      → k.tables f (run_all k (start v) s) ≡ started f v (before v f (k.tables f s) (free f))
  started-tables f = run_all-effects k obeys f (start v) s ∙ start-free v f (k.tables f s) (free f)

  pub stop-start :
      (f : Family) → k.tables f (run_all k (stop true v) (run_all k (start v) s)) ≡ k.tables f s
  stop-start f =
      run_all-effects k obeys f (stop true v) (run_all k (start v) s)
      ∙ ap (effects f (stop true v)) (started-tables f)
      ∙ stop-started v f (k.tables f s) (free f)
      ∙ sym (is_bare v f (k.tables f s) (free f))

  pub start-is_there : is_there (chain tproxy_ent (k.tables ipv4 (run_all k (start v) s))) ≡ true
  unfolding chain
  start-is_there = rw (started-tables ipv4) refl

  -- Once the script has run its commands on tables that hold nothing of it, exactly those packets
  -- get the mark in its chain for the output that are no replies, come from no cgroup of
  -- cgroup_noproxy, come from a cgroup of cgroup_proxy, go to a unicast address and are of a
  -- protocol that is enabled; every other packet keeps its mark, in both families, if the commands
  -- do what their manuals say and netfilter walks through a chain as documented.
  pub start-marks :
      (net : Netfilter) (p : Packet) (m : Option Bytes) (f : Family)
      → let cs : Chain → List Rule = rules_of (k.tables f (run_all k (start v) s)) in
        net.walk cs p (cs tproxy_out) m ≡ (
          if not (p reply)
            && not (in_any p v.cgroup_noproxy)
            && in_any p v.cgroup_proxy
            && proxies v p
          then some v.fwmark_reroute
          else m)
  unfolding rules_of chain
  start-marks net p m f =
      rw (started-tables f) (
        walk-out_rules net (rules_of (started f v (before v f (k.tables f s) (free f)))) p v m refl)
