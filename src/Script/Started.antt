-- ===== src/Script/Started.antt =====
-- What starting the script makes of the tables.
use mathlib.Core.List.{append-nil}
use cgproxy.Base.{
  Bool, true, false, not, none, some, List, [], ◌∷◌, ◌++◌, Bytes, codes, bytes_eq, if◌then◌else◌,
  ◌≡◌, refl, ap, ◌∙◌, Bool-cases, inl, inr,
}
use cgproxy.Script.Env.{Variables}
use cgproxy.Script.{
  Family, ipv4, ipv6, prerouting, output, postrouting, tproxy_pre, tproxy_ent, tproxy_out,
  tproxy_mark, masquerade, no_socket, no_socket_private, Rule, on, Command, new, append, add_rule,
  add_route, when, appends, ent_rules, pre_rules, mark_rules, out_rules, hook, on_ip, enabled,
  sysctl, start_family, gateway, start,
}
use cgproxy.Script.Tables.{Tables, chain, set_chain, same, add_to, effect, effects}
use cgproxy.Script.Effects.{
  effects-append, effects-build, effects-hook, effects-hook_when, effects-route, same_refl,
  IsForeign, IsForeign-append, IsForeign-when, IsForeign-cons, IsForeign-nil, append_foreign,
  add_rule_foreign, add_route_foreign, IsForeign-build,
}

-- The tables where the script has not been started.
abbrev pub bare : List Rule → List Rule → List Rule → List (Bytes × Bytes) → List Bytes → Tables
bare prerouting' output' postrouting' policies routes = record {
  prerouting_rules = prerouting';
  output_rules = output';
  postrouting_rules = postrouting';
  pre = none;
  ent = none;
  out = none;
  mark = none;
  policies = policies;
  routes = routes;
}

-- Another mark for the packets that are routed again.
abbrev pub rerouted : Variables → Bool
rerouted v = not (bytes_eq v.fwmark_reroute v.fwmark_tproxy)

-- What the part of a family makes of them.
abbrev pub with_family : Family → Variables → Tables → Tables
with_family f v t = record t {
  prerouting_rules = t.prerouting_rules ++ hook tproxy_pre ∷ [];
  output_rules = t.output_rules ++ when (enabled f v) (hook tproxy_out ∷ []);
  pre = some (pre_rules v);
  ent = some (ent_rules (on_ip f) v);
  out = some (out_rules v);
  mark = some (mark_rules v);
  policies =
      (t.policies ++ (v.fwmark_tproxy, v.table_tproxy) ∷ [])
      ++ when (rerouted v) ((v.fwmark_reroute, v.table_reroute) ∷ []);
  routes =
      if rerouted v
      then add_to v.table_reroute (add_to v.table_tproxy t.routes)
      else add_to v.table_tproxy t.routes;
}

module _ (f : Family) (v : Variables) (pr ou po : List Rule) (ps : List (Bytes × Bytes))
    (rt : List Bytes) where
  -- The second rule and route.
  effects-rerouted :
      (ds : List Command) (t : Tables)
      → effects f
          (when
              (rerouted v)
              (add_rule f v.fwmark_reroute v.table_reroute ∷ add_route f v.table_reroute ∷ [])
            ++ ds)
          t
        ≡ effects f ds (record t {
          policies = t.policies ++ when (rerouted v) ((v.fwmark_reroute, v.table_reroute) ∷ []);
          routes = if rerouted v then add_to v.table_reroute t.routes else t.routes;
        })
  unfolding effects effect
  effects-rerouted ds t = elim (Bool-cases (rerouted v)) [
    | inl other ↦ rw (other, same_refl f) refl
    | inr one ↦ rw (one, append-nil) refl
  ]

  start_family-effects :
      effects f (start_family f v) (bare pr ou po ps rt) ≡ with_family f v (bare pr ou po ps rt)
  unfolding start_family chain set_chain effects
  start_family-effects =
      let t0 : Tables =
        bare pr ou po (ps ++ (v.fwmark_tproxy, v.table_tproxy) ∷ []) (add_to v.table_tproxy rt) in
      let t1 : Tables = record t0 { ent = some (ent_rules (on_ip f) v) } in
      let t2 : Tables = record t1 { pre = some (pre_rules v) } in
      let t3 : Tables = record t2 { prerouting_rules = pr ++ hook tproxy_pre ∷ [] } in
      let t4 : Tables = record t3 {
        policies = t3.policies ++ when (rerouted v) ((v.fwmark_reroute, v.table_reroute) ∷ []);
        routes = if rerouted v then add_to v.table_reroute t3.routes else t3.routes;
      } in
      let t5 : Tables = record t4 { mark = some (mark_rules v) } in
      let t6 : Tables = record t5 { out = some (out_rules v) } in
      let d6 : List Command = when (enabled f v) (append f output (hook tproxy_out) ∷ []) in
      let d5 : List Command = new f tproxy_out ∷ (appends f tproxy_out (out_rules v) ++ d6) in
      let d4 : List Command = new f tproxy_mark ∷ (appends f tproxy_mark (mark_rules v) ++ d5) in
      let d3 : List Command =
        when (rerouted v)
          (add_rule f v.fwmark_reroute v.table_reroute ∷ add_route f v.table_reroute ∷ [])
        ++ d4 in
      let d2 : List Command = append f prerouting (hook tproxy_pre) ∷ d3 in
      let d1 : List Command = new f tproxy_pre ∷ (appends f tproxy_pre (pre_rules v) ++ d2) in
      let d0 : List Command =
        new f tproxy_ent ∷ (appends f tproxy_ent (ent_rules (on_ip f) v) ++ d1) in
      effects-route f v.fwmark_tproxy v.table_tproxy d0 (bare pr ou po ps rt)
      ∙ effects-build f tproxy_ent (ent_rules (on_ip f) v) d1 t0 refl
      ∙ effects-build f tproxy_pre (pre_rules v) d2 t1 refl
      ∙ effects-hook f prerouting (hook tproxy_pre) pr d3 t2 refl
      ∙ effects-rerouted d4 t3
      ∙ effects-build f tproxy_mark (mark_rules v) d5 t4 refl
      ∙ effects-build f tproxy_out (out_rules v) d6 t5 refl
      ∙ effects-hook_when f (enabled f v) (hook tproxy_out) t6

module _ (f g : Family) (other : same f g ≡ false) where
  IsForeign-start_family : (v : Variables) → IsForeign f (start_family g v)
  unfolding start_family
  IsForeign-start_family v =
      let r2 : List Command =
        add_rule g v.fwmark_reroute v.table_reroute ∷ add_route g v.table_reroute ∷ [] in
      let p6 = IsForeign-when f (enabled g v) (append g output (hook tproxy_out) ∷ []) (
        IsForeign-cons f _ [] (append_foreign f g other output (hook tproxy_out))
          (IsForeign-nil f)) in
      let p5 = IsForeign-build f g other tproxy_out (out_rules v) _ p6 in
      let p4 = IsForeign-build f g other tproxy_mark (mark_rules v) _ p5 in
      let q2 =
        IsForeign-cons f _ _ (add_rule_foreign f g other v.fwmark_reroute v.table_reroute)
          (IsForeign-cons f _ [] (add_route_foreign f g other v.table_reroute) (IsForeign-nil f)) in
      let p3 =
        IsForeign-append f (when (rerouted v) r2) _ (IsForeign-when f (rerouted v) r2 q2) p4 in
      let p2 = IsForeign-cons f _ _ (append_foreign f g other prerouting (hook tproxy_pre)) p3 in
      let p1 = IsForeign-build f g other tproxy_pre (pre_rules v) _ p2 in
      let p0 = IsForeign-build f g other tproxy_ent (ent_rules (on_ip g) v) _ p1 in
      IsForeign-cons f _ _ (add_rule_foreign f g other v.fwmark_tproxy v.table_tproxy)
        (IsForeign-cons f _ _ (add_route_foreign f g other v.table_tproxy) p0)

abbrev gateway_commands : List Command
gateway_commands =
    append ipv4 postrouting (on no_socket masquerade)
    ∷ append ipv6 postrouting (on no_socket_private masquerade)
    ∷ sysctl (codes "net.ipv4.ip_forward=1")
    ∷ sysctl (codes "net.ipv6.conf.all.forwarding=1")
    ∷ []

-- The rule of the gateway.
abbrev pub masq : Family → Rule
masq ipv4 = on no_socket masquerade
masq ipv6 = on no_socket_private masquerade

gateway_commands-effects :
    (f : Family) (b : Bool) (t : Tables)
    → effects f (when b gateway_commands) t
      ≡ record t { postrouting_rules = t.postrouting_rules ++ when b (masq f ∷ []) }
unfolding effects effect chain set_chain
gateway_commands-effects ipv4 true t = refl
gateway_commands-effects ipv6 true t = refl
gateway_commands-effects _ false t = rw append-nil refl

gateway-effects :
    (f : Family) (v : Variables) (t : Tables)
    → effects f (gateway v) t
      ≡ record t { postrouting_rules = t.postrouting_rules ++ when v.enable_gateway (masq f ∷ []) }
unfolding gateway
gateway-effects f v t = gateway_commands-effects f v.enable_gateway t

-- What the script makes of the tables.
abbrev pub started : Family → Variables → Tables → Tables
started f v t = record (with_family f v t) {
  postrouting_rules = t.postrouting_rules ++ when v.enable_gateway (masq f ∷ []);
}

module _ (v : Variables) (pr ou po : List Rule) (ps : List (Bytes × Bytes)) (rt : List Bytes) where
  -- Starting the script gives each family its own rules.
  pub start-effects :
      (f : Family) → effects f (start v) (bare pr ou po ps rt) ≡ started f v (bare pr ou po ps rt)
  unfolding start
  start-effects ipv4 =
      effects-append ipv4 (start_family ipv4 v) (start_family ipv6 v ++ gateway v) _
      ∙ ap (effects ipv4 (start_family ipv6 v ++ gateway v))
          (start_family-effects ipv4 v pr ou po ps rt)
      ∙ effects-append ipv4 (start_family ipv6 v) (gateway v) _
      ∙ ap (effects ipv4 (gateway v)) (IsForeign-start_family ipv4 ipv6 refl v _)
      ∙ gateway-effects ipv4 v _
  start-effects ipv6 =
      effects-append ipv6 (start_family ipv4 v) (start_family ipv6 v ++ gateway v) _
      ∙ ap (effects ipv6 (start_family ipv6 v ++ gateway v))
          (IsForeign-start_family ipv6 ipv4 refl v _)
      ∙ effects-append ipv6 (start_family ipv6 v) (gateway v) _
      ∙ ap (effects ipv6 (gateway v)) (start_family-effects ipv6 v pr ou po ps rt)
      ∙ gateway-effects ipv6 v _
