-- ===== src/Script/Stopped.antt =====
-- What stopping the script makes of the tables.
use mathlib.Core.List.{erase}
use cgproxy.Base.{
  Bool, true, false, none, some, List, [], ◌∷◌, ◌++◌, Bytes, contains, if◌then◌else◌, All, ◌≡◌, ◌≢◌,
  refl, arith,
}
use cgproxy.Script.Env.{Variables}
use cgproxy.Script.{
  Family, ipv4, ipv6, Chain, postrouting, tproxy_pre, tproxy_ent, tproxy_out, tproxy_mark, Rule,
  Command, flush, delete_chain, delete, when, hook, unhook, unroute, on_all, stop_family,
}
use cgproxy.Script.Tables.{
  Tables, Rule-discrete, jumps_to, is_referenced, add_to, chain, set_chain, effect, effects, same,
}
use cgproxy.Script.Effects.{same_refl, IsForeign}
use cgproxy.Script.Started.{bare, masq, rerouted}
use cgproxy.Script.Restore.{erase-when, jumps_to-hook, policies_restored, routes_restored}

-- Chains that no rule jumps to.
abbrev pub AvoidsChains : List Rule → Type 0
AvoidsChains rs =
    (jumps_to tproxy_pre rs ≡ false)
    × (jumps_to tproxy_ent rs ≡ false)
    × (jumps_to tproxy_out rs ≡ false)
    × (jumps_to tproxy_mark rs ≡ false)

jumps_to-masq :
    (f : Family) (c : Chain) (b : Bool) (rs : List Rule)
    → jumps_to c rs ≡ false
    → jumps_to c (rs ++ when b (masq f ∷ [])) ≡ false
jumps_to-masq ipv4 c true [] h = refl
jumps_to-masq ipv6 c true [] h = refl
jumps_to-masq f c false [] h = refl
jumps_to-masq f c b (r ∷ rs) h = ground (arith, jumps_to-masq f c b rs)

pub AvoidsChains-masq :
    (f : Family) (b : Bool) (rs : List Rule)
    → AvoidsChains rs
    → AvoidsChains (rs ++ when b (masq f ∷ []))
AvoidsChains-masq f b rs (p, e, o, m) = (
  jumps_to-masq f tproxy_pre b rs p,
  jumps_to-masq f tproxy_ent b rs e,
  jumps_to-masq f tproxy_out b rs o,
  jumps_to-masq f tproxy_mark b rs m,
)

-- Four chains with any rules.
abbrev pub full :
    List Rule
    → List Rule
    → List Rule
    → List (Bytes × Bytes)
    → List Bytes
    → List Rule
    → List Rule
    → List Rule
    → List Rule
    → Tables
full pr ou po ps rt p e o m = record (bare pr ou po ps rt) {
  pre = some p;
  ent = some e;
  out = some o;
  mark = some m;
}

module _ (pr ou po : List Rule) (hpr : AvoidsChains pr) (hou : AvoidsChains ou)
    (hpo : AvoidsChains po) (ps : List (Bytes × Bytes)) (rt : List Bytes) where
  pub clear :
      (f : Family) (p e o m : List Rule) (ds : List Command)
      → effects f (on_all flush f ++ (on_all delete_chain f ++ ds)) (full pr ou po ps rt p e o m)
        ≡ effects f ds (bare pr ou po ps rt)
  unfolding effects effect chain set_chain is_referenced
  clear ipv4 p e o m ds =
      let (p1, e1, o1, m1) = hpr in
      let (p2, e2, o2, m2) = hou in
      let (p3, e3, o3, m3) = hpo in rw (p1, p2, p3, e1, e2, e3, o1, o2, o3, m1, m2, m3) refl
  clear ipv6 p e o m ds =
      let (p1, e1, o1, m1) = hpr in
      let (p2, e2, o2, m2) = hou in
      let (p3, e3, o3, m3) = hpo in rw (p1, p2, p3, o1, o2, o3, e1, e2, e3, m1, m2, m3) refl

-- The rules of a network that the script has not touched.
abbrev pub IsFree : Family → Variables → Tables → Type 0
IsFree f v t =
    (t.pre ≡ none)
    × (t.ent ≡ none)
    × (t.out ≡ none)
    × (t.mark ≡ none)
    × AvoidsChains t.prerouting_rules
    × AvoidsChains t.output_rules
    × AvoidsChains t.postrouting_rules
    × All (λ r. r ≢ masq f) t.postrouting_rules
    × All (λ p. p ≢ (v.fwmark_tproxy, v.table_tproxy)) t.policies
    × All (λ p. p ≢ (v.fwmark_reroute, v.table_reroute)) t.policies
    × (contains v.table_tproxy t.routes ≡ false)
    × (contains v.table_reroute t.routes ≡ false)

pub bare_eta :
    (t : Tables)
    → t.pre ≡ none
    → t.ent ≡ none
    → t.out ≡ none
    → t.mark ≡ none
    → t ≡ bare t.prerouting_rules t.output_rules t.postrouting_rules t.policies t.routes
bare_eta t p e o m i = record t { pre = p i; ent = e i; out = o i; mark = m i }

pub unhook-effects :
    (f : Family) (b : Bool) (pr ou po : List Rule) (ps : List (Bytes × Bytes)) (rt : List Bytes)
    (p e o m : List Rule) (ds : List Command)
    → AvoidsChains pr
    → AvoidsChains ou
    → effects f
        (unhook f ++ ds)
        (full (pr ++ hook tproxy_pre ∷ []) (ou ++ when b (hook tproxy_out ∷ [])) po ps rt p e o m)
      ≡ effects f ds (full pr ou po ps rt p e o m)
unfolding effects effect chain set_chain
unhook-effects f b pr ou po ps rt p e o m ds hpr hou =
    let (p1, _, _, _) = hpr in
    let (_, _, o2, _) = hou in
    let one : erase Rule-discrete (pr ++ hook tproxy_pre ∷ []) (hook tproxy_pre) ≡ pr =
      erase-when Rule-discrete (hook tproxy_pre) true pr (jumps_to-hook tproxy_pre pr p1) in
    let two : erase Rule-discrete (ou ++ when b (hook tproxy_out ∷ [])) (hook tproxy_out) ≡ ou =
      erase-when Rule-discrete (hook tproxy_out) b ou (jumps_to-hook tproxy_out ou o2) in
    rw (same_refl f) (λ i. effects f ds (full (one i) (two i) po ps rt p e o m))

pub unroute-effects :
    (f : Family) (v : Variables) (pr ou po : List Rule) (ps : List (Bytes × Bytes))
    (rt : List Bytes)
    → All (λ p. p ≢ (v.fwmark_tproxy, v.table_tproxy)) ps
    → All (λ p. p ≢ (v.fwmark_reroute, v.table_reroute)) ps
    → contains v.table_tproxy rt ≡ false
    → contains v.table_reroute rt ≡ false
    → effects f (unroute f v) (
        bare pr ou po
          ((ps ++ (v.fwmark_tproxy, v.table_tproxy) ∷ [])
            ++ when (rerouted v) ((v.fwmark_reroute, v.table_reroute) ∷ []))
          (if rerouted v
            then add_to v.table_reroute (add_to v.table_tproxy rt)
            else add_to v.table_tproxy rt))
      ≡ bare pr ou po ps rt
unfolding effects effect
unroute-effects f v pr ou po ps rt hp hq hn hm = rw (same_refl f) (λ i.
    bare pr ou po
      (policies_restored (rerouted v) (v.fwmark_tproxy, v.table_tproxy)
        (v.fwmark_reroute, v.table_reroute) ps hp hq i)
      (routes_restored (rerouted v) v.table_tproxy v.table_reroute rt hn hm i))

-- The end of the part after the families.
abbrev pub last_commands : List Command
last_commands = delete ipv4 postrouting (masq ipv4) ∷ delete ipv6 postrouting (masq ipv6) ∷ []

pub last_commands-effects :
    (f : Family) (g : Bool) (pr ou po : List Rule) (ps : List (Bytes × Bytes)) (rt : List Bytes)
    → All (λ r. r ≢ masq f) po
    → effects f last_commands (bare pr ou (po ++ when g (masq f ∷ [])) ps rt) ≡ bare pr ou po ps rt
unfolding effects effect chain set_chain
last_commands-effects ipv4 g pr ou po ps rt h i =
    bare pr ou (erase-when Rule-discrete (masq ipv4) g po h i) ps rt
last_commands-effects ipv6 g pr ou po ps rt h i =
    bare pr ou (erase-when Rule-discrete (masq ipv6) g po h i) ps rt

pub IsForeign-stop_family :
    (f g : Family) (v : Variables) → same f g ≡ false → IsForeign f (stop_family g v)
unfolding effects effect
IsForeign-stop_family ipv4 ipv4 v e t = ground arith
IsForeign-stop_family ipv4 ipv6 v e t = refl
IsForeign-stop_family ipv6 ipv4 v e t = refl
IsForeign-stop_family ipv6 ipv6 v e t = ground arith
