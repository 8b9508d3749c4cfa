-- ===== src/Script/Marks.antt =====
-- Which of the packets that the machine sends are marked: the chain TPROXY_OUT.
use cgproxy.Base.{
  Bool, true, false, not, ◌&&◌, ◌||◌, Option, some, List, [], ◌∷◌, ◌++◌, Bytes, if◌then◌else◌, ◌≡◌,
  ◌⊎◌, inl, inr, refl, ◌∙◌, arith, Bool-cases, All,
}
use cgproxy.Script.Env.{Variables}
use cgproxy.Script.{
  Chain, tproxy_mark, Match, reply, not_unicast, tcp, udp, dns, cgroup, return, jump, mark, Rule,
  on, when, for_cgroups, mark_rules, out_rules,
}

-- What holds of a packet.
abbrev pub Packet : Type 0
Packet = Match → Bool

-- The rules of a chain that always comes back to the one that called it.
abbrev pub Falls : List Rule → Type 0
Falls = All (λ r. (r.target ≡ return) ⊎ ((m : Bytes) × (r.target ≡ mark m)))

-- How netfilter walks through the rules of a chain: the mark with which a packet comes out, by the mark
-- with which it comes in.
pub record Netfilter : Type 0 where
  pub walk : (Chain → List Rule) → Packet → List Rule → Option Bytes → Option Bytes
  pub ends : (cs : Chain → List Rule) (p : Packet) (m : Option Bytes) → walk cs p [] m ≡ m
  pub skips :
      (cs : Chain → List Rule) (p : Packet) (r : Rule) (rs : List Rule) (m : Option Bytes)
      → p r.cond ≡ false
      → walk cs p (r ∷ rs) m ≡ walk cs p rs m
  pub returns :
      (cs : Chain → List Rule) (p : Packet) (c : Match) (rs : List Rule) (m : Option Bytes)
      → p c ≡ true
      → walk cs p (on c return ∷ rs) m ≡ m
  pub marks :
      (cs : Chain → List Rule) (p : Packet) (c : Match) (k : Bytes) (rs : List Rule)
      (m : Option Bytes)
      → p c ≡ true
      → walk cs p (on c (mark k) ∷ rs) m ≡ walk cs p rs (some k)
  pub jumps :
      (cs : Chain → List Rule) (p : Packet) (c : Match) (d : Chain) (rs : List Rule)
      (m : Option Bytes)
      → p c ≡ true
      → Falls (cs d)
      → walk cs p (on c (jump d) ∷ rs) m ≡ walk cs p rs (walk cs p (cs d) m)

-- The process that sent the packet is in one of the cgroups.
abbrev pub in_any : Packet → List Bytes → Bool
in_any p [] = false
in_any p (cg ∷ cgs) = p (cgroup cg) || in_any p cgs

-- What is proxied of the traffic of a proxied cgroup.
unfoldable pub proxies : Variables → Packet → Bool
proxies v p =
    not (p not_unicast)
    && ((v.enable_dns && p dns) || (v.enable_udp && p udp) || (v.enable_tcp && p tcp))

Falls-when :
    (b : Bool) (c : Match) (k : Bytes) (rs : List Rule)
    → Falls rs
    → Falls (when b (on c (mark k) ∷ []) ++ rs)
Falls-when true c k rs h = (inr (k, refl), h)
Falls-when false c k rs h = h

Falls-last : (b : Bool) (c : Match) (k : Bytes) → Falls (when b (on c (mark k) ∷ []))
Falls-last true c k = (inr (k, refl), tt)
Falls-last false c k = tt

mark_rules-Falls : (v : Variables) → Falls (mark_rules v)
mark_rules-Falls v = (
  inl refl,
  Falls-when v.enable_dns dns v.fwmark_reroute _ (
      Falls-when v.enable_udp udp v.fwmark_reroute _
        (Falls-last v.enable_tcp tcp v.fwmark_reroute)),
)

module _ (net : Netfilter) (cs : Chain → List Rule) (p : Packet) where
  open net use {walk}

  walk-when :
      (b : Bool) (c : Match) (k : Bytes) (rs : List Rule) (m : Option Bytes)
      → walk cs p (when b (on c (mark k) ∷ []) ++ rs) m
        ≡ walk cs p rs (if b && p c then some k else m)
  walk-when true c k rs m = elim (Bool-cases (p c)) [
    | inl hit ↦ rw hit (net.marks cs p c k rs m hit)
    | inr miss ↦ rw miss (net.skips cs p (on c (mark k)) rs m miss)
  ]
  walk-when false c k rs m = refl

  walk-last :
      (b : Bool) (c : Match) (k : Bytes) (m : Option Bytes)
      → walk cs p (when b (on c (mark k) ∷ [])) m ≡ (if b && p c then some k else m)
  walk-last true c k m = elim (Bool-cases (p c)) [
    | inl hit ↦ rw hit (net.marks cs p c k [] m hit ∙ net.ends cs p (some k))
    | inr miss ↦ rw miss (net.skips cs p (on c (mark k)) [] m miss ∙ net.ends cs p m)
  ]
  walk-last false c k m = net.ends cs p m

  marked_once :
      (a b c : Bool) (x m : Option Bytes)
      → (if c then x else (if b then x else (if a then x else m))) ≡ (if a || b || c then x else m)
  marked_once a b c x m = ground arith

  walk-mark_rules :
      (v : Variables) (m : Option Bytes)
      → walk cs p (mark_rules v) m ≡ (if proxies v p then some v.fwmark_reroute else m)
  unfolding proxies
  walk-mark_rules v m = elim (Bool-cases (p not_unicast)) [
    | inl local ↦ rw local (net.returns cs p not_unicast _ m local)
    | inr unicast ↦ rw unicast (
        net.skips cs p (on not_unicast return) _ m unicast
        ∙ walk-when v.enable_dns dns v.fwmark_reroute _ m
        ∙ walk-when v.enable_udp udp v.fwmark_reroute _ _
        ∙ walk-last v.enable_tcp tcp v.fwmark_reroute _
        ∙ marked_once (v.enable_dns && p dns) (v.enable_udp && p udp) (v.enable_tcp && p tcp)
            (some v.fwmark_reroute) m)
  ]

  walk-proxied :
      (v : Variables) (cgs : List Bytes) (m : Option Bytes)
      → cs tproxy_mark ≡ mark_rules v
      → walk cs p (for_cgroups (jump tproxy_mark) cgs) m
        ≡ (if in_any p cgs && proxies v p then some v.fwmark_reroute else m)
  walk-proxied v [] m e = net.ends cs p m
  walk-proxied v (cg ∷ cgs) m e = elim (Bool-cases (p (cgroup cg))) [
    | inl hit ↦ rw hit (
        net.jumps cs p (cgroup cg) tproxy_mark _ m hit (rw e (mark_rules-Falls v))
        ∙ walk-proxied v cgs _ e
        ∙ rw (e, walk-mark_rules v m) (ground arith))
    | inr miss ↦
        rw miss
          (net.skips cs p (on (cgroup cg) (jump tproxy_mark)) _ m miss ∙ walk-proxied v cgs m e)
  ]

  walk-noproxied :
      (cgs : List Bytes) (rs : List Rule) (m : Option Bytes)
      → walk cs p (for_cgroups return cgs ++ rs) m ≡ (if in_any p cgs then m else walk cs p rs m)
  walk-noproxied [] rs m = refl
  walk-noproxied (cg ∷ cgs) rs m = elim (Bool-cases (p (cgroup cg))) [
    | inl hit ↦ rw hit (net.returns cs p (cgroup cg) _ m hit)
    | inr miss ↦ rw miss (net.skips cs p (on (cgroup cg) return) _ m miss ∙ walk-noproxied cgs rs m)
  ]

  -- A packet
  pub walk-out_rules :
      (v : Variables) (m : Option Bytes)
      → cs tproxy_mark ≡ mark_rules v
      → walk cs p (out_rules v) m ≡ (
          if not (p reply)
            && not (in_any p v.cgroup_noproxy)
            && in_any p v.cgroup_proxy
            && proxies v p
          then some v.fwmark_reroute
          else m)
  walk-out_rules v m e = elim (Bool-cases (p reply)) [
    | inl answer ↦ rw answer (net.returns cs p reply _ m answer)
    | inr own ↦ rw own (
        net.skips cs p (on reply return) _ m own
        ∙ walk-noproxied v.cgroup_noproxy _ m
        ∙ rw (walk-proxied v v.cgroup_proxy m e) (ground arith))
  ]
