-- ===== src/Script/Effects.antt =====
-- Runs of the commands of the script, one group at a time.
use mathlib.Core.List.{append-nil, append_assoc}
use cgproxy.Base.{
  Bool, true, false, none, some, List, [], ◌∷◌, ◌++◌, Bytes, ◌≡◌, refl, ap, ◌∙◌, arith,
}
use cgproxy.Script.{
  Family, ipv4, ipv6, Chain, prerouting, output, postrouting, tproxy_pre, tproxy_ent, tproxy_out,
  tproxy_mark, Rule, Command, new, append, add_rule, add_route, when, appends,
}
use cgproxy.Script.Tables.{Tables, chain, set_chain, same, add_to, effect, effects}

pub effects-append :
    (f : Family) (xs ys : List Command) (t : Tables)
    → effects f (xs ++ ys) t ≡ effects f ys (effects f xs t)
unfolding effects
effects-append f [] ys t = refl
effects-append f (x ∷ xs) ys t = effects-append f xs ys (effect f x t)

pub same_refl : (f : Family) → same f f ≡ true
same_refl ipv4 = refl
same_refl ipv6 = refl

chain-set_chain :
    (c : Chain) (rs : List Rule) (t : Tables) → chain c (set_chain c (some rs) t) ≡ some rs
unfolding chain set_chain
chain-set_chain prerouting rs t = refl
chain-set_chain output rs t = refl
chain-set_chain postrouting rs t = refl
chain-set_chain tproxy_pre rs t = refl
chain-set_chain tproxy_ent rs t = refl
chain-set_chain tproxy_out rs t = refl
chain-set_chain tproxy_mark rs t = refl

set_chain_again :
    (c : Chain) (rs qs : List Rule) (t : Tables)
    → set_chain c (some rs) (set_chain c (some qs) t) ≡ set_chain c (some rs) t
unfolding set_chain
set_chain_again prerouting rs qs t = refl
set_chain_again output rs qs t = refl
set_chain_again postrouting rs qs t = refl
set_chain_again tproxy_pre rs qs t = refl
set_chain_again tproxy_ent rs qs t = refl
set_chain_again tproxy_out rs qs t = refl
set_chain_again tproxy_mark rs qs t = refl

effect-append_own :
    (f : Family) (c : Chain) (r : Rule) (qs : List Rule) (t : Tables)
    → effect f (append f c r) (set_chain c (some qs) t) ≡ set_chain c (some (qs ++ r ∷ [])) t
unfolding effect
effect-append_own f c r qs t =
    ground (arith, same_refl f, chain-set_chain c qs t, set_chain_again c (qs ++ r ∷ []) qs t)

-- Rules that are appended to a chain that is there stand at its end.
effects-appends :
    (f : Family) (c : Chain) (rs qs : List Rule) (t : Tables)
    → effects f (appends f c rs) (set_chain c (some qs) t) ≡ set_chain c (some (qs ++ rs)) t
unfolding effects
effects-appends f c [] qs t = rw append-nil refl
effects-appends f c (r ∷ rs) qs t =
    ap (effects f (appends f c rs)) (effect-append_own f c r qs t)
    ∙ effects-appends f c rs (qs ++ r ∷ []) t
    ∙ ap (λ xs. set_chain c (some xs) t) (append_assoc qs (r ∷ []) rs)

effect-new_own :
    (f : Family) (c : Chain) (t : Tables)
    → chain c t ≡ none
    → effect f (new f c) t ≡ set_chain c (some []) t
unfolding effect
effect-new_own f c t absent = rw (same_refl f, absent) refl

effects-appends_then :
    (f : Family) (c : Chain) (rs : List Rule) (ds : List Command) (t : Tables)
    → effects f (appends f c rs ++ ds) (set_chain c (some []) t)
      ≡ effects f ds (set_chain c (some rs) t)
effects-appends_then f c rs ds t =
    effects-append f (appends f c rs) ds (set_chain c (some []) t)
    ∙ ap (effects f ds) (effects-appends f c rs [] t)

-- A chain that is made and filled.
pub effects-build :
    (f : Family) (c : Chain) (rs : List Rule) (ds : List Command) (t : Tables)
    → chain c t ≡ none
    → effects f (new f c ∷ (appends f c rs ++ ds)) t ≡ effects f ds (set_chain c (some rs) t)
unfolding effects
effects-build f c rs ds t absent =
    ap (effects f (appends f c rs ++ ds)) (effect-new_own f c t absent)
    ∙ effects-appends_then f c rs ds t

pub effects-hook :
    (f : Family) (c : Chain) (r : Rule) (qs : List Rule) (ds : List Command) (t : Tables)
    → chain c t ≡ some qs
    → effects f (append f c r ∷ ds) t ≡ effects f ds (set_chain c (some (qs ++ r ∷ [])) t)
unfolding effects effect
effects-hook f c r qs ds t there = rw (same_refl f, there) refl

pub effects-hook_when :
    (f : Family) (b : Bool) (r : Rule) (t : Tables)
    → effects f (when b (append f output r ∷ [])) t
      ≡ record t { output_rules = t.output_rules ++ when b (r ∷ []) }
unfolding effects effect chain set_chain
effects-hook_when f true r t = rw (same_refl f) refl
effects-hook_when f false r t = rw append-nil refl

pub effects-route :
    (f : Family) (m n : Bytes) (ds : List Command) (t : Tables)
    → effects f (add_rule f m n ∷ add_route f n ∷ ds) t
      ≡ effects f ds (record t { policies = t.policies ++ (m, n) ∷ []; routes = add_to n t.routes })
unfolding effects effect
effects-route f m n ds t = rw (same_refl f) refl

-- Commands of the other family.
abbrev pub IsForeign : Family → List Command → Type 0
IsForeign f cs = (t : Tables) → effects f cs t ≡ t

pub IsForeign-append :
    (f : Family) (xs ys : List Command) → IsForeign f xs → IsForeign f ys → IsForeign f (xs ++ ys)
IsForeign-append f xs ys p q t = effects-append f xs ys t ∙ ap (effects f ys) (p t) ∙ q t

pub IsForeign-when :
    (f : Family) (b : Bool) (cs : List Command) → IsForeign f cs → IsForeign f (when b cs)
unfolding effects
IsForeign-when f true cs p t = p t
IsForeign-when f false cs p t = refl

pub IsForeign-cons :
    (f : Family) (c : Command) (cs : List Command)
    → ((t : Tables) → effect f c t ≡ t)
    → IsForeign f cs
    → IsForeign f (c ∷ cs)
unfolding effects
IsForeign-cons f c cs e p t = ap (effects f cs) (e t) ∙ p t

pub IsForeign-nil : (f : Family) → IsForeign f []
unfolding effects
IsForeign-nil f t = refl

module _ (f g : Family) (other : same f g ≡ false) where
  new_foreign : (c : Chain) (t : Tables) → effect f (new g c) t ≡ t
  unfolding effect
  new_foreign c t = rw other refl

  pub append_foreign : (c : Chain) (r : Rule) (t : Tables) → effect f (append g c r) t ≡ t
  unfolding effect
  append_foreign c r t = rw other refl

  pub add_rule_foreign : (m n : Bytes) (t : Tables) → effect f (add_rule g m n) t ≡ t
  unfolding effect
  add_rule_foreign m n t = rw other refl

  pub add_route_foreign : (n : Bytes) (t : Tables) → effect f (add_route g n) t ≡ t
  unfolding effect
  add_route_foreign n t = rw other refl

  IsForeign-appends : (c : Chain) (rs : List Rule) → IsForeign f (appends g c rs)
  IsForeign-appends c [] = IsForeign-nil f
  IsForeign-appends c (r ∷ rs) =
      IsForeign-cons f (append g c r) (appends g c rs) (append_foreign c r) (IsForeign-appends c rs)

  pub IsForeign-build :
      (c : Chain) (rs : List Rule) (ds : List Command)
      → IsForeign f ds
      → IsForeign f (new g c ∷ (appends g c rs ++ ds))
  IsForeign-build c rs ds p =
      IsForeign-cons f (new g c) (appends g c rs ++ ds) (new_foreign c)
        (IsForeign-append f (appends g c rs) ds (IsForeign-appends c rs) p)
