-- ===== src/Script/Tables.antt =====
-- What the commands of the script do to the tables of the kernel, after iptables(8), ip-rule(8) and
-- ip-route(8).
use native.Mathlib.Decide.{ℕ_discrete}
use mathlib.Core.Bool.{decide}
use mathlib.Core.List.{erase}
use cgproxy.Base.{
  Bool, true, false, ◌||◌, Option, none, some, List, [], ◌∷◌, ◌++◌, Bytes, if◌then◌else◌, ◌≡◌, refl,
  ap, ◌∙◌, contains, bytes_eq,
}
use cgproxy.Script.{
  Family, ipv4, ipv6, Chain, prerouting, output, postrouting, tproxy_pre, tproxy_ent, tproxy_out,
  tproxy_mark, Match, Target, jump, Rule, Command, new, flush, delete_chain, append, delete,
  add_rule, delete_rule, add_route, flush_routes, sysctl, umount,
}

pub Chain-discrete : Discrete Chain
Chain-discrete = hlevel

Match-discrete : Discrete Match
Match-discrete = hlevel ℕ_discrete

pub Target-discrete : Discrete Target
Target-discrete = hlevel ℕ_discrete

pub Rule-discrete : Discrete Rule
Rule-discrete = hlevel (ℕ_discrete, Match-discrete, Target-discrete)

pub Pair-discrete : Discrete (Bytes × Bytes)
Pair-discrete = hlevel ℕ_discrete

-- The tables of one family: the chains (of `mangle`, and POSTROUTING of `nat`), the rules of policy
-- routing, and the tables of routes that have the local default route. A chain of a user that is not
-- there is `none`.
pub record Tables : Type 0 where
  pub prerouting_rules : List Rule
  pub output_rules : List Rule
  pub postrouting_rules : List Rule
  pub pre : Option (List Rule)
  pub ent : Option (List Rule)
  pub out : Option (List Rule)
  pub mark : Option (List Rule)
  pub policies : List (Bytes × Bytes)
  pub routes : List Bytes

unfoldable pub chain : Chain → Tables → Option (List Rule)
chain prerouting t = some t.prerouting_rules
chain output t = some t.output_rules
chain postrouting t = some t.postrouting_rules
chain tproxy_pre t = t.pre
chain tproxy_ent t = t.ent
chain tproxy_out t = t.out
chain tproxy_mark t = t.mark

-- A chain of the kernel's own cannot be deleted.
unfoldable pub set_chain : Chain → Option (List Rule) → Tables → Tables
set_chain prerouting (some rs) t = record t { prerouting_rules = rs }
set_chain output (some rs) t = record t { output_rules = rs }
set_chain postrouting (some rs) t = record t { postrouting_rules = rs }
set_chain tproxy_pre rs t = record t { pre = rs }
set_chain tproxy_ent rs t = record t { ent = rs }
set_chain tproxy_out rs t = record t { out = rs }
set_chain tproxy_mark rs t = record t { mark = rs }
set_chain _ none t = t

abbrev pub is_jump : Chain → Target → Bool
is_jump c (jump d) = decide (Chain-discrete d c)
is_jump c _ = false

-- A rule that jumps to the chain.
abbrev pub jumps_to : Chain → List Rule → Bool
jumps_to c [] = false
jumps_to c (r ∷ rs) = is_jump c r.target || jumps_to c rs

abbrev pub in_chain : Chain → Option (List Rule) → Bool
in_chain c none = false
in_chain c (some rs) = jumps_to c rs

unfoldable pub is_referenced : Chain → Tables → Bool
is_referenced c t =
    jumps_to c t.prerouting_rules
    || jumps_to c t.output_rules
    || jumps_to c t.postrouting_rules
    || in_chain c t.pre
    || in_chain c t.ent
    || in_chain c t.out
    || in_chain c t.mark

-- Where the call is refused, nothing changes.
abbrev new_chain : Chain → Option (List Rule) → Tables → Tables
new_chain c none t = set_chain c (some []) t
new_chain c (some _) t = t

abbrev change_chain : (List Rule → List Rule) → Chain → Option (List Rule) → Tables → Tables
change_chain f c none t = t
change_chain f c (some rs) t = set_chain c (some (f rs)) t

abbrev remove_chain : Chain → Option (List Rule) → Tables → Tables
remove_chain c (some []) t = if is_referenced c t then t else set_chain c none t
remove_chain c _ t = t

abbrev pub same : Family → Family → Bool
same ipv4 ipv4 = true
same ipv6 ipv6 = true
same _ _ = false

-- A route that is there is not added again.
abbrev pub add_to : Bytes → List Bytes → List Bytes
add_to n rs = if contains n rs then rs else rs ++ n ∷ []

unfoldable pub without : Bytes → List Bytes → List Bytes
without n [] = []
without n (m ∷ rs) = let rest = without n rs in if bytes_eq m n then rest else m ∷ rest

-- A command on the tables of its own family.
unfoldable pub effect : Family → Command → Tables → Tables
effect f (new g c) t = if same f g then new_chain c (chain c t) t else t
effect f (append g c r) t =
    if same f g then change_chain (λ rs. rs ++ r ∷ []) c (chain c t) t else t
effect f (delete g c r) t =
    if same f g then change_chain (λ rs. erase Rule-discrete rs r) c (chain c t) t else t
effect f (flush g c) t = if same f g then change_chain (λ _. []) c (chain c t) t else t
effect f (delete_chain g c) t = if same f g then remove_chain c (chain c t) t else t
effect f (add_rule g m n) t =
    if same f g then record t { policies = t.policies ++ (m, n) ∷ [] } else t
effect f (delete_rule g m n) t =
    if same f g then record t { policies = erase Pair-discrete t.policies (m, n) } else t
effect f (add_route g n) t = if same f g then record t { routes = add_to n t.routes } else t
effect f (flush_routes g n) t = if same f g then record t { routes = without n t.routes } else t
effect f (sysctl _) t = t
effect f (umount _) t = t

unfoldable pub effects : Family → List Command → Tables → Tables
effects f [] t = t
effects f (c ∷ cs) t = effects f cs (effect f c t)

-- The kernel and the tools, which are not part of the program.
pub record Kernel : Type 1 where
  pub State : Type 0
  pub run : Command → State → State
  pub tables : Family → State → Tables

abbrev pub run_all : (k : Kernel) → List Command → k.State → k.State
run_all k [] s = s
run_all k (c ∷ cs) s = run_all k cs (k.run c s)

-- A command changes the tables as the manual says.
abbrev pub Obeys : Kernel → Type 0
Obeys k =
    (f : Family) (c : Command) (s : k.State) → k.tables f (k.run c s) ≡ effect f c (k.tables f s)

pub run_all-effects :
    (k : Kernel)
    → Obeys k
    → (f : Family) (cs : List Command) (s : k.State)
    → k.tables f (run_all k cs s) ≡ effects f cs (k.tables f s)
unfolding effects
run_all-effects k obeys f [] s = refl
run_all-effects k obeys f (c ∷ cs) s =
    run_all-effects k obeys f cs (k.run c s) ∙ ap (effects f cs) (obeys f c s)
