-- ===== src/Text/Cgroup.antt =====
-- `belongToCgroup` on texts; Tree has it on the tree of cgroups.
pub mod Tree
use mathlib.Core.List.{append_assoc, append-nil}
use cgproxy.Base.{
  ℕ, true, false, List, [], ◌∷◌, ◌++◌, Bytes, ◌≡◌, refl, sym, ◌∙◌, ◌↔◌, ◌⊎◌, inl, inr, ◌≢◌,
  append-ne-nil, bytes_eq_refl, Bool-cases, arith, codes, contains, bytes_eq, bytes_eq_iff,
}
use cgproxy.Text.{start_with, belong_to_cgroup, belong_to_any}

start_with_iff :
    (s prefix : Bytes) → (start_with s prefix ≡ true) ↔ ((r : Bytes) × (s ≡ prefix ++ r))
unfolding start_with
start_with_iff s [] = (λ h. (s, refl), λ h. refl)
start_with_iff [] (p ∷ prefix) = (λ h. cc, λ (r, e). cc)
start_with_iff (c ∷ s) (p ∷ prefix) = (
  (λ h. let (r, e) = (start_with_iff s prefix).0 (ground arith) in (r, ground arith)),
  λ (r, e). ground (arith, (start_with_iff s prefix).1 (r, ground arith)),
)

-- The second text, or one that goes on behind it with a slash.
abbrev pub IsWithin : Bytes → Bytes → Type 0
IsWithin cg1 cg2 = (cg1 ≡ cg2) ⊎ ((r : Bytes) × (cg1 ≡ cg2 ++ b'/' ∷ r))

slash_end : (a b r : Bytes) → a ++ b'/' ∷ [] ≡ b ++ b'/' ∷ r → IsWithin a b
slash_end [] [] r e = inl refl
slash_end [] (y ∷ b) r e =
    let rest : [] ≡ b ++ b'/' ∷ r = ground arith in absurd (append-ne-nil b b'/' r (sym rest))
slash_end (x ∷ a) [] r e = inr (a, ground arith)
slash_end (x ∷ a) (y ∷ b) r e =
    let rest : a ++ b'/' ∷ [] ≡ b ++ b'/' ∷ r = ground arith in
    let head : x ≡ y = ground arith in
    elim (slash_end a b r rest) [ inl same ↦ inl (cc) | inr (q, below) ↦ inr (q, cc) ]

-- belongToCgroup answers whether the first text is the second or goes on behind it with a slash.
pub belong_to_cgroup_iff : (cg1 cg2 : Bytes) → (belong_to_cgroup cg1 cg2 ≡ true) ↔ IsWithin cg1 cg2
unfolding belong_to_cgroup
belong_to_cgroup_iff cg1 cg2 = (
  (λ h.
      let (r, e) = (start_with_iff _ _).0 h in
      slash_end cg1 cg2 r (e ∙ append_assoc cg2 (b'/' ∷ []) r)),
  (λ w. elim w [
    | inl same ↦
        (start_with_iff (cg1 ++ b'/' ∷ []) (cg2 ++ b'/' ∷ [])).1 ([], rw (same, append-nil))
    | inr (r, below) ↦
        (start_with_iff (cg1 ++ b'/' ∷ []) (cg2 ++ b'/' ∷ [])).1
          (r ++ b'/' ∷ [], rw below (simp append_assoc))
  ]),
)

pub belong_to_cgroup_refl : (cg : Bytes) → belong_to_cgroup cg cg ≡ true
belong_to_cgroup_refl cg = (belong_to_cgroup_iff cg cg).1 (inl refl)

IsWithin-trans : (a b c : Bytes) → IsWithin a b → IsWithin b c → IsWithin a c
IsWithin-trans a b c (inl p) q = rw p q
IsWithin-trans a b c (inr (r, p)) (inl q) = inr (r, rw (p, q))
IsWithin-trans a b c (inr (r, p)) (inr (s, q)) = inr (s ++ b'/' ∷ r, rw (p, q) (append_assoc c _ _))

-- Belonging is transitive: what is in a cgroup is in each cgroup that this one is in.
belong_to_cgroup_trans :
    (a b c : Bytes)
    → belong_to_cgroup a b ≡ true
    → belong_to_cgroup b c ≡ true
    → belong_to_cgroup a c ≡ true
belong_to_cgroup_trans a b c h k =
    (belong_to_cgroup_iff a c).1
      (IsWithin-trans a b c ((belong_to_cgroup_iff a b).0 h) ((belong_to_cgroup_iff b c).0 k))

-- Of the cgroups named with single slashes none but the root itself belongs to the root.
pub belong_to_cgroup_root :
    (c : ℕ) (cg : Bytes) → c ≢ b'/' → belong_to_cgroup (b'/' ∷ c ∷ cg) (codes "/") ≡ false
unfolding belong_to_cgroup
belong_to_cgroup_root c cg h = unfold start_with in ground arith

belong_to_any_iff :
    (cg1 : Bytes) (cgs : List Bytes)
    → (belong_to_any cg1 cgs ≡ true)
      ↔ ((cg2 : Bytes) × (contains cg2 cgs ≡ true) × IsWithin cg1 cg2)
unfolding belong_to_any contains
belong_to_any_iff cg1 [] = (λ h. cc, λ (c, h, _). cc)
belong_to_any_iff cg1 (s ∷ cgs) = (
  (λ h. elim (Bool-cases (belong_to_cgroup cg1 s)) [
    | inl here ↦ (s, rw bytes_eq_refl refl, (belong_to_cgroup_iff cg1 s).0 here)
    | inr there ↦
        let (c, m, w) = (belong_to_any_iff cg1 cgs).0 (rw there at h) in (c, ground arith, w)
  ]),
  λ (c, m, w). elim (Bool-cases (bytes_eq c s)) [
    | inl here ↦
        let e : c ≡ s = (bytes_eq_iff c s).0 here in
        rw ((belong_to_cgroup_iff cg1 s).1 (rw e at w)) refl
    | inr there ↦ ground (arith, (belong_to_any_iff cg1 cgs).1 (c, rw there at m, w))
  ],
)
