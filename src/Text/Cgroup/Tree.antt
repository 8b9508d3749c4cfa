-- ===== src/Text/Cgroup/Tree.antt =====
-- Cgroups as places in a tree: the names from the root down.
use mathlib.Core.List.{append_assoc, append-nil}
use cgproxy.Base.{
  ℕ, true, false, List, [], ◌∷◌, ◌++◌, Bytes, ◌≡◌, refl, sym, ap, ◌∙◌, ◌↔◌, ◌⊎◌, inl, inr, ◌≢◌,
  arith, codes, All, drop,
}
use cgproxy.Text.{belong_to_cgroup}
use cgproxy.Text.Cgroup.{
  IsWithin, belong_to_cgroup_iff, belong_to_cgroup_refl, belong_to_cgroup_root,
}

-- A name in the tree: not empty, and with no slash.
abbrev pub IsName : Bytes → Type 0
IsName n = (n ≢ []) × All (λ c. c ≢ b'/') n

-- Each name with a slash in front.
abbrev segments : List Bytes → Bytes
segments [] = []
segments (n ∷ ns) = b'/' ∷ (n ++ segments ns)

-- The path of a place.
abbrev pub path : List Bytes → Bytes
path [] = codes "/"
path (n ∷ ns) = segments (n ∷ ns)

-- The place is in the subtree of the other one.
abbrev pub IsBelow : List Bytes → List Bytes → Type 0
IsBelow xs ys = (zs : List Bytes) × (xs ≡ ys ++ zs)

-- Nothing, or a slash in front.
abbrev IsTail : Bytes → Type 0
IsTail s = (s ≡ []) ⊎ ((q : Bytes) × (s ≡ b'/' ∷ q))

segments-IsTail : (ns : List Bytes) → IsTail (segments ns)
segments-IsTail [] = inl refl
segments-IsTail (n ∷ ns) = inr (_, refl)

append-IsTail : (ns : List Bytes) (r : Bytes) → IsTail r → IsTail (segments ns ++ r)
append-IsTail [] r h = h
append-IsTail (n ∷ ns) r h = inr (_, refl)

-- A tail does not begin inside of a name.
tail-not_name : (c : ℕ) (s r : Bytes) → IsTail s → c ≢ b'/' → s ≢ c ∷ r
tail-not_name c s r (inl none') ne e = cc
tail-not_name c s r (inr (q, slash)) ne e = ne cc

split_names :
    (x y s t : Bytes)
    → All (λ c. c ≢ b'/') x
    → All (λ c. c ≢ b'/') y
    → IsTail s
    → IsTail t
    → x ++ s ≡ y ++ t
    → (x ≡ y) × (s ≡ t)
split_names [] [] s t hx hy hs ht e = (refl, e)
split_names [] (c ∷ y) s t hx hy hs ht e = absurd (tail-not_name c s (y ++ t) hs hy.0 e)
split_names (c ∷ x) [] s t hx hy hs ht e = absurd (tail-not_name c t (x ++ s) ht hx.0 (sym e))
split_names (c ∷ x) (d ∷ y) s t hx hy hs ht e =
    let rest : x ++ s ≡ y ++ t = ground arith in
    let (names, tails) = split_names x y s t hx.1 hy.1 hs ht rest in (ground arith, tails)

segments-IsBelow :
    (xs ys : List Bytes) (r : Bytes)
    → All IsName xs
    → All IsName ys
    → IsTail r
    → segments xs ≡ segments ys ++ r
    → IsBelow xs ys
segments-IsBelow xs [] r hx hy hr e = (xs, refl)
segments-IsBelow [] (y ∷ ys) r hx hy hr e = cc
segments-IsBelow (x ∷ xs) (y ∷ ys) r hx hy hr e =
    let rest : x ++ segments xs ≡ y ++ (segments ys ++ r) =
      ap (drop 1) e ∙ append_assoc y (segments ys) r in
    let (names, tails) =
      split_names x y (segments xs) (segments ys ++ r) hx.0.1 hy.0.1 (segments-IsTail xs)
        (append-IsTail ys r hr) rest in
    let (zs, below) = segments-IsBelow xs ys r hx.1 hy.1 hr tails in (zs, rw (names, below) refl)

segments-append : (xs ys : List Bytes) → segments (xs ++ ys) ≡ segments xs ++ segments ys
segments-append [] ys = refl
segments-append (x ∷ xs) ys =
    ap (λ s. b'/' ∷ (x ++ s)) (segments-append xs ys)
    ∙ ap (λ s. b'/' ∷ s) (sym (append_assoc x (segments xs) (segments ys)))

IsBelow-IsWithin : (xs ys : List Bytes) → IsBelow xs ys → IsWithin (segments xs) (segments ys)
IsBelow-IsWithin xs ys (zs, e) =
    let whole : segments xs ≡ segments ys ++ segments zs = ap segments e ∙ segments-append ys zs in
    elim (segments-IsTail zs) [
      | inl last ↦ inl (whole ∙ ap (λ s. segments ys ++ s) last ∙ append-nil (segments ys))
      | inr (q, more) ↦ inr (q, whole ∙ ap (λ s. segments ys ++ s) more)
    ]

IsWithin-IsBelow :
    (xs ys : List Bytes)
    → All IsName xs
    → All IsName ys
    → IsWithin (segments xs) (segments ys)
    → IsBelow xs ys
IsWithin-IsBelow xs ys hx hy (inl same) =
    segments-IsBelow xs ys [] hx hy (inl refl) (same ∙ sym (append-nil (segments ys)))
IsWithin-IsBelow xs ys hx hy (inr (r, e)) =
    segments-IsBelow xs ys (b'/' ∷ r) hx hy (inr (r, refl)) e

-- The root is within no other place.
root-not-IsWithin :
    (y : Bytes) (ys : List Bytes) → IsName y → ¬ IsWithin (codes "/") (segments (y ∷ ys))
root-not-IsWithin [] ys hy w = absurd (hy.0 refl)
root-not-IsWithin (c ∷ y) ys hy (inl same) = cc
root-not-IsWithin (c ∷ y) ys hy (inr (r, e)) = cc

-- Nothing else is in the root.
not_in_root :
    (x : Bytes) (xs : List Bytes)
    → IsName x
    → belong_to_cgroup (segments (x ∷ xs)) (codes "/") ≡ false
not_in_root [] xs hx = absurd (hx.0 refl)
not_in_root (c ∷ x) xs hx = belong_to_cgroup_root c (x ++ segments xs) hx.1.0

-- Of two cgroups, given as the names from the root down, belongToCgroup says yes to their paths
-- exactly when the first is in the subtree of the second and, if the second is the root, is the
-- root itself.
pub belong_to_cgroup-IsBelow :
    (xs ys : List Bytes)
    → All IsName xs
    → All IsName ys
    → (belong_to_cgroup (path xs) (path ys) ≡ true) ↔ (IsBelow xs ys × (ys ≡ [] → xs ≡ []))
belong_to_cgroup-IsBelow [] [] hx hy =
    ((λ h. (([], refl), λ e. refl)), λ h. belong_to_cgroup_refl (codes "/"))
belong_to_cgroup-IsBelow (x ∷ xs) [] hx hy =
    ((λ h. let no = not_in_root x xs hx.0 in cc), (λ (below, root). let e = root refl in cc))
belong_to_cgroup-IsBelow [] (y ∷ ys) hx hy = (
  (λ h.
      absurd
        (root-not-IsWithin y ys hy.0 ((belong_to_cgroup_iff (codes "/") (segments (y ∷ ys))).0 h))),
  (λ ((zs, e), _). cc),
)
belong_to_cgroup-IsBelow (x ∷ xs) (y ∷ ys) hx hy = (
  (λ h. (
    IsWithin-IsBelow (x ∷ xs) (y ∷ ys) hx hy
        ((belong_to_cgroup_iff (segments (x ∷ xs)) (segments (y ∷ ys))).0 h),
    λ e. cc,
  )),
  (λ (below, _).
      (belong_to_cgroup_iff (segments (x ∷ xs)) (segments (y ∷ ys))).1
        (IsBelow-IsWithin (x ∷ xs) (y ∷ ys) below)),
)
