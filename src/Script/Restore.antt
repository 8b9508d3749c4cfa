-- ===== src/Script/Restore.antt =====
-- Stopping the script restores what was there: rules, chains, and the rules and tables of policy
-- routing.
use mathlib.Core.List.{append-nil, append_assoc, erase}
use mathlib.Core.Logic.{if_pos, if_neg}
use mathlib.Core.Bool.{decide}
use cgproxy.Base.{
  Bool, true, false, List, [], ◌∷◌, ◌++◌, Bytes, bytes_eq_iff, bytes_eq_refl, contains,
  if◌then◌else◌, Bool-cases, inl, inr, All, ◌≡◌, ◌≢◌, refl, ap, ◌∙◌, arith,
}
use cgproxy.Script.{Chain, Rule, when, hook}
use cgproxy.Script.Tables.{Chain-discrete, Pair-discrete, is_jump, jumps_to, without, add_to}

module _ {A : Type 0} (dec : (x y : A) → Dec (x ≡ y)) (r : A) where
  pub erase-middle : (xs ys : List A) → All (λ x. x ≢ r) xs → erase dec (xs ++ r ∷ ys) r ≡ xs ++ ys
  erase-middle [] ys h = if_pos (dec r r) refl ys (r ∷ erase dec ys r)
  erase-middle (x ∷ xs) ys (ne, h) =
      if_neg (dec x r) ne (xs ++ r ∷ ys) (x ∷ erase dec (xs ++ r ∷ ys) r)
      ∙ ap (◌∷◌ x) (erase-middle xs ys h)

  erase-absent : (xs : List A) → All (λ x. x ≢ r) xs → erase dec xs r ≡ xs
  erase-absent [] h = refl
  erase-absent (x ∷ xs) (ne, h) =
      if_neg (dec x r) ne xs (x ∷ erase dec xs r) ∙ ap (◌∷◌ x) (erase-absent xs h)

  -- A rule that was appended, if at all, is deleted.
  pub erase-when :
      (b : Bool) (xs : List A) → All (λ x. x ≢ r) xs → erase dec (xs ++ when b (r ∷ [])) r ≡ xs
  erase-when true xs h = erase-middle xs [] h ∙ append-nil xs
  erase-when false xs h = ap (λ ys. erase dec ys r) (append-nil xs) ∙ erase-absent xs h

decide_refl : (c : Chain) → decide (Chain-discrete c c) ≡ true
unfolding decide
decide_refl c = go (Chain-discrete c c)
  where
    go : (d : Dec (c ≡ c)) → decide d ≡ true
    go (yes _) = refl
    go (no ne) = absurd (ne refl)

pub jumps_to-hook : (c : Chain) (rs : List Rule) → jumps_to c rs ≡ false → All (λ r. r ≢ hook c) rs
jumps_to-hook c [] h = tt
jumps_to-hook c (r ∷ rs) h = (
  (λ e.
      let jumps : is_jump c r.target ≡ true =
        ap (λ (q : Rule). is_jump c q.target) e ∙ decide_refl c in
      ground arith),
  jumps_to-hook c rs (ground arith),
)

pub without-absent : (n : Bytes) (rs : List Bytes) → contains n rs ≡ false → without n rs ≡ rs
unfolding contains without
without-absent n [] h = refl
without-absent n (m ∷ rs) h =
    ground (arith, bytes_eq_iff m n, bytes_eq_iff n m, without-absent n rs)

pub without-append :
    (n : Bytes) (xs ys : List Bytes) → without n (xs ++ ys) ≡ without n xs ++ without n ys
unfolding without
without-append n [] ys = refl
without-append n (m ∷ xs) ys = ground (arith, without-append n xs ys)

pub policies_restored :
    (b : Bool) (p q : Bytes × Bytes) (ps : List (Bytes × Bytes))
    → All (λ r. r ≢ p) ps
    → All (λ r. r ≢ q) ps
    → erase Pair-discrete (erase Pair-discrete ((ps ++ p ∷ []) ++ when b (q ∷ [])) p) q ≡ ps
policies_restored b p q ps hp hq =
    ap (λ rs. erase Pair-discrete (erase Pair-discrete rs p) q)
      (append_assoc ps (p ∷ []) (when b (q ∷ [])))
    ∙ ap (λ rs. erase Pair-discrete rs q) (erase-middle Pair-discrete p ps (when b (q ∷ [])) hp)
    ∙ erase-when Pair-discrete q b ps hq

-- The two flushes of the routes.
abbrev drops : Bytes → Bytes → List Bytes → List Bytes
drops n m rs = without m (without n rs)

drops-add_to :
    (n m k : Bytes) (rs : List Bytes)
    → drops n m (k ∷ []) ≡ []
    → drops n m (add_to k rs) ≡ drops n m rs
drops-add_to n m k rs e = elim (Bool-cases (contains k rs)) [
  | inl there ↦ rw there refl
  | inr absent ↦ rw absent (
      ap (without m) (without-append n rs (k ∷ []))
      ∙ without-append m (without n rs) (without n (k ∷ []))
      ∙ ap (λ xs. drops n m rs ++ xs) e
      ∙ append-nil _)
]

drops-first : (n m : Bytes) → drops n m (n ∷ []) ≡ []
unfolding without
drops-first n m = rw (bytes_eq_refl n) refl

drops-second : (n m : Bytes) → drops n m (m ∷ []) ≡ []
unfolding without
drops-second n m = ground (arith, bytes_eq_refl m)

pub routes_restored :
    (b : Bool) (n m : Bytes) (rs : List Bytes)
    → contains n rs ≡ false
    → contains m rs ≡ false
    → drops n m (if b then add_to m (add_to n rs) else add_to n rs) ≡ rs
routes_restored b n m rs hn hm =
    let back : drops n m rs ≡ rs =
      ap (without m) (without-absent n rs hn) ∙ without-absent m rs hm in
    let first : drops n m (add_to n rs) ≡ rs = drops-add_to n m n rs (drops-first n m) ∙ back in
    elim (Bool-cases b) [
      | inl other ↦ rw other (drops-add_to n m m (add_to n rs) (drops-second n m) ∙ first)
      | inr one ↦ rw one first
    ]
