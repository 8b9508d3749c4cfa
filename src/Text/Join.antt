-- ===== src/Text/Join.antt =====
-- `join2str` against the usual joining with a delimiter between neighbours.
use mathlib.Core.List.{append-nil, append_assoc}
use cgproxy.Base.{
  ℕ, ◌+◌, ◌<◌, true, false, List, [], ◌∷◌, ◌++◌, Bytes, bytes_eq, bytes_eq_refl, bytes_eq_sym,
  contains, ◌≡◌, refl, sym, ap, ◌∙◌, ◌↔◌, inl, inr, ◌==◌, if◌then◌else◌, length, length-append,
  Bool-cases, arith,
}
use cgproxy.Text.{last_of, join_onto, join2str, join_args_onto, join_args}

-- The texts with the delimiter between neighbours.
abbrev pub intercalate : ℕ → List Bytes → Bytes
intercalate delm [] = []
intercalate delm (e ∷ []) = e
intercalate delm (e ∷ f ∷ es) = e ++ (delm ∷ intercalate delm (f ∷ es))

-- What the loop appends.
pieces : Bytes → ℕ → List Bytes → Bytes
pieces last delm [] = []
pieces last delm (e ∷ es) = (if bytes_eq e last then e else e ++ delm ∷ []) ++ pieces last delm es

join_onto-pieces :
    (last : Bytes) (delm : ℕ) (s : Bytes) (es : List Bytes)
    → join_onto last delm s es ≡ s ++ pieces last delm es
unfolding join_onto pieces
join_onto-pieces last delm s [] = sym (append-nil s)
join_onto-pieces last delm s (e ∷ es) = elim (Bool-cases (bytes_eq e last)) [
  | inl same ↦ rw same (rw (join_onto-pieces last delm (s ++ e) es) (append_assoc s e _))
  | inr other ↦
      rw other (rw (join_onto-pieces last delm (s ++ (e ++ delm ∷ [])) es) (append_assoc s _ _))
]

last_of-snoc : (e : Bytes) (es : List Bytes) (l : Bytes) → last_of e (es ++ l ∷ []) ≡ l
last_of-snoc e [] l = refl
last_of-snoc e (f ∷ es) l = last_of-snoc f es l

join2str-pieces :
    (xs : List Bytes) (l : Bytes) (delm : ℕ)
    → join2str (xs ++ l ∷ []) delm ≡ pieces l delm (xs ++ l ∷ [])
unfolding join2str
join2str-pieces [] l delm = join_onto-pieces l delm [] (l ∷ [])
join2str-pieces (x ∷ xs) l delm =
    join_onto-pieces (last_of x (xs ++ l ∷ [])) delm [] (x ∷ (xs ++ l ∷ []))
    ∙ ap (λ k. pieces k delm (x ∷ (xs ++ l ∷ []))) (last_of-snoc x xs l)

intercalate-cons :
    (delm : ℕ) (x : Bytes) (xs : List Bytes) (l : Bytes)
    → intercalate delm (x ∷ (xs ++ l ∷ [])) ≡ x ++ (delm ∷ intercalate delm (xs ++ l ∷ []))
intercalate-cons delm x [] l = refl
intercalate-cons delm x (y ∷ xs) l = refl

pieces-intercalate :
    (xs : List Bytes) (l : Bytes) (delm : ℕ)
    → contains l xs ≡ false
    → pieces l delm (xs ++ l ∷ []) ≡ intercalate delm (xs ++ l ∷ [])
unfolding pieces contains
pieces-intercalate [] l delm h = rw bytes_eq_refl (append-nil l)
pieces-intercalate (x ∷ xs) l delm h =
    let differ : bytes_eq x l ≡ false = ground (arith, bytes_eq_sym x l) in
    rw (differ, intercalate-cons, pieces-intercalate xs l delm (ground arith)) (append_assoc x _ _)

-- How many delimiters are lost.
lost : Bytes → List Bytes → ℕ
lost l [] = 0
lost l (x ∷ xs) = (if bytes_eq x l then 1 else 0) + lost l xs

length-intercalate :
    (xs : List Bytes) (l : Bytes) (delm : ℕ)
    → length (intercalate delm (xs ++ l ∷ [])) ≡ length (pieces l delm (xs ++ l ∷ [])) + lost l xs
unfolding pieces lost
length-intercalate [] l delm = rw (bytes_eq_refl, append-nil) (omega arith)
length-intercalate (x ∷ xs) l delm = elim (Bool-cases (bytes_eq x l)) [
  | inl same ↦
      rw (same, intercalate-cons)
        (omega (
          arith,
          length-append x (delm ∷ intercalate delm (xs ++ l ∷ [])),
          length-append x (pieces l delm (xs ++ l ∷ [])),
          length-intercalate xs l delm,
        ))
  | inr other ↦
      rw (other, intercalate-cons, append_assoc)
        (omega (
          arith,
          length-append x (delm ∷ intercalate delm (xs ++ l ∷ [])),
          length-append x (delm ∷ pieces l delm (xs ++ l ∷ [])),
          length-intercalate xs l delm,
        ))
]

lost-pos : (l : Bytes) (xs : List Bytes) → contains l xs ≡ true → 0 < lost l xs
unfolding lost contains
lost-pos l [] h = cc
lost-pos l (x ∷ xs) h = ground (arith, bytes_eq_sym x l, lost-pos l xs)

-- join2str puts the delimiter between all neighbours exactly when the last text occurs nowhere
-- before the end; otherwise the result lacks delimiters.
pub join2str_iff :
    (xs : List Bytes) (l : Bytes) (delm : ℕ)
    → (join2str (xs ++ l ∷ []) delm ≡ intercalate delm (xs ++ l ∷ [])) ↔ (contains l xs ≡ false)
join2str_iff xs l delm = (
  (λ e. elim (Bool-cases (contains l xs)) [
    | inl found ↦ absurd (
        omega (
          arith,
          length-intercalate xs l delm,
          lost-pos l xs found,
          ap length (sym (join2str-pieces xs l delm) ∙ e),
        ))
    | inr absent ↦ absent
  ]),
  (λ h. join2str-pieces xs l delm ∙ pieces-intercalate xs l delm h),
)

join_args_onto-intercalate :
    (argc i : ℕ) (s : Bytes) (delm : ℕ) (as' : List Bytes)
    → i + length as' ≡ argc
    → join_args_onto argc i s delm as' ≡ s ++ intercalate delm as'
unfolding join_args_onto
join_args_onto-intercalate argc i s delm [] h = sym (append-nil s)
join_args_onto-intercalate argc i s delm (a ∷ []) h = ground arith
join_args_onto-intercalate argc i s delm (a ∷ b ∷ as') h =
    let inner : ((i + 1) == argc) ≡ false = ground arith in
    rw (inner, join_args_onto-intercalate argc (i + 1) _ delm (b ∷ as') (omega arith))
      (simp append_assoc)

-- Joining by index puts the delimiter between all neighbours, whatever the texts are.
pub join_args-intercalate :
    (argv : List Bytes) (delm : ℕ) → join_args argv delm ≡ intercalate delm argv
unfolding join_args
join_args-intercalate argv delm =
    join_args_onto-intercalate (length argv) 0 [] delm argv (omega arith)
