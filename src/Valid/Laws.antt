-- ===== src/Valid/Laws.antt =====
-- What the validators promise to those who print, join and split the texts.
use cgproxy.Base.{ℕ, Bool, true, false, ◌&&◌, [], ◌∷◌, ◌++◌, Bytes, ◌≡◌, refl, ◌≢◌, ◌↔◌, arith, All}
use cgproxy.Base.Int.{ℤ, pos, negsuc}
use cgproxy.Base.Decimal.{is_digit, AreDigits, show_ℕ, show_ℤ, show_ℕ-AreDigits, show_ℕ-ne-nil}
use cgproxy.Valid.{is_cgroup_byte, all_bytes, valid_cgroup, valid_pid}

all_bytes_iff : (p : ℕ → Bool) (cs : Bytes) → (all_bytes p cs ≡ true) ↔ All (λ c. p c ≡ true) cs
unfolding all_bytes
all_bytes_iff p [] = (λ h. tt, λ h. refl)
all_bytes_iff p (c ∷ cs) = ground (arith, all_bytes_iff p cs)

all_bytes-append :
    (p : ℕ → Bool) (xs ys : Bytes) → all_bytes p (xs ++ ys) ≡ (all_bytes p xs && all_bytes p ys)
unfolding all_bytes
all_bytes-append p [] ys = refl
all_bytes-append p (x ∷ xs) ys = ground (arith, all_bytes-append p xs ys)

-- A text is a valid pid exactly when it is not empty and holds only digits.
valid_pid_iff : (s : Bytes) → (valid_pid s ≡ true) ↔ ((s ≢ []) × AreDigits s)
unfolding valid_pid
valid_pid_iff [] = (λ h. cc, λ (ne, _). absurd (ne refl))
valid_pid_iff (c ∷ cs) = ground (arith, all_bytes_iff is_digit cs)

-- The number of every process that has one, written out, is a valid pid; a negative `int` is not.
valid_pid-show_ℤ : (n : ℤ) → valid_pid (show_ℤ n) ≡ (elim n [ pos _ ↦ true | negsuc _ ↦ false ])
unfolding show_ℤ valid_pid
valid_pid-show_ℤ (pos n) = (valid_pid_iff (show_ℕ n)).1 (show_ℕ-ne-nil n, show_ℕ-AreDigits n)
valid_pid-show_ℤ (negsuc n) = refl

-- A path below a valid cgroup is valid as soon as the bytes that are added are allowed.
valid_cgroup-append :
    (cg r : Bytes) → valid_cgroup cg ≡ true → valid_cgroup (cg ++ r) ≡ all_bytes is_cgroup_byte r
unfolding valid_cgroup
valid_cgroup-append [] r h = cc
valid_cgroup-append (c ∷ cs) r h = ground (arith, all_bytes-append is_cgroup_byte cs r)

-- A colon separates cgroups in the environment of the script: no valid cgroup holds one.
pub valid_cgroup-no_colon : (cg : Bytes) → valid_cgroup cg ≡ true → All (λ c. c ≢ b':') cg
unfolding valid_cgroup
valid_cgroup-no_colon [] h = tt
valid_cgroup-no_colon (c ∷ cs) h = (ground arith, rest cs (ground arith))
  where
    rest : (xs : Bytes) → all_bytes is_cgroup_byte xs ≡ true → All (λ c. c ≢ b':') xs
    rest [] h = tt
    rest (x ∷ xs) h = (ground arith, rest xs (ground arith))
