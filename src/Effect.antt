-- ===== src/Effect.antt =====
-- What a call of the program does: it returns, throws, ends the process or never ends, and leaves a
-- state.
use cgproxy.Base.{ℕ, ◌+◌, ◌≡◌, ◌⊎◌, inl, inr, refl}
use cgproxy.Base.Int.{ℤ, pos}

-- The exceptions that the code can meet. Those of the JSON library derive from `std::exception`
-- alone, so its `out_of_range` is not the `std::out_of_range` that `substr` and `stoi` throw.
pub data Exn : Type 0 where
  json_parse_error json_type_error json_out_of_range : Exn
  std_out_of_range std_invalid_argument : Exn

pub data Outcome (A : Type 0) : Type 0 where
  returned : A → Outcome A
  raised : Exn → Outcome A
  exited : ℤ → Outcome A
  hangs : Outcome A

-- A signal ends the process, with the status that a shell reports. What C++ leaves undefined is taken to
-- end it like SIGSEGV.
abbrev pub killed : {A : Type 0} → ℕ → Outcome A
killed n = exited (pos (128 + n))

abbrev pub sigsegv : ℕ
sigsegv = 11

abbrev pub sigpipe : ℕ
sigpipe = 13

abbrev pub M : Type 0 → Type 0 → Type 0
M S A = S → Outcome A × S

-- What follows a call, on its outcome and state.
abbrev pub continue : {S A B : Type 0} → Outcome A → S → (A → M S B) → Outcome B × S
continue (returned a) s f = f a s
continue (raised e) s f = (raised e, s)
continue (exited c) s f = (exited c, s)
continue hangs s f = (hangs, s)

infixl 5 ◌>>=◌ ◌>>◌
abbrev pub ◌>>=◌ : {S A B : Type 0} → M S A → (A → M S B) → M S B
◌>>=◌ m f s = continue (m s).0 (m s).1 f

abbrev pub ◌>>◌ : {S B : Type 0} → M S (Unit {0}) → M S B → M S B
◌>>◌ m k s = continue (m s).0 (m s).1 (λ _. k)

abbrev pub ret : {S A : Type 0} → A → M S A
ret a s = (returned a, s)

abbrev pub raise : {S A : Type 0} → Exn → M S A
raise e s = (raised e, s)

abbrev pub exit : {S A : Type 0} → ℤ → M S A
exit c s = (exited c, s)

-- A pure answer of the state.
abbrev pub ask : {S A : Type 0} → (S → A) → M S A
ask f s = (returned (f s), s)

-- A change of the state that has no answer.
abbrev pub change : {S : Type 0} → (S → S) → M S (Unit {0})
change f s = (returned tt, f s)

-- `try { … } catch (exception &)`: the state stays as the throwing call left it.
abbrev pub handle : {S A : Type 0} → Outcome A → S → (Exn → M S A) → Outcome A × S
handle (returned a) s f = (returned a, s)
handle (raised e) s f = f e s
handle (exited c) s f = (exited c, s)
handle hangs s f = (hangs, s)

abbrev pub try_catch : {S A : Type 0} → M S A → (Exn → M S A) → M S A
try_catch m f s = handle (m s).0 (m s).1 f

-- The call returns a value: it neither throws nor exits.
abbrev pub Returns : {A S : Type 0} → Outcome A × S → Type 0
Returns {A} r = (a : A) × (r.0 ≡ returned a)

pub >>=-Returns :
    {S A B : Type 0} (m : M S A) (f : A → M S B) (s : S)
    → Returns (m s)
    → ((a : A) (t : S) → Returns (f a t))
    → Returns ((m >>= f) s)
>>=-Returns m f s (a, e) k = rw e (k a (m s).1)

-- What a call that returned has gone through.
pub >>=-eq-returned :
    {S A B : Type 0} (m : M S A) (f : A → M S B) (s : S) {b : B}
    → ((m >>= f) s).0 ≡ returned b
    → (a : A) × ((m s).0 ≡ returned a) × ((f a (m s).1).0 ≡ returned b)
>>=-eq-returned {S} {A} {B} m f s {b} h = step (m s).0 (m s).1 f h
  where
    step :
        (o : Outcome A) (t : S) (f : A → M S B)
        → (continue o t f).0 ≡ returned b
        → (a : A) × (o ≡ returned a) × ((f a t).0 ≡ returned b)
    step (returned a) t f h = (a, refl, h)
    step (raised e) t f h = cc
    step (exited c) t f h = cc
    step hangs t f h = cc

pub returned-injective : {A : Type 0} {a b : A} → returned a ≡ returned b → a ≡ b
returned-injective h = cc

-- The call returns or throws: it neither ends the process nor runs on.
abbrev pub IsPlain : {A : Type 0} → Outcome A → Type 0
IsPlain {A} o = ◌⊎◌ ((a : A) × (o ≡ returned a)) ((e : Exn) × (o ≡ raised e))

pub >>=-IsPlain :
    {S A B : Type 0} (m : M S A) (f : A → M S B) (s : S)
    → IsPlain (m s).0
    → ((a : A) (t : S) → IsPlain (f a t).0)
    → IsPlain ((m >>= f) s).0
>>=-IsPlain m f s (inl (a, e)) k = rw e (k a (m s).1)
>>=-IsPlain m f s (inr (x, e)) k = inr (x, rw e refl)

-- A property of the state that each part of a chain keeps is kept by the chain.
pub >>=-keeps :
    {S A B : Type 0} (P : S → Type 0) (m : M S A) (f : A → M S B) (s : S)
    → P (m s).1
    → ((a : A) (t : S) → P t → P (f a t).1)
    → P ((m >>= f) s).1
>>=-keeps {S} {A} {B} P m f s p k = step (m s).0 (m s).1 p
  where
    step : (o : Outcome A) (t : S) → P t → P (continue o t f).1
    step (returned a) t q = k a t q
    step (raised e) t q = q
    step (exited c) t q = q
    step hangs t q = q
