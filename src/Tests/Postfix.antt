-- ===== src/Tests/Postfix.antt =====
-- A JSON library that writes every value: a text of marks and shifted bytes, read with a stack. Spaces
-- and newlines are skipped.
use mathlib.Core.List.{append_assoc, append-nil}
use cgproxy.Base.{
  ℕ, ◌+◌, ◌-◌, ◌==◌, true, false, ◌||◌, Option, none, some, List, [], ◌∷◌, ◌++◌, Bytes,
  if◌then◌else◌, length, replicate, zero, suc, All, ◌≡◌, refl, sym, ap, ◌∙◌, arith, inl, inr,
}
use cgproxy.Base.Int.{pos, negsuc}
use cgproxy.Json.{Json, IsLawful, KeepsTexts, TextIsOneItem, Listed}
use cgproxy.Config.Save.{setw_4}
use cgproxy.Config.Save.Laws.{SkipsSpace}
use cgproxy.Config.Load.RoundTrip.{IsTyped}
use cgproxy.Tests.Codec.{
  Value, text, texts, flag, number, end, field, codec, codec-IsLawful, items-build,
}

-- The bytes of the text that is being read, the texts of the list, and the values that are finished.
record Reader : Type 0 where
  acc : Bytes
  list : List Bytes
  stack : List Value

abbrev stacked : Value → Reader → Reader
stacked v r = record { acc = []; list = []; stack = v ∷ r.stack }

-- The mark 8 makes a field of the two last values.
abbrev join_field : Bytes → List Value → List Value
join_field k (rest ∷ v ∷ vs) = field k v rest ∷ vs
join_field k vs = vs

abbrev head_of : Bytes → ℕ
head_of [] = 0
head_of (c ∷ _) = c

abbrev step : ℕ → Reader → Reader
step c r =
    if c == b' ' || c == b'\n'
    then r
    else if c == 9
    then stacked (text r.acc) r
    else if c == 1
    then record r { acc = []; list = r.list ++ r.acc ∷ [] }
    else if c == 2
    then stacked (texts r.list) r
    else if c == 3
    then stacked (flag false) r
    else if c == 4
    then stacked (flag true) r
    else if c == 5
    then stacked (number (pos (head_of r.acc))) r
    else if c == 6
    then stacked (number (negsuc (head_of r.acc))) r
    else if c == 7
    then stacked end r
    else if c == 8
    then record { acc = []; list = []; stack = join_field r.acc r.stack }
    else record r { acc = r.acc ++ (c - 40) ∷ [] }

abbrev run : Bytes → Reader → Reader
run [] r = r
run (c ∷ cs) r = run cs (step c r)

abbrev shifted : Bytes → Bytes
shifted [] = []
shifted (c ∷ cs) = (c + 40) ∷ shifted cs

abbrev write_texts : List Bytes → Bytes
write_texts [] = []
write_texts (t ∷ ts) = shifted t ++ 1 ∷ write_texts ts

abbrev pub write : Value → Bytes
write (text t) = shifted t ++ 9 ∷ []
write (texts l) = write_texts l ++ 2 ∷ []
write (flag false) = 3 ∷ []
write (flag true) = 4 ∷ []
write (number (pos n)) = (n + 40) ∷ 5 ∷ []
write (number (negsuc n)) = (n + 40) ∷ 6 ∷ []
write end = 7 ∷ []
write (field k v rest) = write v ++ (write rest ++ (shifted k ++ 8 ∷ []))

abbrev top : List Value → Option Value
top [] = none
top (v ∷ _) = some v

abbrev start : Reader
start = record { acc = []; list = []; stack = [] }

abbrev pub postfix : Json
postfix = record codec { parse = λ t. top (run t start).stack; dump = λ v. some (write v) }

step-shifted : (c : ℕ) (r : Reader) → step (c + 40) r ≡ record r { acc = r.acc ++ c ∷ [] }
step-shifted c r = ground arith

run-shifted :
    (t rest : Bytes) (r : Reader)
    → run (shifted t ++ rest) r ≡ run rest (record r { acc = r.acc ++ t })
run-shifted [] rest r = rw append-nil refl
run-shifted (c ∷ t) rest r =
    ap (run (shifted t ++ rest)) (step-shifted c r)
    ∙ run-shifted t rest (record r { acc = r.acc ++ c ∷ [] })
    ∙ ap (λ a. run rest (record r { acc = a })) (append_assoc r.acc (c ∷ []) t)

run-write_texts :
    (l : List Bytes) (rest : Bytes) (done : List Bytes) (stack : List Value)
    → run (write_texts l ++ rest) (record { acc = []; list = done; stack = stack })
      ≡ run rest (record { acc = []; list = done ++ l; stack = stack })
run-write_texts [] rest done stack = rw append-nil refl
run-write_texts (t ∷ l) rest done stack =
    ap (λ u. run u (record { acc = []; list = done; stack = stack }))
      (append_assoc (shifted t) (1 ∷ write_texts l) rest)
    ∙ run-shifted t (1 ∷ (write_texts l ++ rest)) (record { acc = []; list = done; stack = stack })
    ∙ run-write_texts l rest (done ++ t ∷ []) stack
    ∙ ap (λ d. run rest (record { acc = []; list = d; stack = stack }))
        (append_assoc done (t ∷ []) l)

-- A value that was written is on the stack when it was read.
run-write :
    (v : Value) (rest : Bytes) (stack : List Value)
    → run (write v ++ rest) (record { acc = []; list = []; stack = stack })
      ≡ run rest (record { acc = []; list = []; stack = v ∷ stack })
run-write (text t) rest stack =
    ap (λ u. run u (record { acc = []; list = []; stack = stack }))
      (append_assoc (shifted t) (9 ∷ []) rest)
    ∙ run-shifted t (9 ∷ rest) (record { acc = []; list = []; stack = stack })
run-write (texts l) rest stack =
    ap (λ u. run u (record { acc = []; list = []; stack = stack }))
      (append_assoc (write_texts l) (2 ∷ []) rest)
    ∙ run-write_texts l (2 ∷ rest) [] stack
run-write (flag false) rest stack = refl
run-write (flag true) rest stack = refl
run-write (number (pos n)) rest stack =
    ap (run (5 ∷ rest)) (step-shifted n (record { acc = []; list = []; stack = stack }))
run-write (number (negsuc n)) rest stack =
    ap (run (6 ∷ rest)) (step-shifted n (record { acc = []; list = []; stack = stack }))
run-write end rest stack = refl
run-write (field k v w) rest stack =
    ap (λ u. run u (record { acc = []; list = []; stack = stack }))
      (append_assoc (write v) (write w ++ (shifted k ++ 8 ∷ [])) rest
        ∙ ap (write v ++◌) (
            append_assoc (write w) (shifted k ++ 8 ∷ []) rest
            ∙ ap (write w ++◌) (append_assoc (shifted k) (8 ∷ []) rest)))
    ∙ run-write v (write w ++ (shifted k ++ 8 ∷ rest)) stack
    ∙ run-write w (shifted k ++ 8 ∷ rest) (v ∷ stack)
    ∙ run-shifted k (8 ∷ rest) (record { acc = []; list = []; stack = w ∷ v ∷ stack })

read-write : (v : Value) → run (write v) start ≡ record start { stack = v ∷ [] }
read-write v = ap (λ u. run u start) (sym (append-nil (write v))) ∙ run-write v [] []

parse-dump : (v : Value) (t : Bytes) → some (write v) ≡ some t → postfix.parse t ≡ some v
parse-dump v t e =
    let same : write v ≡ t = cc in
    ap (λ u. top (run u start).stack) (sym same) ∙ ap (λ (r : Reader). top r.stack) (read-write v)

pub postfix-IsLawful : IsLawful postfix
postfix-IsLawful = record {
  at-object = codec-IsLawful.at-object;
  get_int-of_int = λ n. refl;
  get_bool-of_bool = λ b. refl;
  get_strings-of_strings = λ l. refl;
  parse-dump = parse-dump;
}

AllListed : List (Bytes × Value) → List (Bytes × Value) → Type 0
AllListed fs l = All (λ (kv : Bytes × Value). Listed kv.0 kv.1 fs) l

AllListed-weaken :
    (x : Bytes × Value) (fs l : List (Bytes × Value)) → AllListed fs l → AllListed (x ∷ fs) l
unfolding AllListed
AllListed-weaken x fs [] h = tt
AllListed-weaken x fs (kv ∷ l) (p, h) = (inr p, AllListed-weaken x fs l h)

AllListed-self : (fs : List (Bytes × Value)) → AllListed fs fs
unfolding AllListed
AllListed-self [] = tt
AllListed-self (x ∷ fs) = (inl (refl, refl), AllListed-weaken x fs fs (AllListed-self fs))

pub postfix-IsTyped : IsTyped postfix
unfolding AllListed
postfix-IsTyped = record {
  is_array-of_strings = λ l. refl;
  is_string-of_strings = λ l. refl;
  is_boolean-of_bool = λ b. refl;
  items-object = λ fs. rw (items-build fs) (AllListed-self fs);
}

run-append : (xs ys : Bytes) (r : Reader) → run (xs ++ ys) r ≡ run ys (run xs r)
run-append [] ys r = refl
run-append (c ∷ xs) ys r = run-append xs ys (step c r)

run-spaces : (n : ℕ) (r : Reader) → run (replicate n b' ') r ≡ r
run-spaces zero r = refl
run-spaces (suc n) r = run-spaces n r

pub postfix-SkipsSpace : SkipsSpace postfix
unfolding setw_4
postfix-SkipsSpace t =
    let pad : Bytes = replicate (4 - length t) b' ' in
    ap (λ (r : Reader). top r.stack)
      (run-append (pad ++ t) (b'\n' ∷ []) start
        ∙ run-append pad t start
        ∙ ap (run t) (run-spaces (4 - length t) start))

pub postfix-KeepsTexts : KeepsTexts postfix
postfix-KeepsTexts t = refl

pub postfix-TextIsOneItem : TextIsOneItem postfix
postfix-TextIsOneItem t = refl
