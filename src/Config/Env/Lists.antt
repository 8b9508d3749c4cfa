-- ===== src/Config/Env/Lists.antt =====
-- The lists of cgroups on their way through the environment: src/cgroup-tproxy.sh reads them back with
-- `IFS=':' read -r -a`.
use cgproxy.Base.{
  ℕ, true, false, List, [], ◌∷◌, ◌++◌, Bytes, contains, is_empty, All, ◌==◌, if◌then◌else◌, ◌≡◌,
  ◌≢◌, refl, ap, ◌∙◌, arith,
}
use cgproxy.Text.{join2str}
use cgproxy.Text.Join.{intercalate, join2str_iff}
use cgproxy.Valid.{valid_cgroup, valid_cgroups}
use cgproxy.Valid.Laws.{valid_cgroup-no_colon}

-- A byte in front of the first field.
abbrev push : ℕ → List Bytes → List Bytes
push c [] = (c ∷ []) ∷ []
push c (w ∷ ws) = (c ∷ w) ∷ ws

-- The fields between the delimiters.
split : ℕ → Bytes → List Bytes
split delm [] = [] ∷ []
split delm (c ∷ cs) = let rest = split delm cs in if c == delm then [] ∷ rest else push c rest

-- An empty field at the end is dropped.
trim : List Bytes → List Bytes
trim [] = []
trim ([] ∷ []) = []
trim (w ∷ ws) = w ∷ trim ws

-- `IFS=':' read -r -a` on a line.
unfoldable pub read_array : Bytes → List Bytes
unfolding split trim
read_array line = trim (split b':' line)

-- A field: not empty, and with no delimiter.
abbrev IsField : ℕ → Bytes → Type 0
IsField delm w = (is_empty w ≡ false) × All (λ c. c ≢ delm) w

split-word : (delm : ℕ) (w : Bytes) → All (λ c. c ≢ delm) w → split delm w ≡ w ∷ []
unfolding split
split-word delm [] h = refl
split-word delm (c ∷ cs) (ne, h) =
    let differ : (c == delm) ≡ false = ground arith in rw (differ, split-word delm cs h) refl

split-append :
    (delm : ℕ) (w rest : Bytes)
    → All (λ c. c ≢ delm) w
    → split delm (w ++ delm ∷ rest) ≡ w ∷ split delm rest
unfolding split
split-append delm [] rest h = let same : (delm == delm) ≡ true = ground arith in rw same refl
split-append delm (c ∷ cs) rest (ne, h) =
    let differ : (c == delm) ≡ false = ground arith in rw (differ, split-append delm cs rest h) refl

split-intercalate :
    (delm : ℕ) (w : Bytes) (ws : List Bytes)
    → All (IsField delm) (w ∷ ws)
    → split delm (intercalate delm (w ∷ ws)) ≡ w ∷ ws
split-intercalate delm w [] ((_, h), _) = split-word delm w h
split-intercalate delm w (v ∷ ws) ((_, h), hs) =
    split-append delm w (intercalate delm (v ∷ ws)) h ∙ ap (◌∷◌ w) (split-intercalate delm v ws hs)

trim-fields : (delm : ℕ) (ws : List Bytes) → All (IsField delm) ws → trim ws ≡ ws
unfolding trim
trim-fields delm [] h = refl
trim-fields delm ([] ∷ ws) ((ne, _), hs) = cc
trim-fields delm ((c ∷ cs) ∷ ws) (_, hs) = ap (◌∷◌ (c ∷ cs)) (trim-fields delm ws hs)

valid_cgroups-fields : (ws : List Bytes) → valid_cgroups ws ≡ true → All (IsField b':') ws
unfolding valid_cgroups valid_cgroup
valid_cgroups-fields [] h = tt
valid_cgroups-fields ([] ∷ ws) h = cc
valid_cgroups-fields ((c ∷ cs) ∷ ws) h =
    ((refl, valid_cgroup-no_colon (c ∷ cs) (ground arith)), valid_cgroups-fields ws (ground arith))

read_array-fields :
    (ws : List Bytes) (l : Bytes)
    → All (IsField b':') (ws ++ l ∷ [])
    → read_array (intercalate b':' (ws ++ l ∷ [])) ≡ ws ++ l ∷ []
unfolding read_array
read_array-fields [] l h = ap trim (split-intercalate b':' l [] h) ∙ trim-fields b':' (l ∷ []) h
read_array-fields (w ∷ ws) l h =
    ap trim (split-intercalate b':' w (ws ++ l ∷ []) h) ∙ trim-fields b':' (w ∷ (ws ++ l ∷ [])) h

-- The script reads a list of valid cgroups back from its environment variable as it is, if the last
-- cgroup of the list occurs nowhere before.
pub read_array-join2str :
    (ws : List Bytes) (l : Bytes)
    → valid_cgroups (ws ++ l ∷ []) ≡ true
    → contains l ws ≡ false
    → read_array (join2str (ws ++ l ∷ []) b':') ≡ ws ++ l ∷ []
read_array-join2str ws l valid once =
    ap read_array ((join2str_iff ws l b':').1 once)
    ∙ read_array-fields ws l (valid_cgroups-fields (ws ++ l ∷ []) valid)
