-- ===== src/Tests/Codec.antt =====
-- A small JSON library: values, and texts for the messages of the client and for a few values.
use cgproxy.Base.{
  ℕ, ◌==◌, Bool, true, false, ◌&&◌, Option, none, some, List, [], ◌∷◌, Bytes, codes, bytes_eq,
  bytes_eq_iff, if◌then◌else◌, ◌≡◌, refl, ap, arith, Option-cases, inl, inr,
}
use cgproxy.Base.Int.{ℤ, pos, negsuc}
use cgproxy.Effect.{Outcome, returned, raised, json_type_error, json_out_of_range}
use cgproxy.Json.{Json, field_of, found, IsLawful, Listed, ListsItems, AtIsPlain}
use cgproxy.Config.Load.Validity.{StringsAreArrays}

-- `end` is the object with no field.
pub data Value : Type 0 where
  text : Bytes → Value
  texts : List Bytes → Value
  flag : Bool → Value
  number : ℤ → Value
  end : Value
  field : Bytes → Value → Value → Value

abbrev pub build : List (Bytes × Value) → Value
build [] = end
build ((k, v) ∷ fs) = field k v (build fs)

abbrev pub items : Value → List (Bytes × Value)
items (field k v rest) = (k, v) ∷ items rest
items (text t) = ([], text t) ∷ []
items _ = []

abbrev at : Value → Bytes → Outcome Value
at (field j v rest) k = found (field_of k (items (field j v rest)))
at end k = raised json_out_of_range
at _ k = raised json_type_error

-- The numbers of a message for a pid.
abbrev natural : Value → Option ℕ
natural (number (pos n)) = some n
natural _ = none

abbrev is_end : Value → Bool
is_end end = true
is_end _ = false

abbrev message : ℕ → ℕ → Value
message type payload =
    field (codes "type") (number (pos type)) (field (codes "data") (number (pos payload)) end)

-- A configuration that is valid, and one that is not.
abbrev good_config : Value
good_config =
    field (codes "cgroup_proxy") (texts (codes "/user.slice" ∷ []))
      (field (codes "port") (number (pos 8080)) end)

abbrev bad_config : Value
bad_config = field (codes "port") (number (pos 0)) end

abbrev parse : Bytes → Option Value
parse [] = none
parse (c ∷ []) =
    if bytes_eq (c ∷ []) (codes "c")
    then some good_config
    else if bytes_eq (c ∷ []) (codes "b")
    then some bad_config
    else some end
parse (type ∷ payload ∷ []) = some (message type payload)
parse (type ∷ _ ∷ _ ∷ path) =
    if type == 0
    then some (text path)
    else some (field (codes "type") (number (pos type)) (field (codes "data") (text path) end))

abbrev encode : Option ℕ → Option ℕ → Bool → Option Bytes
encode (some type) (some payload) true = some (type ∷ payload ∷ [])
encode _ _ _ = none

abbrev dump : Value → Option Bytes
dump (field j v (field k w rest)) =
    encode (natural v) (natural w)
      (bytes_eq j (codes "type") && bytes_eq k (codes "data") && is_end rest)
dump (text t) = some (0 ∷ 0 ∷ 0 ∷ t)
dump _ = none

abbrev pub codec : Json
codec = record {
  Value = Value;
  parse = parse;
  dump = dump;
  at = at;
  items = items;
  is_string = λ v. elim v [ text _ ↦ true | _ ↦ false ];
  is_array = λ v. elim v [ texts _ ↦ true | _ ↦ false ];
  is_boolean = λ v. elim v [ flag _ ↦ true | _ ↦ false ];
  get_string = λ v. elim v [ text t ↦ some t | _ ↦ none ];
  get_strings = λ v. elim v [ texts l ↦ some l | _ ↦ none ];
  get_bool = λ v. elim v [ flag b ↦ some b | _ ↦ none ];
  get_int = λ v. elim v [ number n ↦ some n | _ ↦ none ];
  of_string = text;
  of_strings = texts;
  of_bool = flag;
  of_int = number;
  object = build;
}

field_of-Listed :
    (k : Bytes) (fs : List (Bytes × Value)) (w : Value) → field_of k fs ≡ some w → Listed k w fs
field_of-Listed k [] w h = cc
field_of-Listed k ((j, v) ∷ fs) w h = elim (Option-cases (field_of k fs)) [
  | inl absent ↦ inl (ground (arith, bytes_eq_iff k j))
  | inr (u, there) ↦ inr (field_of-Listed k fs w (ground arith))
]

found-returned : {A : Type 0} (o : Option A) (a : A) → found o ≡ returned a → o ≡ some a
found-returned none a h = cc
found-returned (some b) a h = cc

pub codec-ListsItems : ListsItems codec
codec-ListsItems (field j v rest) w k h =
    field_of-Listed k (items (field j v rest)) w (found-returned _ w h)
codec-ListsItems end w k h = cc
codec-ListsItems (text _) w k h = cc
codec-ListsItems (texts _) w k h = cc
codec-ListsItems (flag _) w k h = cc
codec-ListsItems (number _) w k h = cc

pub codec-AtIsPlain : AtIsPlain codec
codec-AtIsPlain (field j v rest) k = elim (Option-cases (field_of k (items (field j v rest)))) [
  | inl absent ↦ inr (json_out_of_range, ap found absent)
  | inr (w, there) ↦ inl (w, ap found there)
]
codec-AtIsPlain end k = inr (_, refl)
codec-AtIsPlain (text _) k = inr (_, refl)
codec-AtIsPlain (texts _) k = inr (_, refl)
codec-AtIsPlain (flag _) k = inr (_, refl)
codec-AtIsPlain (number _) k = inr (_, refl)

pub codec-StringsAreArrays : StringsAreArrays codec
codec-StringsAreArrays (texts _) l h = refl
codec-StringsAreArrays (field _ _ _) l h = cc
codec-StringsAreArrays end l h = cc
codec-StringsAreArrays (text _) l h = cc
codec-StringsAreArrays (flag _) l h = cc
codec-StringsAreArrays (number _) l h = cc

pub items-build : (fs : List (Bytes × Value)) → items (build fs) ≡ fs
items-build [] = refl
items-build ((k, v) ∷ fs) = ap (◌∷◌ (k, v)) (items-build fs)

natural-number : (v : Value) (n : ℕ) → natural v ≡ some n → v ≡ number (pos n)
natural-number (number (pos m)) n h = cc
natural-number (number (negsuc m)) n h = cc
natural-number (field _ _ _) n h = cc
natural-number end n h = cc
natural-number (text _) n h = cc
natural-number (texts _) n h = cc
natural-number (flag _) n h = cc

is_end-end : (v : Value) → is_end v ≡ true → v ≡ end
is_end-end end h = refl
is_end-end (field _ _ _) h = cc
is_end-end (text _) h = cc
is_end-end (texts _) h = cc
is_end-end (flag _) h = cc
is_end-end (number _) h = cc

-- What was encoded is a message.
encode_lem :
    (a b : Option ℕ) (c : Bool) (t : Bytes)
    → encode a b c ≡ some t
    → (type : ℕ) × (payload : ℕ) × (a ≡ some type)
      × (b ≡ some payload)
      × (c ≡ true)
      × (t ≡ type ∷ payload ∷ [])
encode_lem (some type) (some payload) true t h = (type, payload, refl, refl, refl, cc)
encode_lem (some _) (some _) false t h = cc
encode_lem (some _) none c t h = cc
encode_lem none b c t h = cc

parse-dump : (v : Value) (t : Bytes) → dump v ≡ some t → parse t ≡ some v
parse-dump (field j v (field k w rest)) t h =
    let (type, payload, a, b, c, e) = encode_lem (natural v) (natural w) _ t h in
    let first = natural-number v type a in
    let second = natural-number w payload b in
    let last : rest ≡ end = is_end-end rest (ground arith) in
    let key : j ≡ codes "type" = (bytes_eq_iff j (codes "type")).0 (ground arith) in
    let other : k ≡ codes "data" = (bytes_eq_iff k (codes "data")).0 (ground arith) in cc
parse-dump (field _ _ end) t h = cc
parse-dump (field _ _ (text _)) t h = cc
parse-dump (field _ _ (texts _)) t h = cc
parse-dump (field _ _ (flag _)) t h = cc
parse-dump (field _ _ (number _)) t h = cc
parse-dump end t h = cc
parse-dump (text u) t h = cc
parse-dump (texts _) t h = cc
parse-dump (flag _) t h = cc
parse-dump (number _) t h = cc

pub codec-IsLawful : IsLawful codec
codec-IsLawful = record {
  at-object = λ k j v fs. ap (λ l. found (field_of k ((j, v) ∷ l))) (items-build fs);
  get_int-of_int = λ n. refl;
  get_bool-of_bool = λ b. refl;
  get_strings-of_strings = λ l. refl;
  parse-dump = parse-dump;
}
