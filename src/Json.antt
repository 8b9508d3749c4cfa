-- ===== src/Json.antt =====
-- The JSON library (nlohmann/json), which is not part of the program: what the code calls of it, and
-- the documented behaviour that theorems rely on.
use cgproxy.Base.{
  Bool, Option, none, some, List, [], ◌∷◌, Bytes, bytes_eq, ◌≡◌, refl, inl, inr, ◌⊎◌, if◌then◌else◌,
}
use cgproxy.Base.Int.{ℤ}
use cgproxy.Effect.{
  IsPlain, json_parse_error, json_type_error, json_out_of_range, Outcome, returned, raised,
}

pub record Json : Type 1 where
  pub Value : Type 0
  -- `json::parse`; `none` is a parse_error.
  pub parse : Bytes → Option Value
  -- `dump`; `none` is the type_error of a text that is no UTF-8.
  pub dump : Value → Option Bytes
  -- `at(key)`: an out_of_range without the key, a type_error on what is no object.
  pub at : Value → Bytes → Outcome Value
  -- `items()`
  pub items : Value → List (Bytes × Value)
  pub is_string : Value → Bool
  pub is_array : Value → Bool
  pub is_boolean : Value → Bool
  -- `get<T>` and the conversions; `none` is a type_error.
  pub get_string : Value → Option Bytes
  pub get_strings : Value → Option (List Bytes)
  pub get_bool : Value → Option Bool
  pub get_int : Value → Option ℤ
  -- The conversions to JSON, and an object by assignments to its keys in this order.
  pub of_string : Bytes → Value
  pub of_strings : List Bytes → Value
  pub of_bool : Bool → Value
  pub of_int : ℤ → Value
  pub object : List (Bytes × Value) → Value

-- What a `get` raises.
abbrev pub fetched : {A : Type 0} → Option A → Outcome A
fetched none = raised json_type_error
fetched (some a) = returned a

abbrev pub parsed : {A : Type 0} → Option A → Outcome A
parsed none = raised json_parse_error
parsed (some a) = returned a

-- The last assignment to a key.
abbrev pub field_of : {V : Type 0} → Bytes → List (Bytes × V) → Option V
field_of k [] = none
field_of k ((j, v) ∷ fs) = elim (field_of k fs) [
  | some w ↦ some w
  | none ↦ if bytes_eq k j then some v else none
]

abbrev pub found : {A : Type 0} → Option A → Outcome A
found none = raised json_out_of_range
found (some a) = returned a

-- Reading back what was built.
pub record IsLawful (json : Json) : Type 0 where
  pub at-object :
      (k j : Bytes) (v : json.Value) (fs : List (Bytes × json.Value))
      → json.at (json.object ((j, v) ∷ fs)) k ≡ found (field_of k ((j, v) ∷ fs))
  pub get_int-of_int : (n : ℤ) → json.get_int (json.of_int n) ≡ some n
  pub get_bool-of_bool : (b : Bool) → json.get_bool (json.of_bool b) ≡ some b
  pub get_strings-of_strings : (l : List Bytes) → json.get_strings (json.of_strings l) ≡ some l
  pub parse-dump : (v : json.Value) (t : Bytes) → json.dump v ≡ some t → json.parse t ≡ some v

-- A text that was made is read back.
abbrev pub KeepsTexts : Json → Type 0
KeepsTexts json = (t : Bytes) → json.get_string (json.of_string t) ≡ some t

-- `items()` of a text runs once, over the text under the empty key.
abbrev pub TextIsOneItem : Json → Type 0
TextIsOneItem json = (t : Bytes) → json.items (json.of_string t) ≡ ([], json.of_string t) ∷ []

-- What `at` finds is among the items, under its key.
abbrev pub Listed : {V : Type 0} → Bytes → V → List (Bytes × V) → Type 0
Listed k v [] = ⊥
Listed k v ((j, w) ∷ fs) = ◌⊎◌ ((j ≡ k) × (w ≡ v)) (Listed k v fs)

abbrev pub ListsItems : Json → Type 0
ListsItems json =
    (v w : json.Value) (k : Bytes) → json.at v k ≡ returned w → Listed k w (json.items v)

pub fetched-IsPlain : {A : Type 0} (o : Option A) → IsPlain (fetched o)
fetched-IsPlain none = inr (json_type_error, refl)
fetched-IsPlain (some a) = inl (a, refl)

-- `at` returns or throws.
abbrev pub AtIsPlain : Json → Type 0
AtIsPlain json = (v : json.Value) (k : Bytes) → IsPlain (json.at v k)
