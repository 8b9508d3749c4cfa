-- ===== src/Config/Load/RoundTrip.antt =====
-- Loading what `toJsonStr` has written.
use cgproxy.Base.{
  Bool, true, false, Option, none, some, List, [], ◌∷◌, Bytes, codes, bytes_eq, contains, All, ◌≡◌,
  refl, sym, ap, ◌∙◌, arith, inl, inr,
}
use cgproxy.Base.Int.{ℤ}
use cgproxy.Constants.{success}
use cgproxy.Effect.{Outcome, returned, continue}
use cgproxy.Json.{Json, fetched, field_of, found, IsLawful, Listed}
use cgproxy.System.{Os}
use cgproxy.Valid.{valid_cgroups, valid_port}
use cgproxy.Config.{Config}
use cgproxy.Config.Load.{
  cgroups, port, flag, key_of, check_cgroups, check_value, check_items, fields, validate_json_str,
  try_get, tryassign, assign_all, to_json, to_json_str, Host, finish_load, load_value,
  load_from_json_str,
}
use cgproxy.Config.Load.Validity.{IsValid}

-- What the library says of the type of a value that it made, and that the items of an object are among
-- what was assigned.
pub record IsTyped (json : Json) : Type 0 where
  pub is_array-of_strings : (l : List Bytes) → json.is_array (json.of_strings l) ≡ true
  pub is_string-of_strings : (l : List Bytes) → json.is_string (json.of_strings l) ≡ false
  pub is_boolean-of_bool : (b : Bool) → json.is_boolean (json.of_bool b) ≡ true
  pub items-object :
      (fs : List (Bytes × json.Value))
      → All (λ (kv : Bytes × json.Value). Listed kv.0 kv.1 fs) (json.items (json.object fs))

-- What holds of every assignment holds of those that are listed.
Listed-All :
    {V : Type 0} (P : Bytes → V → Type 0) (k : Bytes) (v : V) (fs : List (Bytes × V))
    → All (λ (kv : Bytes × V). P kv.0 kv.1) fs
    → Listed k v fs
    → P k v
Listed-All P k v [] _ never = elim never [ ]
Listed-All P k v ((j, w) ∷ fs) (p, h) (inl (key, value)) = rw (sym key, sym value) p
Listed-All P k v ((j, w) ∷ fs) (p, h) (inr later) = Listed-All P k v fs h later

All-Listed :
    {V : Type 0} (P : Bytes → V → Type 0) (fs l : List (Bytes × V))
    → All (λ (kv : Bytes × V). P kv.0 kv.1) fs
    → All (λ (kv : Bytes × V). Listed kv.0 kv.1 fs) l
    → All (λ (kv : Bytes × V). P kv.0 kv.1) l
All-Listed P fs [] h a = tt
All-Listed P fs ((k, v) ∷ l) h (a, later) = (Listed-All P k v fs h a, All-Listed P fs l h later)

-- A load of a text from which this configuration is read.
abbrev pub loaded : (os : Os) → Config → Host os.State → Outcome ℤ × Host os.State
loaded os c h =
    let out = finish_load os c h.sys in
    continue out.0 (record h { sys = out.1 }) (λ d t. (returned success, record t { config = d }))

module _ (json : Json) (law : IsLawful json) (typed : IsTyped json) where
  abbrev Passes : Bytes → json.Value → Type 0
  Passes k v = check_value json (key_of k) v ≡ returned true

  check_items-All :
      (l : List (Bytes × json.Value))
      → All (λ (kv : Bytes × json.Value). Passes kv.0 kv.1) l
      → check_items json l ≡ returned true
  unfolding check_items
  check_items-All [] h = refl
  check_items-All ((k, v) ∷ l) (p, h) = rw p (check_items-All l h)

  cgroups-pass :
      (k : Bytes) (l : List Bytes)
      → key_of k ≡ cgroups
      → valid_cgroups l ≡ true
      → Passes k (json.of_strings l)
  unfolding check_value check_cgroups
  cgroups-pass k l e h =
      rw
        (
          e,
          typed.is_array-of_strings l,
          typed.is_string-of_strings l,
          law.get_strings-of_strings l,
          h,
        )
        refl

  port-pass : (n : ℤ) → valid_port n ≡ true → check_value json port (json.of_int n) ≡ returned true
  unfolding check_value
  port-pass n h = rw (law.get_int-of_int n, h) refl

  flag-pass : (b : Bool) → check_value json flag (json.of_bool b) ≡ returned true
  unfolding check_value
  flag-pass b = rw (typed.is_boolean-of_bool b) refl

  fields-pass :
      (c : Config) → IsValid c → All (λ (kv : Bytes × json.Value). Passes kv.0 kv.1) (fields json c)
  unfolding fields key_of bytes_eq check_value contains
  fields-pass c valid = (
    refl,
    (
      refl,
      (
        cgroups-pass (codes "cgroup_proxy") c.cgroup_proxy refl valid.proxy_valid,
        (
          cgroups-pass (codes "cgroup_noproxy") c.cgroup_noproxy refl valid.noproxy_valid,
          (
            flag-pass c.enable_gateway,
            (
              port-pass c.port valid.port_valid,
              (
                flag-pass c.enable_dns,
                (
                  flag-pass c.enable_tcp,
                  (
                    flag-pass c.enable_udp,
                    (
                      flag-pass c.enable_ipv4,
                      (flag-pass c.enable_ipv6, (refl, (refl, (refl, tt)))),
                    ),
                  ),
                ),
              ),
            ),
          ),
        ),
      ),
    ),
  )

  validate-to_json :
      (c : Config) → IsValid c → check_items json (json.items (to_json json c)) ≡ returned true
  unfolding to_json
  validate-to_json c valid = check_items-All _ (
      All-Listed Passes (fields json c) (json.items (json.object (fields json c)))
        (fields-pass c valid) (typed.items-object (fields json c)))

  try_get-found :
      {A : Type 0} (get : json.Value → Option A) (o : Outcome json.Value) (w : json.Value)
      (a old : A)
      → o ≡ returned w
      → get w ≡ some a
      → try_get json get o old ≡ a
  try_get-found get o w a old e g = rw (e, try_get, g) refl

  module _ (c : Config) where
    found_at : (k : Bytes) → json.at (to_json json c) k ≡ found (field_of k (fields json c))
    unfolding to_json fields
    found_at k = law.at-object k _ _ _

    strings_back :
        (k : Bytes) (l old : List Bytes)
        → field_of k (fields json c) ≡ some (json.of_strings l)
        → tryassign json json.get_strings (to_json json c) k old ≡ l
    strings_back k l old e =
        try_get-found json.get_strings _ _ l old (found_at k ∙ ap found e)
          (law.get_strings-of_strings l)

    bool_back :
        (k : Bytes) (b old : Bool)
        → field_of k (fields json c) ≡ some (json.of_bool b)
        → tryassign json json.get_bool (to_json json c) k old ≡ b
    bool_back k b old e =
        try_get-found json.get_bool _ _ b old (found_at k ∙ ap found e) (law.get_bool-of_bool b)

    int_back :
        (k : Bytes) (n old : ℤ)
        → field_of k (fields json c) ≡ some (json.of_int n)
        → tryassign json json.get_int (to_json json c) k old ≡ n
    int_back k n old e =
        try_get-found json.get_int _ _ n old (found_at k ∙ ap found e) (law.get_int-of_int n)

    -- Each setting is read back.
    assign_all-to_json : (old : Config) → assign_all json (to_json json c) old ≡ c
    unfolding assign_all fields bytes_eq
    assign_all-to_json old i = record {
      program_proxy = strings_back (codes "program_proxy") c.program_proxy old.program_proxy refl i;
      program_noproxy =
          strings_back (codes "program_noproxy") c.program_noproxy old.program_noproxy refl i;
      cgroup_proxy = strings_back (codes "cgroup_proxy") c.cgroup_proxy old.cgroup_proxy refl i;
      cgroup_noproxy =
          strings_back (codes "cgroup_noproxy") c.cgroup_noproxy old.cgroup_noproxy refl i;
      enable_gateway =
          bool_back (codes "enable_gateway") c.enable_gateway old.enable_gateway refl i;
      port = int_back (codes "port") c.port old.port refl i;
      enable_dns = bool_back (codes "enable_dns") c.enable_dns old.enable_dns refl i;
      enable_tcp = bool_back (codes "enable_tcp") c.enable_tcp old.enable_tcp refl i;
      enable_udp = bool_back (codes "enable_udp") c.enable_udp old.enable_udp refl i;
      enable_ipv4 = bool_back (codes "enable_ipv4") c.enable_ipv4 old.enable_ipv4 refl i;
      enable_ipv6 = bool_back (codes "enable_ipv6") c.enable_ipv6 old.enable_ipv6 refl i;
      table = int_back (codes "table") c.table old.table refl i;
      fwmark = int_back (codes "fwmark") c.fwmark old.fwmark refl i;
      mark_newin = int_back (codes "mark_newin") c.mark_newin old.mark_newin refl i;
    }

  fetched-returned : {A : Type 0} (o : Option A) (a : A) → fetched o ≡ returned a → o ≡ some a
  fetched-returned none a h = cc
  fetched-returned (some b) a h = cc

  load_from_json_str-valid :
      (os : Os) (js : Bytes) (h : Host os.State) (j : json.Value)
      → json.parse js ≡ some j
      → check_items json (json.items j) ≡ returned true
      → load_from_json_str os json js h ≡ loaded os (assign_all json j h.config) h
  unfolding load_from_json_str load_value validate_json_str
  load_from_json_str-valid os js h j e ok = ground arith

  -- Loading the text that toJsonStr has written for a valid configuration is validated and gives
  -- that configuration, with its programs resolved and the reserved cgroups merged, whatever
  -- configuration was there, on a JSON library that reads back what it wrote and lists what was
  -- assigned.
  pub load_from_json_str-to_json_str :
      (os : Os) (c : Config) (js : Bytes) (h : Host os.State)
      → IsValid c
      → to_json_str json c ≡ returned js
      → load_from_json_str os json js h ≡ loaded os c h
  unfolding to_json_str
  load_from_json_str-to_json_str os c js h valid saved =
      load_from_json_str-valid os js h (to_json json c)
        (law.parse-dump (to_json json c) js (fetched-returned _ js saved))
        (validate-to_json c valid)
      ∙ ap (λ d. loaded os d h) (assign_all-to_json c h.config)
