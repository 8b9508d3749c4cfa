-- ===== src/Config/Load.antt =====
-- `validateJsonStr`, `loadFromJsonStr`, `loadFromFile`, `toJsonStr` and `toRealProgramPath`.
pub mod Status
pub mod Lookup
pub mod Validity
pub mod Total
pub mod RoundTrip
use cgproxy.Base.{
  ℕ, Bool, true, false, not, ◌&&◌, ◌||◌, Option, none, some, List, [], ◌∷◌, ◌++◌, Bytes, codes,
  is_empty, bytes_eq, contains, ◌==◌, if◌then◌else◌,
}
use cgproxy.Base.Int.{ℤ, pos}
use cgproxy.Constants.{success, param_error, file_error}
use cgproxy.Effect.{
  M, ◌>>=◌, ◌>>◌, ret, raise, ask, Exn, Outcome, returned, raised, exited, hangs, continue,
}
use cgproxy.Json.{Json, fetched, parsed}
use cgproxy.System.{Os}
use cgproxy.Valid.{valid_cgroup, valid_cgroups, valid_port}
use cgproxy.Proc.{get_real_exist_path}
use cgproxy.Config.{Config, merge_reserved}

-- Chains of calls that have no state.
abbrev bind : {A B : Type 0} → Outcome A → (A → Outcome B) → Outcome B
bind (returned a) f = f a
bind (raised e) f = raised e
bind (exited c) f = exited c
bind hangs f = hangs

abbrev boolset : List Bytes
boolset =
    codes "enable_gateway"
    ∷ codes "enable_dns"
    ∷ codes "enable_tcp"
    ∷ codes "enable_udp"
    ∷ codes "enable_ipv4"
    ∷ codes "enable_ipv6"
    ∷ []

abbrev allowset : List Bytes
allowset =
    codes "program_proxy"
    ∷ codes "program_noproxy"
    ∷ codes "comment"
    ∷ codes "table"
    ∷ codes "fwmark"
    ∷ codes "mark_newin"
    ∷ []

-- What a key of the configuration asks of its value.
pub data Key : Type 0 where
  cgroups port flag any unknown : Key

unfoldable pub key_of : Bytes → Key
key_of key =
    if bytes_eq key (codes "cgroup_proxy") || bytes_eq key (codes "cgroup_noproxy")
    then cgroups
    else if bytes_eq key (codes "port")
    then port
    else if contains key boolset
    then flag
    else if contains key allowset
    then any
    else unknown

module _ (json : Json) where
  open json use {Value}

  -- The three tests of a cgroup list: a text, a list of texts, and nothing else.
  check_cgroups : Value → Outcome Bool
  check_cgroups value =
      bind
        (if json.is_string value
          then bind (fetched (json.get_string value)) (λ s. returned (valid_cgroup s))
          else returned true)
        (λ ok1.
          bind
            (if json.is_array value
              then bind (fetched (json.get_strings value)) (λ l. returned (valid_cgroups l))
              else returned true)
            (λ ok2. returned (ok1 && ok2 && (json.is_string value || json.is_array value))))

  -- One round of the loop; `false` ends it.
  check_value : Key → Value → Outcome Bool
  unfolding check_cgroups
  check_value cgroups value = check_cgroups value
  check_value port value = bind (fetched (json.get_int value)) (λ n. returned (valid_port n))
  check_value flag value = returned (json.is_boolean value)
  check_value any value = returned true
  check_value unknown value = returned false

  check_items : List (Bytes × Value) → Outcome Bool
  unfolding check_value
  check_items [] = returned true
  check_items ((key, value) ∷ rest) =
      let more = check_items rest in
      bind (check_value (key_of key) value) (λ status. if status then more else returned false)

  unfoldable pub validate_json_str : Bytes → Outcome Bool
  unfolding check_items
  validate_json_str js = bind (parsed (json.parse js)) (λ j. check_items (json.items j))

  -- The macro `tryassign`: any exception keeps the old value.
  abbrev pub try_get : {A : Type 0} → (Value → Option A) → Outcome Value → A → A
  try_get get (returned v) old = elim (get v) [ some a ↦ a | none ↦ old ]
  try_get get _ old = old

  abbrev pub tryassign : {A : Type 0} → (Value → Option A) → Value → Bytes → A → A
  tryassign get j key old = try_get get (json.at j key) old

  unfoldable pub assign_all : Value → Config → Config
  assign_all j c = record {
    program_proxy = tryassign json.get_strings j (codes "program_proxy") c.program_proxy;
    program_noproxy = tryassign json.get_strings j (codes "program_noproxy") c.program_noproxy;
    cgroup_proxy = tryassign json.get_strings j (codes "cgroup_proxy") c.cgroup_proxy;
    cgroup_noproxy = tryassign json.get_strings j (codes "cgroup_noproxy") c.cgroup_noproxy;
    enable_gateway = tryassign json.get_bool j (codes "enable_gateway") c.enable_gateway;
    port = tryassign json.get_int j (codes "port") c.port;
    enable_dns = tryassign json.get_bool j (codes "enable_dns") c.enable_dns;
    enable_tcp = tryassign json.get_bool j (codes "enable_tcp") c.enable_tcp;
    enable_udp = tryassign json.get_bool j (codes "enable_udp") c.enable_udp;
    enable_ipv4 = tryassign json.get_bool j (codes "enable_ipv4") c.enable_ipv4;
    enable_ipv6 = tryassign json.get_bool j (codes "enable_ipv6") c.enable_ipv6;
    table = tryassign json.get_int j (codes "table") c.table;
    fwmark = tryassign json.get_int j (codes "fwmark") c.fwmark;
    mark_newin = tryassign json.get_int j (codes "mark_newin") c.mark_newin;
  }

  -- The assignments of `toJsonStr`.
  unfoldable pub fields : Config → List (Bytes × Value)
  fields c =
      (codes "program_proxy", json.of_strings c.program_proxy)
      ∷ (codes "program_noproxy", json.of_strings c.program_noproxy)
      ∷ (codes "cgroup_proxy", json.of_strings c.cgroup_proxy)
      ∷ (codes "cgroup_noproxy", json.of_strings c.cgroup_noproxy)
      ∷ (codes "enable_gateway", json.of_bool c.enable_gateway)
      ∷ (codes "port", json.of_int c.port)
      ∷ (codes "enable_dns", json.of_bool c.enable_dns)
      ∷ (codes "enable_tcp", json.of_bool c.enable_tcp)
      ∷ (codes "enable_udp", json.of_bool c.enable_udp)
      ∷ (codes "enable_ipv4", json.of_bool c.enable_ipv4)
      ∷ (codes "enable_ipv6", json.of_bool c.enable_ipv6)
      ∷ (codes "table", json.of_int c.table)
      ∷ (codes "fwmark", json.of_int c.fwmark)
      ∷ (codes "mark_newin", json.of_int c.mark_newin)
      ∷ []

  -- `toJsonStr` up to `dump`.
  unfoldable pub to_json : Config → Value
  unfolding fields
  to_json c = json.object (fields c)

  unfoldable pub to_json_str : Config → Outcome Bytes
  to_json_str c = fetched (json.dump (to_json c))

-- The configuration object, and the system around it.
pub record Host (S : Type 0) : Type 0 where
  pub config : Config
  pub sys : S

module _ (os : Os) where
  open os use {State}

  -- `tmp` and the loop over the list.
  pub to_real_program_path : List Bytes → M State (List Bytes)
  to_real_program_path [] = ret []
  to_real_program_path (p ∷ v) = do
    rpath ← get_real_exist_path os p
    tmp ← to_real_program_path v
    ret (if is_empty rpath then tmp else rpath ∷ tmp)

  -- From the first `toRealProgramPath` on.
  unfoldable pub finish_load : Config → M State Config
  finish_load c = do
    noproxy ← to_real_program_path c.program_noproxy
    proxy ← to_real_program_path c.program_proxy
    ret (merge_reserved (record c { program_noproxy = noproxy; program_proxy = proxy }))

  module _ (json : Json) where
    -- The assignments after the text is validated.
    load_value : json.Value → Host State → Outcome ℤ × Host State
    unfolding finish_load
    load_value j h =
        let out = finish_load (assign_all json j h.config) h.sys in
        continue out.0 (record h { sys = out.1 })
          (λ c t. (returned success, record t { config = c }))

    unfoldable pub load_from_json_str : Bytes → M (Host State) ℤ
    unfolding load_value
    load_from_json_str js = do
      valid ← ask (λ _. validate_json_str json js)
      elim valid [
        | returned true ↦ (λ h. elim (parsed (json.parse js)) [
          | returned j ↦ load_value j h
          | raised e ↦ (raised e, h)
          | exited c ↦ (exited c, h)
          | hangs ↦ (hangs, h)
        ])
        | returned false ↦ ret param_error
        | raised e ↦ raise e
        | exited c ↦ (λ h. (exited c, h))
        | hangs ↦ (λ h. (hangs, h))
      ]

    unfoldable pub load_from_file : Bytes → M (Host State) ℤ
    load_from_file f h = elim (os.read_file f h.sys) [
      | some js ↦ load_from_json_str js h
      | none ↦ (returned file_error, h)
    ]
