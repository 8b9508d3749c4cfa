-- ===== src/Config/Load/Validity.antt =====
-- The configuration stays valid under every load, and one that was saved is loaded back.
use mathlib.Core.Path.{subst}
use cgproxy.Base.{
  Bool, true, false, some, List, [], ◌∷◌, Bytes, codes, bytes_eq, ◌≡◌, refl, inl, inr,
  if◌then◌else◌, arith, Option-cases,
}
use cgproxy.Base.Int.{ℤ}
use cgproxy.Constants.{cgroup_proxy_preserved, cgroup_noproxy_preserved}
use cgproxy.Effect.{>>=-eq-returned, returned-injective, Outcome, returned, raised, exited, hangs}
use cgproxy.Json.{Json, Listed, ListsItems}
use cgproxy.System.{Os}
use cgproxy.Valid.{valid_cgroup, valid_cgroups, valid_port}
use cgproxy.Config.{Config, merge_reserved}
use cgproxy.Config.Merge.{merge-valid_cgroups}
use cgproxy.Config.Load.{
  bind, key_of, cgroups, port, check_value, check_items, validate_json_str, Host, assign_all,
  try_get, to_real_program_path, finish_load, load_value, load_from_json_str, load_from_file,
}
use cgproxy.Config.Load.Status.{finish_load-Returns}

-- Every listed cgroup is a valid name, and the port is positive.
pub record IsValid (c : Config) : Type 0 where
  pub proxy_valid : valid_cgroups c.cgroup_proxy ≡ true
  pub noproxy_valid : valid_cgroups c.cgroup_noproxy ≡ true
  pub port_valid : valid_port c.port ≡ true

-- A list of texts is read from an array only.
abbrev pub StringsAreArrays : Json → Type 0
StringsAreArrays json =
    (v : json.Value) (l : List Bytes) → json.get_strings v ≡ some l → json.is_array v ≡ true

merge_reserved-IsValid : (c : Config) → IsValid c → IsValid (merge_reserved c)
unfolding merge_reserved valid_cgroup
merge_reserved-IsValid c v = record {
  proxy_valid = merge-valid_cgroups cgroup_proxy_preserved c.cgroup_proxy refl v.proxy_valid;
  noproxy_valid =
      merge-valid_cgroups cgroup_noproxy_preserved c.cgroup_noproxy refl v.noproxy_valid;
  port_valid = v.port_valid;
}

gate :
    (o more : Outcome Bool)
    → bind o (λ status. if status then more else returned false) ≡ returned true
    → (o ≡ returned true) × (more ≡ returned true)
gate (returned true) more h = (refl, h)
gate (returned false) more h = cc
gate (raised e) more h = cc
gate (exited c) more h = cc
gate hangs more h = cc

module _ (json : Json) where
  check_items-Listed :
      (items : List (Bytes × json.Value)) (k : Bytes) (v : json.Value)
      → check_items json items ≡ returned true
      → Listed k v items
      → check_value json (key_of k) v ≡ returned true
  unfolding check_items
  check_items-Listed [] k v h l = absurd l
  check_items-Listed ((j, w) ∷ items) k v h (inl (e, f)) =
      rw (← e, ← f) (gate (check_value json (key_of j) w) (check_items json items) h).0
  check_items-Listed ((j, w) ∷ items) k v h (inr l) =
      check_items-Listed items k v
        (gate (check_value json (key_of j) w) (check_items json items) h).1 l

  check_cgroups-strings :
      StringsAreArrays json
      → (v : json.Value) (l : List Bytes) → check_value json cgroups v ≡ returned true
      → json.get_strings v ≡ some l
      → valid_cgroups l ≡ true
  unfolding check_value
  check_cgroups-strings arrays v l h e = ground (arith, arrays v l)

  check_port-int :
      (v : json.Value) (n : ℤ)
      → check_value json port v ≡ returned true
      → json.get_int v ≡ some n
      → valid_port n ≡ true
  unfolding check_value
  check_port-int v n h e = ground arith

  module _ (lists : ListsItems json) (arrays : StringsAreArrays json) where
    module _ (j : json.Value) (passed : check_items json (json.items j) ≡ returned true) where
      tryassign-cgroups :
          (k : Bytes) (old : List Bytes) (o : Outcome json.Value)
          → key_of k ≡ cgroups
          → valid_cgroups old ≡ true
          → json.at j k ≡ o
          → valid_cgroups (try_get json json.get_strings o old) ≡ true
      tryassign-cgroups k old (returned v) kind valid e = elim (Option-cases (json.get_strings v)) [
        | inl no_list ↦ rw (no_list, try_get) valid
        | inr (l, list) ↦
            rw (list, try_get)
              (check_cgroups-strings arrays v l
                (rw kind at (check_items-Listed (json.items j) k v passed (lists j v k e))) list)
      ]
      tryassign-cgroups k old (raised x) kind valid e = valid
      tryassign-cgroups k old (exited x) kind valid e = valid
      tryassign-cgroups k old hangs kind valid e = valid

      tryassign-port :
          (k : Bytes) (old : ℤ) (o : Outcome json.Value)
          → key_of k ≡ port
          → valid_port old ≡ true
          → json.at j k ≡ o
          → valid_port (try_get json json.get_int o old) ≡ true
      tryassign-port k old (returned v) kind valid e = elim (Option-cases (json.get_int v)) [
        | inl no_int ↦ rw (no_int, try_get) valid
        | inr (n, int) ↦
            rw (int, try_get)
              (check_port-int v n
                (rw kind at (check_items-Listed (json.items j) k v passed (lists j v k e))) int)
      ]
      tryassign-port k old (raised x) kind valid e = valid
      tryassign-port k old (exited x) kind valid e = valid
      tryassign-port k old hangs kind valid e = valid

      assign_all-IsValid : (c : Config) → IsValid c → IsValid (assign_all json j c)
      unfolding assign_all key_of bytes_eq
      assign_all-IsValid c v = record {
        proxy_valid =
            tryassign-cgroups (codes "cgroup_proxy") c.cgroup_proxy _ refl v.proxy_valid refl;
        noproxy_valid =
            tryassign-cgroups (codes "cgroup_noproxy") c.cgroup_noproxy _ refl v.noproxy_valid refl;
        port_valid = tryassign-port (codes "port") c.port _ refl v.port_valid refl;
      }

    module _ (os : Os) where
      finish_load-IsValid :
          (c : Config) (s : os.State) {d : Config}
          → IsValid c
          → (finish_load os c s).0 ≡ returned d
          → IsValid d
      unfolding finish_load
      finish_load-IsValid c s v h =
          let (noproxy, _, h1) =
            >>=-eq-returned (to_real_program_path os c.program_noproxy) _ s h in
          let (proxy, _, h2) = >>=-eq-returned (to_real_program_path os c.program_proxy) _ _ h1 in
          let merged =
            merge_reserved-IsValid (record c { program_noproxy = noproxy; program_proxy = proxy })
              (record {
                proxy_valid = v.proxy_valid;
                noproxy_valid = v.noproxy_valid;
                port_valid = v.port_valid;
              }) in
          subst IsValid (returned-injective h2) merged

      load_value-IsValid :
          (j : json.Value) (h : Host os.State)
          → check_items json (json.items j) ≡ returned true
          → IsValid h.config
          → IsValid (load_value os json j h).1.config
      unfolding load_value
      load_value-IsValid j h passed v =
          let c = assign_all json j h.config in
          let (d, e) = finish_load-Returns os c h.sys in
          rw e (finish_load-IsValid c h.sys (assign_all-IsValid j passed h.config v) e)

      -- A valid configuration is valid after every load, whatever the text and the outcome, under
      -- the laws ListsItems and StringsAreArrays of the JSON library.
      pub load_from_json_str-IsValid :
          (js : Bytes) (h : Host os.State)
          → IsValid h.config
          → IsValid (load_from_json_str os json js h).1.config
      unfolding load_from_json_str validate_json_str
      load_from_json_str-IsValid js h v = elim (Option-cases (json.parse js)) [
        | inl bad_text ↦ rw bad_text v
        | inr (j, good) ↦ rw good (ground (arith, load_value-IsValid j h))
      ]

      pub load_from_file-IsValid :
          (f : Bytes) (h : Host os.State)
          → IsValid h.config
          → IsValid (load_from_file os json f h).1.config
      unfolding load_from_file
      load_from_file-IsValid f h v = elim (Option-cases (os.read_file f h.sys)) [
        | inl missing ↦ rw (missing, load_from_file) v
        | inr (js, text) ↦ rw (text, load_from_file) (load_from_json_str-IsValid js h v)
      ]
