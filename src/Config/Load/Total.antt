-- ===== src/Config/Load/Total.antt =====
-- Loading returns or throws on every text.
use cgproxy.Base.{
  Bool, true, false, ◌&&◌, ◌||◌, Option, none, some, List, [], ◌∷◌, Bytes, ◌≡◌, inl, inr, refl,
  if-ind,
}
use cgproxy.Constants.{success, param_error, file_error}
use cgproxy.Effect.{json_parse_error, Outcome, returned, IsPlain}
use cgproxy.Json.{Json, parsed, fetched-IsPlain}
use cgproxy.System.{Os}
use cgproxy.Valid.{valid_cgroup, valid_cgroups, valid_port}
use cgproxy.Config.Load.{
  bind, Key, cgroups, port, flag, any, unknown, key_of, check_cgroups, check_value, check_items,
  validate_json_str, Host, load_from_json_str, load_from_file,
}
use cgproxy.Config.Load.Status.{status_of, load_from_json_str_status}

bind-IsPlain :
    {A B : Type 0} (o : Outcome A) (f : A → Outcome B)
    → IsPlain o
    → ((a : A) → IsPlain (f a))
    → IsPlain (bind o f)
bind-IsPlain o f (inl (a, e)) k = rw e (k a)
bind-IsPlain o f (inr (x, e)) k = inr (x, rw e refl)

returned-IsPlain : {A : Type 0} (a : A) → IsPlain (returned a)
returned-IsPlain a = inl (a, refl)

module _ (json : Json) where
  check_cgroups-IsPlain : (v : json.Value) → IsPlain (check_cgroups json v)
  unfolding check_cgroups
  check_cgroups-IsPlain v =
      bind-IsPlain _ _
        (if-ind IsPlain (json.is_string v) _ _
          (bind-IsPlain _ _ (fetched-IsPlain (json.get_string v))
            (λ s. returned-IsPlain (valid_cgroup s)))
          (returned-IsPlain true))
        λ ok1.
          bind-IsPlain _ _
            (if-ind IsPlain (json.is_array v) _ _
              (bind-IsPlain _ _ (fetched-IsPlain (json.get_strings v))
                (λ l. returned-IsPlain (valid_cgroups l)))
              (returned-IsPlain true))
            λ ok2. returned-IsPlain (ok1 && ok2 && (json.is_string v || json.is_array v))

  check_value-IsPlain : (k : Key) (v : json.Value) → IsPlain (check_value json k v)
  unfolding check_value
  check_value-IsPlain cgroups v = check_cgroups-IsPlain v
  check_value-IsPlain port v =
      bind-IsPlain _ _ (fetched-IsPlain (json.get_int v)) (λ n. returned-IsPlain (valid_port n))
  check_value-IsPlain flag v = returned-IsPlain (json.is_boolean v)
  check_value-IsPlain any v = returned-IsPlain true
  check_value-IsPlain unknown v = returned-IsPlain false

  check_items-IsPlain : (items : List (Bytes × json.Value)) → IsPlain (check_items json items)
  unfolding check_items
  check_items-IsPlain [] = returned-IsPlain true
  check_items-IsPlain ((k, v) ∷ items) =
      bind-IsPlain (check_value json (key_of k) v) _ (check_value-IsPlain (key_of k) v)
        λ status. if-ind IsPlain status _ _ (check_items-IsPlain items) (returned-IsPlain false)

  validate_json_str-IsPlain : (js : Bytes) → IsPlain (validate_json_str json js)
  unfolding validate_json_str
  validate_json_str-IsPlain js =
      bind-IsPlain _ _ (parsed-IsPlain (json.parse js)) (λ j. check_items-IsPlain (json.items j))
    where
      parsed-IsPlain : (o : Option json.Value) → IsPlain (parsed o)
      parsed-IsPlain none = inr (json_parse_error, refl)
      parsed-IsPlain (some j) = inl (j, refl)

  status_of-IsPlain : (os : Os) (o : Outcome Bool) → IsPlain o → IsPlain (status_of os json o)
  status_of-IsPlain os o (inl (true, e)) = rw e (inl (success, refl))
  status_of-IsPlain os o (inl (false, e)) = rw e (inl (param_error, refl))
  status_of-IsPlain os o (inr (x, e)) = rw e (inr (x, refl))

  pub load_from_json_str-IsPlain :
      (os : Os) (js : Bytes) (h : Host os.State) → IsPlain (load_from_json_str os json js h).0
  load_from_json_str-IsPlain os js h =
      rw (load_from_json_str_status os json js h)
        (status_of-IsPlain os (validate_json_str json js) (validate_json_str-IsPlain js))

  pub load_from_file-IsPlain :
      (os : Os) (f : Bytes) (h : Host os.State) → IsPlain (load_from_file os json f h).0
  unfolding load_from_file
  load_from_file-IsPlain os f h = go (os.read_file f h.sys) refl
    where
      go : (o : Option Bytes) → os.read_file f h.sys ≡ o → IsPlain (load_from_file os json f h).0
      go none e = inl (file_error, rw (e, load_from_file) refl)
      go (some js) e = rw (e, load_from_file) (load_from_json_str-IsPlain os js h)
