-- ===== src/Config/Load/Status.antt =====
-- What a load answers on every text, and that a load which does not succeed changes nothing.
use cgproxy.Base.{
  Bool, true, false, Option, none, some, List, [], ◌∷◌, Bytes, ◌++◌, codes, contains, ◌&&◌, ◌==◌,
  is_empty, bytes_eq, ◌≡◌, ◌≢◌, refl, inl, inr, Bool-cases, arith, Option-cases,
}
use cgproxy.Base.Int.{ℤ}
use cgproxy.Constants.{success, param_error}
use cgproxy.Effect.{Returns, >>=-Returns, Outcome, returned, raised, exited, hangs}
use cgproxy.Json.{Json, TextIsOneItem}
use cgproxy.System.{Os}
use cgproxy.Proc.{
  get_real_exist_path, bash_which, bash_readlink, resolve, output_of, first_byte, file_exist,
}
use cgproxy.Config.{Config}
use cgproxy.Config.Load.{
  check_items, check_value, key_of, validate_json_str, Host, assign_all, to_real_program_path,
  finish_load, load_value, load_from_json_str, load_from_file,
}

module _ (os : Os) where
  open os use {State}

  output_of-Returns : (r : Option Bytes × State) → Returns (output_of os r)
  output_of-Returns (none, s) = ([], refl)
  output_of-Returns (some out, s) = (_, refl)

  bash_which-Returns : (name : Bytes) (s : State) → Returns (bash_which os name s)
  unfolding bash_which
  bash_which-Returns name s = output_of-Returns (os.popen (codes "which " ++ name) s)

  bash_readlink-Returns : (path : Bytes) (s : State) → Returns (bash_readlink os path s)
  unfolding bash_readlink
  bash_readlink-Returns path s = output_of-Returns (os.popen (codes "readlink -e " ++ path) s)

  resolve-Returns : (name : Bytes) (s : State) → Returns (resolve os name s)
  unfolding resolve
  resolve-Returns name s =
      >>=-Returns (bash_which os name) _ s (bash_which-Returns name s) λ path t.
        elim (Bool-cases (is_empty path)) [
          | inl empty ↦ ([], rw empty refl)
          | inr full ↦ rw full (
              >>=-Returns (bash_readlink os path) _ t (bash_readlink-Returns path t)
                λ target u. (_, refl))
        ]

  get_real_exist_path-Returns : (name : Bytes) (s : State) → Returns (get_real_exist_path os name s)
  unfolding get_real_exist_path
  get_real_exist_path-Returns name s =
      elim (Bool-cases (first_byte name == b'/' && file_exist os name s)) [
        | inl direct ↦ (name, rw direct refl)
        | inr other ↦ rw other (resolve-Returns name s)
      ]

  pub to_real_program_path-Returns :
      (v : List Bytes) (s : State) → Returns (to_real_program_path os v s)
  unfolding to_real_program_path
  to_real_program_path-Returns [] s = ([], refl)
  to_real_program_path-Returns (p ∷ v) s =
      >>=-Returns (get_real_exist_path os p) _ s (get_real_exist_path-Returns p s) λ rpath t.
        >>=-Returns (to_real_program_path os v) _ t (to_real_program_path-Returns v t)
          λ tmp u. (_, refl)

  pub finish_load-Returns : (c : Config) (s : State) → Returns (finish_load os c s)
  unfolding finish_load
  finish_load-Returns c s =
      >>=-Returns (to_real_program_path os c.program_noproxy) _ s
        (to_real_program_path-Returns c.program_noproxy s)
        λ noproxy t.
          >>=-Returns (to_real_program_path os c.program_proxy) _ t
            (to_real_program_path-Returns c.program_proxy t) λ proxy u. (_, refl)

  module _ (json : Json) where
    load_value-success :
        (j : json.Value) (h : Host State) → (load_value os json j h).0 ≡ returned success
    unfolding load_value
    load_value-success j h =
        let (c, e) = finish_load-Returns (assign_all json j h.config) h.sys in rw e refl

    -- The answer of a load, by what the validation of its text does.
    abbrev pub status_of : Outcome Bool → Outcome ℤ
    status_of (returned true) = returned success
    status_of (returned false) = returned param_error
    status_of (raised e) = raised e
    status_of (exited c) = exited c
    status_of hangs = hangs

    load_from_json_str_outcome :
        (js : Bytes) (h : Host State)
        → ((load_from_json_str os json js h).0 ≡ status_of (validate_json_str json js))
          × ((load_from_json_str os json js h).0 ≢ returned success
              → (load_from_json_str os json js h).1 ≡ h)
    unfolding load_from_json_str validate_json_str
    load_from_json_str_outcome js h = elim (Option-cases (json.parse js)) [
      | inl bad_text ↦ rw bad_text (refl, λ _. refl)
      | inr (j, good) ↦ rw good (ground (arith, load_value-success j h))
    ]

    -- A load of a text answers 0 exactly when the text is valid and PARAM_ERROR when it is not, and
    -- lets through what the validation throws.
    pub load_from_json_str_status :
        (js : Bytes) (h : Host State)
        → (load_from_json_str os json js h).0 ≡ status_of (validate_json_str json js)
    load_from_json_str_status js h = (load_from_json_str_outcome js h).0

    -- A load of a text that does not answer 0 changes neither the configuration nor the system.
    pub load_from_json_str_unchanged :
        (js : Bytes) (h : Host State)
        → (load_from_json_str os json js h).0 ≢ returned success
        → (load_from_json_str os json js h).1 ≡ h
    load_from_json_str_unchanged js h = (load_from_json_str_outcome js h).1

    pub load_from_file_unchanged :
        (f : Bytes) (h : Host State)
        → (load_from_file os json f h).0 ≢ returned success
        → (load_from_file os json f h).1 ≡ h
    unfolding load_from_file
    load_from_file_unchanged f h = elim (Option-cases (os.read_file f h.sys)) [
      | inl missing ↦ rw (missing, load_from_file) (λ _. refl)
      | inr (js, text) ↦ rw (text, load_from_file) (load_from_json_str_unchanged js h)
    ]

-- A text is no configuration: the loop over it meets the empty key.
pub validate_text :
    (json : Json) (t q : Bytes)
    → TextIsOneItem json
    → json.parse q ≡ some (json.of_string t)
    → validate_json_str json q ≡ returned false
unfolding validate_json_str check_items check_value key_of bytes_eq contains
validate_text json t q one good = rw (good, one t) refl
