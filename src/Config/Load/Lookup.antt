-- ===== src/Config/Load/Lookup.antt =====
-- `toRealProgramPath` runs `which` and `readlink` and does nothing else to the system.
use cgproxy.Base.{
  Option, none, some, List, [], ◌∷◌, Bytes, ◌++◌, codes, ◌&&◌, ◌==◌, is_empty, Bool-cases, inl, inr,
  Option-cases, arith,
}
use cgproxy.Effect.{>>=-keeps}
use cgproxy.System.{Os}
use cgproxy.Proc.{
  get_real_exist_path, bash_which, bash_readlink, resolve, output_of, first_byte, file_exist,
}
use cgproxy.Json.{Json}
use cgproxy.Config.{Config}
use cgproxy.Config.Load.Status.{finish_load-Returns}
use cgproxy.Config.Load.{
  to_real_program_path, finish_load, load_value, validate_json_str, Host, load_from_json_str,
  load_from_file, assign_all,
}

-- A property of the system that no run of the two commands ends.
pub record IsKept (os : Os) (P : os.State → Type 0) : Type 0 where
  pub which : (name : Bytes) (s : os.State) → P s → P (os.popen (codes "which " ++ name) s).1
  pub readlink :
      (path : Bytes) (s : os.State) → P s → P (os.popen (codes "readlink -e " ++ path) s).1

module _ (os : Os) (P : os.State → Type 0) (kept : IsKept os P) where
  open os use {State}

  output_of-keeps : (r : Option Bytes × State) → P r.1 → P (output_of os r).1
  output_of-keeps (none, s) p = p
  output_of-keeps (some out, s) p = p

  resolve-keeps : (name : Bytes) (s : State) → P s → P (resolve os name s).1
  unfolding resolve bash_which bash_readlink
  resolve-keeps name s p =
      >>=-keeps P (bash_which os name) _ s
        (output_of-keeps (os.popen (codes "which " ++ name) s) (kept.which name s p))
        λ path t q. elim (Bool-cases (is_empty path)) [
          | inl empty ↦ rw empty q
          | inr full ↦ rw full (
              >>=-keeps P (bash_readlink os path) _ t
                (output_of-keeps (os.popen (codes "readlink -e " ++ path) t)
                  (kept.readlink path t q))
                λ target u k. k)
        ]

  get_real_exist_path-keeps : (name : Bytes) (s : State) → P s → P (get_real_exist_path os name s).1
  unfolding get_real_exist_path
  get_real_exist_path-keeps name s p =
      elim (Bool-cases (first_byte name == b'/' && file_exist os name s)) [
        | inl direct ↦ rw direct p
        | inr other ↦ rw other (resolve-keeps name s p)
      ]

  pub to_real_program_path-keeps :
      (v : List Bytes) (s : State) → P s → P (to_real_program_path os v s).1
  unfolding to_real_program_path
  to_real_program_path-keeps [] s p = p
  to_real_program_path-keeps (name ∷ v) s p =
      >>=-keeps P (get_real_exist_path os name) _ s (get_real_exist_path-keeps name s p)
        λ rpath t q.
          >>=-keeps P (to_real_program_path os v) _ t (to_real_program_path-keeps v t q)
            λ tmp u k. k

  finish_load-keeps : (c : Config) (s : State) → P s → P (finish_load os c s).1
  unfolding finish_load
  finish_load-keeps c s p =
      >>=-keeps P (to_real_program_path os c.program_noproxy) _ s
        (to_real_program_path-keeps c.program_noproxy s p)
        λ noproxy t q.
          >>=-keeps P (to_real_program_path os c.program_proxy) _ t
            (to_real_program_path-keeps c.program_proxy t q) λ proxy u k. k

  module _ (json : Json) where
    load_value-keeps :
        (j : json.Value) (h : Host State) → P h.sys → P (load_value os json j h).1.sys
    unfolding load_value
    load_value-keeps j h p =
        let (c, e) = finish_load-Returns os (assign_all json j h.config) h.sys in
        rw e (finish_load-keeps (assign_all json j h.config) h.sys p)

    -- A load does to the system what the look-ups of the programs do.
    pub load_from_json_str-keeps :
        (js : Bytes) (h : Host State) → P h.sys → P (load_from_json_str os json js h).1.sys
    unfolding load_from_json_str validate_json_str
    load_from_json_str-keeps js h p = elim (Option-cases (json.parse js)) [
      | inl bad_text ↦ rw bad_text p
      | inr (j, good) ↦ rw good (ground (arith, load_value-keeps j h p))
    ]

    pub load_from_file-keeps :
        (f : Bytes) (h : Host State) → P h.sys → P (load_from_file os json f h).1.sys
    unfolding load_from_file
    load_from_file-keeps f h p = elim (Option-cases (os.read_file f h.sys)) [
      | inl missing ↦ rw (missing, load_from_file) p
      | inr (js, text) ↦ rw (text, load_from_file) (load_from_json_str-keeps js h p)
    ]
