-- ===== src/Config/Save/Laws.antt =====
-- `saveToFile` and `loadFromFile` on one file.
use cgproxy.Base.{true, some, [], ◌∷◌, ◌++◌, Bytes, ◌≡◌, ◌∙◌, arith, Option-cases, inl, inr}
use cgproxy.Constants.{success}
use cgproxy.Effect.{returned}
use cgproxy.System.{Os}
use cgproxy.Json.{Json, IsLawful}
use cgproxy.Config.{Config}
use cgproxy.Config.Load.{to_json_str, validate_json_str, Host, load_from_json_str, load_from_file}
use cgproxy.Config.Load.RoundTrip.{loaded, IsTyped, load_from_json_str-to_json_str}
use cgproxy.Config.Load.Validity.{IsValid}
use cgproxy.Config.Save.{setw_4, save_to_file}

-- What is written to a file that was opened for writing is read from it.
abbrev pub KeepsFiles : Os → Type 0
KeepsFiles os =
    (f text : Bytes) (s : os.State)
    → (os.truncate_file f s).0 ≡ true
    → os.read_file f (os.write_file f text (os.truncate_file f s).1) ≡ some text

-- Spaces and newlines around a text do not change what is parsed.
abbrev pub SkipsSpace : Json → Type 0
SkipsSpace json = (t : Bytes) → json.parse (setw_4 t ++ b'\n' ∷ []) ≡ json.parse t

module _ (os : Os) (json : Json) where
  -- A load depends on what its text is parsed to.
  load_from_json_str-parse :
      (t u : Bytes) (h : Host os.State)
      → json.parse t ≡ json.parse u
      → load_from_json_str os json t h ≡ load_from_json_str os json u h
  unfolding load_from_json_str validate_json_str
  load_from_json_str-parse t u h e = elim (Option-cases (json.parse u)) [
    | inl bad_text ↦ ground (arith, e ∙ bad_text)
    | inr (j, good) ↦ ground (arith, e ∙ good)
  ]

  saved_text :
      (c : Config) (f js : Bytes) (s : os.State)
      → KeepsFiles os
      → to_json_str json c ≡ returned js
      → (save_to_file os json c f s).0 ≡ returned success
      → os.read_file f (save_to_file os json c f s).1 ≡ some (setw_4 js ++ b'\n' ∷ [])
  unfolding save_to_file
  saved_text c f js s keeps text ok = ground (arith, keeps f (setw_4 js ++ b'\n' ∷ []) s)

  -- A valid configuration that saveToFile has saved with the answer 0 is loaded from the file, with
  -- its programs resolved and the reserved cgroups merged, on a JSON library that reads back what
  -- it wrote, lists what was assigned and skips spaces around a text, and a file system that gives
  -- back what was written.
  pub load_from_file-save_to_file :
      IsLawful json
      → IsTyped json
      → SkipsSpace json
      → KeepsFiles os
      → (c old : Config) (f : Bytes) (s : os.State) {js : Bytes} → IsValid c
      → to_json_str json c ≡ returned js
      → (save_to_file os json c f s).0 ≡ returned success
      → let h : Host os.State = record { config = old; sys = (save_to_file os json c f s).1 } in
        load_from_file os json f h ≡ loaded os c h
  unfolding load_from_file
  load_from_file-save_to_file law typed skips keeps c old f s {js} valid text ok =
      let h : Host os.State = record { config = old; sys = (save_to_file os json c f s).1 } in
      rw (saved_text c f js s keeps text ok, load_from_file)
        (load_from_json_str-parse (setw_4 js ++ b'\n' ∷ []) js h (skips js)
          ∙ load_from_json_str-to_json_str json law typed os c js h valid text)
