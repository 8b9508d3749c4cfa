-- ===== src/Config/Save.antt =====
-- `saveToFile`.
pub mod Laws
use cgproxy.Base.{◌-◌, [], ◌∷◌, ◌++◌, Bytes, length, replicate, if◌then◌else◌}
use cgproxy.Base.Int.{ℤ, pos}
use cgproxy.Constants.{file_error}
use cgproxy.Effect.{M, returned, continue}
use cgproxy.Json.{Json}
use cgproxy.System.{Os}
use cgproxy.Config.{Config}
use cgproxy.Config.Load.{to_json_str}

-- `setw(4)` on a text.
unfoldable pub setw_4 : Bytes → Bytes
setw_4 t = replicate (4 - length t) b' ' ++ t

-- The file is opened, and empty, before the text is made, which may throw.
unfoldable pub save_to_file : (os : Os) → Json → Config → Bytes → M os.State ℤ
save_to_file os json c f s =
    let opened = os.truncate_file f s in
    let saved =
      continue (to_json_str json c) opened.1
        (λ js t. (returned (pos 0), os.write_file f (setw_4 js ++ b'\n' ∷ []) t)) in
    if opened.0 then saved else (returned file_error, opened.1)
