-- ===== src/Proc.antt =====
-- src/common.cpp: what the program asks the file system and other commands.
pub mod Cgroups
use cgproxy.Base.{
  ℕ, zero, suc, ◌+◌, ◌-◌, Bool, true, false, not, ◌&&◌, ◌||◌, Option, none, some, List, [], ◌∷◌,
  ◌++◌, Bytes, codes, is_empty, bytes_eq, ◌==◌, if◌then◌else◌, length, drop, ltb,
}
use cgproxy.Base.Int.{ℤ, pos, negsuc}
use cgproxy.Base.Decimal.{show_ℤ}
use cgproxy.Constants.{read_size_max}
use cgproxy.Effect.{M, ◌>>=◌, ret, ask, Outcome, returned, raised, Exn, std_out_of_range}
use cgproxy.System.{Os, Stat}

abbrev stat_is : (Stat → Bool) → Option Stat → Bool
stat_is p none = false
stat_is p (some st) = p st

-- The lines that `getline` reads: a last line with no newline counts, an empty rest does not.
unfoldable pub lines_onto : Bytes → Bytes → List Bytes
lines_onto line [] = if is_empty line then [] else line ∷ []
lines_onto line (c ∷ cs) =
    let more = lines_onto [] cs in
    let same = lines_onto (line ++ c ∷ []) cs in if c == b'\n' then line ∷ more else same

unfoldable pub lines : Bytes → List Bytes
unfolding lines_onto
lines = lines_onto []

-- `s.substr(3)`
abbrev substr3 : Bytes → Outcome Bytes
substr3 s = if ltb (length s) 3 then raised std_out_of_range else returned (drop 3 s)

-- `line[0]`, which is a NUL for an empty line.
abbrev pub first_byte : Bytes → ℕ
first_byte [] = 0
first_byte (c ∷ _) = c

-- The loop of `getCgroup` over the lines.
unfoldable pub find_cgroup : List Bytes → Outcome Bytes
find_cgroup [] = returned []
find_cgroup (line ∷ rest) =
    let more = find_cgroup rest in if first_byte line == b'0' then substr3 line else more

-- `s.pop_back()` unless empty.
abbrev pop_back : Bytes → Bytes
pop_back [] = []
pop_back (c ∷ []) = []
pop_back (c ∷ d ∷ cs) = c ∷ pop_back (d ∷ cs)

-- One `fgets` with room for `n` bytes: what it reads, up to a newline, and what it leaves.
fgets : ℕ → Bytes → Bytes × Bytes
fgets zero input = ([], input)
fgets (suc n) [] = ([], [])
fgets (suc n) (c ∷ cs) =
    let rest = fgets n cs in if c == b'\n' then (c ∷ [], cs) else (c ∷ rest.0, rest.1)

-- The loop `while (fgets(buf, n + 1, fp) != NULL) buffer << buf;`, with fuel for its rounds.
read_all_onto : ℕ → ℕ → Bytes → Bytes → Bytes
read_all_onto zero n buffer input = buffer
read_all_onto (suc f) n buffer [] = buffer
read_all_onto (suc f) n buffer (c ∷ cs) =
    let chunk = fgets n (c ∷ cs) in read_all_onto f n (buffer ++ chunk.0) chunk.1

pub read_all : Bytes → Bytes
unfolding read_all_onto fgets
read_all input = read_all_onto (length input) (read_size_max - 1) [] input

module _ (os : Os) where
  open os use {State}

  unfoldable pub file_exist : Bytes → State → Bool
  file_exist path s = stat_is (λ st. st.is_reg) (os.stat path s)

  unfoldable pub dir_exist : Bytes → State → Bool
  dir_exist path s = stat_is (λ st. st.is_dir) (os.stat path s)

  abbrev pub cgroup_file : Bytes → Bytes
  cgroup_file pid = codes "/proc/" ++ (pid ++ codes "/cgroup")

  -- `ifstream` and `getline`: a file that does not open has no lines.
  abbrev file_lines : Option Bytes → List Bytes
  file_lines none = []
  file_lines (some text) = lines text

  unfoldable pub get_cgroup : Bytes → State → Outcome Bytes
  get_cgroup pid s =
      if not (file_exist (cgroup_file pid) s)
      then returned []
      else find_cgroup (file_lines (os.read_file (cgroup_file pid) s))

  -- What both `bash_which` and `bash_readlink` do with the output of their command.
  abbrev pub output_of : Option Bytes × State → Outcome Bytes × State
  output_of (none, s) = (returned [], s)
  output_of (some out, s) = (returned (pop_back (read_all out)), s)

  unfoldable pub bash_which : Bytes → M State Bytes
  bash_which name s = output_of (os.popen (codes "which " ++ name) s)

  unfoldable pub bash_readlink : Bytes → M State Bytes
  bash_readlink path s = output_of (os.popen (codes "readlink -e " ++ path) s)

  -- The search with `which` and `readlink`, for a name that is no path of a file.
  unfoldable pub resolve : Bytes → M State Bytes
  resolve name = do
    path ← bash_which name
    if is_empty path then ret [] else (do
      target ← bash_readlink path
      found ← ask (file_exist target)
      ret (if found then target else []))

  unfoldable pub get_real_exist_path : Bytes → M State Bytes
  unfolding resolve
  get_real_exist_path name s =
      if first_byte name == b'/' && file_exist name s then (returned name, s) else resolve name s
