-- ===== src/Proc/Cgroups.antt =====
-- What `getCgroup` finds in the text of /proc/<pid>/cgroup, and that no output of a command is lost.
use mathlib.Core.List.{append-nil, append_assoc}
use cgproxy.Base.{
  ℕ, zero, suc, ◌≤◌, true, false, some, List, [], ◌∷◌, ◌++◌, Bytes, ◌≡◌, ◌≢◌, ◌⊎◌, inl, inr, refl,
  sym, ap, ◌∙◌, ◌==◌, length, drop, All, Bool-cases, arith, ltb,
}
use cgproxy.Effect.{returned, raised, std_out_of_range}
use cgproxy.System.{Os, Stat}
use cgproxy.Proc.{
  stat_is, lines_onto, lines, first_byte, find_cgroup, fgets, read_all_onto, read_all, file_exist,
  cgroup_file, get_cgroup,
}

-- The text of a file with these lines, each ended by a newline.
abbrev pub unlines : List Bytes → Bytes
unlines [] = []
unlines (l ∷ ls) = l ++ (b'\n' ∷ unlines ls)

abbrev pub IsLine : Bytes → Type 0
IsLine = All (λ c. c ≢ b'\n')

lines_onto-unlines :
    (done l : Bytes) (rest : Bytes)
    → IsLine l
    → lines_onto done (l ++ (b'\n' ∷ rest)) ≡ (done ++ l) ∷ lines rest
unfolding lines
lines_onto-unlines done [] rest h = rw append-nil refl
lines_onto-unlines done (c ∷ cs) rest h =
    let other : (c == b'\n') ≡ false = ground (arith, h.0) in
    rw (other, lines_onto-unlines (done ++ c ∷ []) cs rest h.1) (rw append_assoc refl)

-- Reading lines undoes writing them.
lines-unlines : (ls : List Bytes) → All IsLine ls → lines (unlines ls) ≡ ls
unfolding lines
lines-unlines [] h = refl
lines-unlines (l ∷ ls) h =
    lines_onto-unlines [] l (unlines ls) h.0 ∙ ap (◌∷◌ l) (lines-unlines ls h.1)

-- The entry of the unified hierarchy.
abbrev pub unified : Bytes → Bytes
unified cg = b'0' ∷ b':' ∷ b':' ∷ cg

find_cgroup-unified :
    (others : List Bytes) (cg : Bytes) (rest : List Bytes)
    → All (λ l. first_byte l ≢ b'0') others
    → find_cgroup (others ++ unified cg ∷ rest) ≡ returned cg
unfolding find_cgroup
find_cgroup-unified [] cg rest h = ground arith
find_cgroup-unified (l ∷ ls) cg rest h =
    let other : (first_byte l == b'0') ≡ false = ground (arith, h.0) in
    rw other (find_cgroup-unified ls cg rest h.1)

-- getCgroup returns the path of the unified hierarchy, whatever entries of other hierarchies stand
-- before or behind it, if the file is regular and no entry before it begins with a zero.
pub get_cgroup-unified :
    (os : Os) (pid cg : Bytes) (s : os.State) {st : Stat} (others rest : List Bytes)
    → os.stat (cgroup_file os pid) s ≡ some st
    → st.is_reg ≡ true
    → os.read_file (cgroup_file os pid) s ≡ some (unlines (others ++ unified cg ∷ rest))
    → All IsLine (others ++ unified cg ∷ rest)
    → All (λ l. first_byte l ≢ b'0') others
    → get_cgroup os pid s ≡ returned cg
unfolding get_cgroup
get_cgroup-unified os pid cg s others rest found reg text ls others_ne =
    unfold file_exist in
    rw (found, stat_is, reg, text, lines-unlines (others ++ unified cg ∷ rest) ls)
      (find_cgroup-unified others cg rest others_ne)

find_cgroup-cases :
    (ls : List Bytes)
    → ((cg : Bytes) × (find_cgroup ls ≡ returned cg)) ⊎ (find_cgroup ls ≡ raised std_out_of_range)
unfolding find_cgroup
find_cgroup-cases [] = inl ([], refl)
find_cgroup-cases (l ∷ ls) = elim (Bool-cases (first_byte l == b'0')) [
  | inl zero_entry ↦ elim (Bool-cases (ltb (length l) 3)) [
    | inl short ↦ inr (rw (zero_entry, short) refl)
    | inr long ↦ inl (drop 3 l, rw (zero_entry, long) refl)
  ]
  | inr other ↦ rw other (find_cgroup-cases ls)
]

-- The only exception is that of `substr`, on an entry of less than three bytes.
pub get_cgroup-cases :
    (os : Os) (pid : Bytes) (s : os.State)
    → ((cg : Bytes) × (get_cgroup os pid s ≡ returned cg))
      ⊎ (get_cgroup os pid s ≡ raised std_out_of_range)
unfolding get_cgroup
get_cgroup-cases os pid s = elim (Bool-cases (file_exist os (cgroup_file os pid) s)) [
  | inl found ↦ rw found (find_cgroup-cases _)
  | inr missing ↦ inl ([], rw missing refl)
]

fgets-append : (n : ℕ) (input : Bytes) → (fgets n input).0 ++ (fgets n input).1 ≡ input
unfolding fgets
fgets-append zero input = refl
fgets-append (suc n) [] = refl
fgets-append (suc n) (c ∷ cs) = ground (arith, fgets-append n cs)

fgets-shorter : (n : ℕ) (c : ℕ) (cs : Bytes) → length (fgets (suc n) (c ∷ cs)).1 ≤ length cs
unfolding fgets
fgets-shorter zero c cs = ground arith
fgets-shorter (suc n) c [] = ground arith
fgets-shorter (suc n) c (d ∷ cs) = ground (arith, fgets-shorter n d cs)

read_all_onto-append :
    (f n : ℕ) (buffer input : Bytes)
    → length input ≤ f
    → read_all_onto f (suc n) buffer input ≡ buffer ++ input
unfolding read_all_onto
read_all_onto-append zero n buffer [] h = sym (append-nil buffer)
read_all_onto-append zero n buffer (c ∷ cs) h = absurd (omega arith)
read_all_onto-append (suc f) n buffer [] h = sym (append-nil buffer)
read_all_onto-append (suc f) n buffer (c ∷ cs) h =
    let chunk = fgets (suc n) (c ∷ cs) in
    read_all_onto-append f n (buffer ++ chunk.0) chunk.1 (omega (arith, fgets-shorter n c cs))
    ∙ append_assoc buffer chunk.0 chunk.1
    ∙ ap (λ t. buffer ++ t) (fgets-append (suc n) (c ∷ cs))

-- The loop over a buffer of fixed size ends and collects the whole output of the command.
read_all_lem : (input : Bytes) → read_all input ≡ input
unfolding read_all
read_all_lem input = read_all_onto-append (length input) 126 [] input (omega arith)
