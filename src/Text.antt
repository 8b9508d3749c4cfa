-- ===== src/Text.antt =====
-- src/common.cpp: joining texts, prefixes, and which cgroup belongs to which.
pub mod Join
pub mod Cgroup
use cgproxy.Base.{
  ℕ, ◌+◌, Bool, true, false, not, ◌&&◌, ◌||◌, List, [], ◌∷◌, ◌++◌, Bytes, bytes_eq, ◌==◌,
  if◌then◌else◌, length,
}

-- `*(t.end() - 1)`, of a list in two parts.
abbrev pub last_of : Bytes → List Bytes → Bytes
last_of e [] = e
last_of _ (e ∷ es) = last_of e es

-- The loop of the first `join2str`: it compares with the last element by value.
join_onto : Bytes → ℕ → Bytes → List Bytes → Bytes
join_onto last delm s [] = s
join_onto last delm s (e ∷ es) =
    join_onto last delm (if not (bytes_eq e last) then s ++ (e ++ delm ∷ []) else s ++ e) es

pub join2str : List Bytes → ℕ → Bytes
unfolding join_onto
join2str [] delm = []
join2str (e ∷ es) delm = join_onto (last_of e es) delm [] (e ∷ es)

-- The loop of the second `join2str`, at index `i`.
join_args_onto : ℕ → ℕ → Bytes → ℕ → List Bytes → Bytes
join_args_onto argc i s delm [] = s
join_args_onto argc i s delm (a ∷ as') =
    let t = s ++ a in
    join_args_onto argc (i + 1) (if not (i + 1 == argc) then t ++ delm ∷ [] else t) delm as'

-- `argc` is the length of `argv`, as both callers pass it.
pub join_args : List Bytes → ℕ → Bytes
unfolding join_args_onto
join_args argv delm = join_args_onto (length argv) 0 [] delm argv

-- `s.rfind(prefix, 0) == 0`
unfoldable pub start_with : Bytes → Bytes → Bool
start_with s [] = true
start_with [] (_ ∷ _) = false
start_with (c ∷ s) (p ∷ prefix) = c == p && start_with s prefix

unfoldable pub belong_to_cgroup : Bytes → Bytes → Bool
unfolding start_with
belong_to_cgroup cg1 cg2 = start_with (cg1 ++ b'/' ∷ []) (cg2 ++ b'/' ∷ [])

-- The overload for a `vector<string>`.
unfoldable pub belong_to_any : Bytes → List Bytes → Bool
unfolding belong_to_cgroup
belong_to_any cg1 [] = false
belong_to_any cg1 (s ∷ cg2) = belong_to_cgroup cg1 s || belong_to_any cg1 cg2
