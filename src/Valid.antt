-- ===== src/Valid.antt =====
-- src/common.cpp: `validCgroup`, `validPid` and `validPort`. Each regular expression is a test of
-- every byte, which is what `regex_match` decides for these patterns.
pub mod Laws
use cgproxy.Base.{ℕ, Bool, true, false, ◌&&◌, ◌||◌, List, [], ◌∷◌, Bytes, ◌==◌, leb}
use cgproxy.Base.Int.{ℤ, is_positive}
use cgproxy.Base.Decimal.{is_digit}

-- `[a-zA-Z0-9\-_./@]`
pub is_cgroup_byte : ℕ → Bool
is_cgroup_byte c =
    leb b'a' c && leb c b'z'
    || leb b'A' c && leb c b'Z'
    || is_digit c
    || c == b'-'
    || c == b'_'
    || c == b'.'
    || c == b'/'
    || c == b'@'

-- `p*`
pub all_bytes : (ℕ → Bool) → Bytes → Bool
all_bytes p [] = true
all_bytes p (c ∷ cs) = p c && all_bytes p cs

-- `^/[a-zA-Z0-9\-_./@]*$`
unfoldable pub valid_cgroup : Bytes → Bool
unfolding all_bytes is_cgroup_byte
valid_cgroup [] = false
valid_cgroup (c ∷ cs) = c == b'/' && all_bytes is_cgroup_byte cs

-- The overload for a `vector<string>`.
unfoldable pub valid_cgroups : List Bytes → Bool
unfolding valid_cgroup
valid_cgroups [] = true
valid_cgroups (e ∷ es) = valid_cgroup e && valid_cgroups es

-- `^[0-9]+$`
unfoldable pub valid_pid : Bytes → Bool
unfolding all_bytes
valid_pid [] = false
valid_pid (c ∷ cs) = is_digit c && all_bytes is_digit cs

unfoldable pub valid_port : ℤ → Bool
valid_port port = is_positive port
