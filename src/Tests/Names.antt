-- ===== src/Tests/Names.antt =====
-- Texts: joined arguments, cgroups, lists of pids and of cgroups.
use cgproxy.Base.{
  Bool, true, not, ◌&&◌, ◌==◌, All, ◌≢◌, true, false, List, [], ◌∷◌, Bytes, codes, contains, ◌≡◌,
  ◌↔◌, refl, arith,
}
use cgproxy.Base.Int.{pos}
use cgproxy.Effect.{returned, hangs}
use cgproxy.Text.{join2str, belong_to_cgroup}
use cgproxy.Text.Join.{intercalate, join2str_iff}
use cgproxy.Text.Cgroup.Tree.{IsBelow, belong_to_cgroup-IsBelow}
use cgproxy.Pidof.{pids_of, read_pids}
use cgproxy.Pidof.Laws.{pidof_text, pids_of-pidof_text, read_pids_hangs}

-- The arguments of a command that repeats its last one.
abbrev echo_twice : List Bytes
echo_twice = codes "echo" ∷ codes "a" ∷ []

join2str_iff_example :
    (join2str (codes "echo" ∷ codes "a" ∷ codes "a" ∷ []) b' '
      ≡ intercalate b' ' (codes "echo" ∷ codes "a" ∷ codes "a" ∷ []))
    ↔ (contains (codes "a") echo_twice ≡ false)
join2str_iff_example = join2str_iff echo_twice (codes "a") b' '

abbrev proxied : List Bytes
proxied = codes "proxy.slice" ∷ []

abbrev under : List Bytes
under = codes "proxy.slice" ∷ codes "a" ∷ []

abbrev is_plain : Bytes → Bool
is_plain [] = true
is_plain (c ∷ cs) = not (c == b'/') && is_plain cs

is_plain-All : (n : Bytes) → is_plain n ≡ true → All (λ c. c ≢ b'/') n
is_plain-All [] h = tt
is_plain-All (c ∷ cs) h = (ground arith, is_plain-All cs (ground arith))

belong_to_cgroup-IsBelow_example :
    (belong_to_cgroup (codes "/proxy.slice/a") (codes "/proxy.slice") ≡ true)
    ↔ (IsBelow under proxied × (proxied ≡ [] → under ≡ []))
belong_to_cgroup-IsBelow_example =
    belong_to_cgroup-IsBelow under proxied
      (
        ((λ e. cc), is_plain-All (codes "proxy.slice") refl),
        (((λ e. cc), is_plain-All (codes "a") refl), tt),
      )
      (((λ e. cc), is_plain-All (codes "proxy.slice") refl), tt)

pids_of-pidof_text_example :
    pids_of (pos 0) (pidof_text (42 ∷ 7 ∷ [])) ≡ returned (pos 42 ∷ pos 7 ∷ [])
pids_of-pidof_text_example = pids_of-pidof_text (pos 0) (42 ∷ 7 ∷ [])

read_pids_hangs_example : read_pids 1000 (pos 0) (codes "error") ≡ hangs
read_pids_hangs_example =
    read_pids_hangs 1000 (pos 0) b'e' (codes "rror") refl refl (λ e. omega (arith, e))
      (λ e. omega (arith, e))

abbrev listed : List Bytes
listed = codes "/a" ∷ codes "/proxy.slice" ∷ []
