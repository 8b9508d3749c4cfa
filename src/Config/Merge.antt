-- ===== src/Config/Merge.antt =====
-- The macro `merge`: the preserved cgroup stands first and once, and no other is lost.
use cgproxy.Base.{
  true, false, not, ◌&&◌, ◌||◌, List, [], ◌∷◌, Bytes, bytes_eq, bytes_eq_iff, bytes_eq_refl,
  contains, ◌≡◌, refl, arith,
}
use cgproxy.Valid.{valid_cgroup, valid_cgroups}
use cgproxy.Config.{remove, merge}

contains-remove :
    (y x : Bytes) (v : List Bytes) → contains y (remove x v) ≡ (not (bytes_eq y x) && contains y v)
unfolding contains remove
contains-remove y x [] = ground arith
contains-remove y x (z ∷ v) =
    ground (arith, contains-remove y x v, bytes_eq_iff y x, bytes_eq_iff y z, bytes_eq_iff z x)

remove-absent : (x : Bytes) (v : List Bytes) → contains x v ≡ false → remove x v ≡ v
unfolding contains remove
remove-absent x [] h = refl
remove-absent x (y ∷ v) h = ground (arith, remove-absent x v, bytes_eq_iff x y, bytes_eq_iff y x)

-- After merge a cgroup is listed if it is the preserved one or was listed before; the preserved one
-- stands first and nowhere else.
merge_members :
    (x y : Bytes) (v : List Bytes)
    → (contains y (merge x v) ≡ (bytes_eq y x || contains y v))
      × (merge x v ≡ x ∷ remove x v)
      × (contains x (remove x v) ≡ false)
unfolding merge contains
merge_members x y v = (
  ground (arith, contains-remove y x v),
  refl,
  ground (arith, contains-remove x x v, bytes_eq_refl x),
)

-- Merging again changes nothing.
merge_idem : (x : Bytes) (v : List Bytes) → merge x (merge x v) ≡ merge x v
unfolding merge remove
merge_idem x v =
    ground (arith, bytes_eq_refl x, contains-remove x x v, remove-absent x (remove x v))

valid_cgroups-cons :
    (e : Bytes) (es : List Bytes) → valid_cgroups (e ∷ es) ≡ (valid_cgroup e && valid_cgroups es)
valid_cgroups-cons e es = unfold valid_cgroups in refl

remove-valid_cgroups :
    (x : Bytes) (v : List Bytes) → valid_cgroups v ≡ true → valid_cgroups (remove x v) ≡ true
unfolding remove
remove-valid_cgroups x [] h = h
remove-valid_cgroups x (y ∷ v) h =
    ground
      (arith, remove-valid_cgroups x v, valid_cgroups-cons y v, valid_cgroups-cons y (remove x v))

-- Merging a valid cgroup into a list of valid ones gives a list of valid ones.
pub merge-valid_cgroups :
    (x : Bytes) (v : List Bytes)
    → valid_cgroup x ≡ true
    → valid_cgroups v ≡ true
    → valid_cgroups (merge x v) ≡ true
unfolding merge
merge-valid_cgroups x v hx hv =
    ground (arith, remove-valid_cgroups x v, valid_cgroups-cons x (remove x v))
