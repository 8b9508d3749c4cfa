-- ===== src/Snoop/Skeleton/Laws.antt =====
-- What is freed.
use cgproxy.Base.{ℕ, ◌+◌, true, false, Option, none, some, ◌≡◌, arith}
use cgproxy.Snoop.Skeleton.{
  Heap, Answers, Object, destroy, libbpf_create, kernel_create, open_opts, open_and_load,
  libbpf_open_and_load, kernel_open_and_load, aarch64_create, aarch64_open_and_load, Arch, x86_64,
  aarch64, arch_open_and_load,
}

abbrev pub empty_heap : Heap
empty_heap = record { object_allocs = 0; object_frees = 0; skeleton_allocs = 0; skeleton_frees = 0 }

abbrev pub count : Option Object → ℕ
count none = 0
count (some _) = 1

-- Whatever allocations fail and whatever libbpf answers, from an empty heap open_and_load of the
-- libbpf variant has freed the object and its skeleton as often as they were allocated, but for the
-- one of each that it returns.
pub open_and_load-frees :
    (a : Answers)
    → let out = libbpf_open_and_load a empty_heap in
      (out.1.object_allocs ≡ out.1.object_frees + count out.0)
      × (out.1.skeleton_allocs ≡ out.1.skeleton_frees + count out.0)
unfolding libbpf_open_and_load open_and_load open_opts libbpf_create destroy
open_and_load-frees a = ground arith

-- On both architectures, where the object and the skeleton are allocated and the maps are not,
-- open_and_load of the kernel variant returns NULL and frees the skeleton twice.
pub open_and_load_double_free :
    (arch : Arch) (a : Answers)
    → a.object_ok ≡ true
    → a.skeleton_ok ≡ true
    → a.maps_ok ≡ false
    → let out = arch_open_and_load arch a empty_heap in
      (out.0 ≡ none) × (out.1.skeleton_allocs ≡ 1) × (out.1.skeleton_frees ≡ 2)
unfolding kernel_open_and_load aarch64_open_and_load open_and_load open_opts kernel_create
    aarch64_create destroy
open_and_load_double_free x86_64 a o s m = ground arith
open_and_load_double_free aarch64 a o s m = ground arith
