-- ===== src/Snoop/Skeleton.antt =====
-- execsnoop-libbpf/execsnoop.skel.h and the two execsnoop_kern_skel.h of execsnoop-kernel: how the
-- objects around the BPF programs are allocated and freed.
pub mod Laws
use cgproxy.Base.{ℕ, ◌+◌, Bool, true, false, not, Option, none, some, if◌then◌else◌}
use cgproxy.Base.Int.{ℤ, pos, negsuc, eq_ℤ}
use cgproxy.Snoop.Loop.{is_ok}

-- How often the object and its skeleton were allocated and freed.
pub record Heap : Type 0 where
  pub object_allocs : ℕ
  pub object_frees : ℕ
  pub skeleton_allocs : ℕ
  pub skeleton_frees : ℕ

-- Whether each `calloc` delivers, and the errors of `bpf_object__open_skeleton` and
-- `bpf_object__load_skeleton`.
pub record Answers : Type 0 where
  pub object_ok : Bool
  pub skeleton_ok : Bool
  pub maps_ok : Bool
  pub progs_ok : Bool
  pub open_err : ℤ
  pub load_err : ℤ

-- `struct execsnoop_bpf`: whether its field `skeleton` is not NULL.
pub record Object : Type 0 where
  pub skeleton : Bool

abbrev fresh : Object
fresh = record { skeleton = false }

-- `bpf_object__destroy_skeleton` on a pointer that is not NULL; it also frees the maps and the programs.
abbrev free_skeleton : Heap → Heap
free_skeleton h = record h { skeleton_frees = h.skeleton_frees + 1 }

abbrev new_skeleton : Heap → Heap
new_skeleton h = record h { skeleton_allocs = h.skeleton_allocs + 1 }

-- `execsnoop_bpf__destroy`
pub destroy : Option Object → Heap → Heap
destroy none h = h
destroy (some o) h =
    let g = if o.skeleton then free_skeleton h else h in
    record g { object_frees = g.object_frees + 1 }

-- What `execsnoop_bpf__create_skeleton` does: its answer, the object and the heap.
abbrev Create : Type 0
Create = Answers → Object → Heap → ℤ × (Object × Heap)

abbrev enomem : ℤ
enomem = negsuc 11

-- `execsnoop_bpf__create_skeleton`: the object gets the skeleton when all is there.
pub libbpf_create : Create
libbpf_create a o h =
    if not a.skeleton_ok
    then (enomem, (o, h))
    else if not a.maps_ok
    then (enomem, (o, free_skeleton (new_skeleton h)))
    else if not a.progs_ok
    then (enomem, (o, free_skeleton (new_skeleton h)))
    else (pos 0, (record { skeleton = true }, new_skeleton h))

-- `execsnoop_kern__create_skeleton` of x86_64: the object gets the skeleton at once.
pub kernel_create : Create
kernel_create a o h =
    if not a.skeleton_ok
    then (negsuc 0, (o, h))
    else if not a.maps_ok
    then (negsuc 0, (record { skeleton = true }, free_skeleton (new_skeleton h)))
    else if not a.progs_ok
    then (negsuc 0, (record { skeleton = true }, free_skeleton (new_skeleton h)))
    else (pos 0, (record { skeleton = true }, new_skeleton h))

-- `execsnoop_kern__create_skeleton` of aarch64.
pub aarch64_create : Create
aarch64_create a o h =
    let attached : Object = record { skeleton = true } in
    let given_up : ℤ × (Object × Heap) = (negsuc 0, (attached, free_skeleton (new_skeleton h))) in
    if not a.skeleton_ok
    then (negsuc 0, (o, h))
    else if not a.maps_ok
    then given_up
    else if not a.progs_ok
    then given_up
    else (pos 0, (attached, new_skeleton h))

-- `execsnoop_bpf__open_opts`
pub open_opts : Create → Answers → Heap → Option Object × Heap
open_opts create a h =
    let out = create a fresh (record h { object_allocs = h.object_allocs + 1 }) in
    if not a.object_ok
    then (none, h)
    else if not (is_ok out.0)
    then (none, destroy (some out.1.0) out.1.1)
    else if not (is_ok a.open_err)
    then (none, destroy (some out.1.0) out.1.1)
    else (some out.1.0, out.1.1)

-- `execsnoop_bpf__open_and_load`
pub open_and_load : Create → Answers → Heap → Option Object × Heap
open_and_load create a h =
    let out = open_opts create a h in
    elim out.0 [
      | none ↦ (none, out.1)
      | some o ↦ if is_ok a.load_err then (some o, out.1) else (none, destroy (some o) out.1)
    ]

pub libbpf_open_and_load : Answers → Heap → Option Object × Heap
libbpf_open_and_load = open_and_load libbpf_create

-- The functions around `kernel_create` and `aarch64_create` have the same text.
pub kernel_open_and_load : Answers → Heap → Option Object × Heap
kernel_open_and_load = open_and_load kernel_create

pub aarch64_open_and_load : Answers → Heap → Option Object × Heap
aarch64_open_and_load = open_and_load aarch64_create

pub data Arch : Type 0 where
  x86_64 aarch64 : Arch

-- `execsnoop_kern__open_and_load`, as it is built for an architecture.
abbrev pub arch_open_and_load : Arch → Answers → Heap → Option Object × Heap
arch_open_and_load x86_64 = kernel_open_and_load
arch_open_and_load aarch64 = aarch64_open_and_load
