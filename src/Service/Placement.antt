-- ===== src/Service/Placement.antt =====
-- From a call of `execve` to the cgroup of the process: execsnoop-kernel/execsnoop_kern.c, the
-- callback of execsnoop_share.cpp and `handle_pid` of src/cgproxyd.hpp.
use cgproxy.Base.{List, [], ◌∷◌, ◌++◌}
use cgproxy.Base.Int.{ℤ}
use cgproxy.Config.{Config}
use cgproxy.Snoop.Kernel.{Task, Call, entering, leaving}

-- The calls of one process around those of others.
abbrev pub around : Task → List Call → Task → ℤ → List Call
around t others u ret = entering t ∷ (others ++ leaving u ret ∷ [])
