-- ===== src/Tests/Variables.antt =====
-- A system that has an environment only.
use cgproxy.Base.{
  true, none, some, List, [], ◌∷◌, Bytes, codes, bytes_eq_iff, bytes_eq_refl, ◌≡◌, ◌≢◌, refl, arith,
  false,
}
use cgproxy.Base.Int.{pos, negsuc}
use cgproxy.System.{Os, written}
use cgproxy.Config.{default_config}
use cgproxy.Config.Env.Kept.{Environment}
use cgproxy.Config.Load.{Host}
use cgproxy.Daemon.Messages.{apply_config}
use cgproxy.Socket.Wire.{int_bytes}
use cgproxy.Socket.Server.{Server, Stale}
use cgproxy.Tests.Machine.{lookup}
use cgproxy.Tests.Nets.{Wire, idle}
use cgproxy.Tests.Serving.{install}

abbrev pub Vars : Type 0
Vars = List (Bytes × Bytes)

abbrev pub shell : Os
shell = record {
  State = Vars;
  getuid = λ _. 0;
  stat = λ _ _. none;
  mkdir = λ _ s. (false, s);
  read_file = λ _ _. some (codes "c");
  append_file = λ _ _ s. (written, s);
  sleep_ms = λ _ s. s;
  realpath = λ _ _. none;
  unset_int = λ _. pos 0;
  popen = λ _ s. (none, s);
  system = λ _ s. (pos 0, s);
  setenv = λ k v s. (k, v) ∷ s;
  open_file = λ _ s. (pos 3, s);
  flock = λ _ s. (false, s);
  write_file = λ _ _ s. s;
  truncate_file = λ _ s. (false, s);
  getpid = λ _. pos 7;
  close = λ _ s. s;
  unlink = λ _ s. (false, s);
}

pub shell-other : (k j v : Bytes) (s : Vars) → j ≢ k → lookup k ((j, v) ∷ s) ≡ lookup k s
shell-other k j v s ne = ground (arith, bytes_eq_iff k j)

abbrev pub environment : Environment shell
environment = record {
  getenv = lookup;
  setenv_same = λ k v s. rw (bytes_eq_refl k) refl;
  setenv_other = shell-other;
  system_keeps = λ k cmd s. refl;
  mkdir_keeps = λ k path s. refl;
  append_keeps = λ k path text s. refl;
  sleep_keeps = λ k s. refl;
}

abbrev start : Host Vars
start = record { config = default_config; sys = [] }

-- Two clients: the first asks for the file of a configuration, the second sends nothing.
abbrev pub path_request : Bytes
path_request = 2 ∷ 0 ∷ 0 ∷ codes "/c"

abbrev server : Server Wire (Host Vars)
server = record {
  sfd = pos 3;
  cfd = negsuc 0;
  live = 0;
  net = idle (some (int_bytes (pos 5)) ∷ some path_request ∷ []);
  daemon = (apply_config shell install start).1;
}

abbrev pub stales : List Stale
stales =
    record { granted = true; len_bytes = codes "????"; buffer = [] }
    ∷ record { granted = true; len_bytes = codes "????"; buffer = [] }
    ∷ []
