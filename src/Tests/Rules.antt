-- ===== src/Tests/Rules.antt =====
-- A system with an environment and the rules of the two families, on which the commands of the daemon
-- run the script.
use cgproxy.Base.{
  true, false, none, some, List, [], ◌∷◌, Bytes, codes, bytes_eq, is_empty, bytes_eq_refl,
  if◌then◌else◌, ◌≡◌, ap, refl, arith, inl, inr, Bool-cases, contains,
}
use cgproxy.Base.Int.{pos, negsuc}
use cgproxy.System.{Os, written}
use cgproxy.Config.{default_config}
use cgproxy.Config.Env.Kept.{Environment}
use cgproxy.Config.Load.{Host}
use cgproxy.Daemon.Messages.{apply_config, run_script}
use cgproxy.Daemon.Messages.Rules.{Scripts}
use cgproxy.Script.Env.{Variables, read_variables}
use cgproxy.Script.{Family, ipv4, ipv6, Command, tcp, accept, on, start, stop, tproxy_ent}
use cgproxy.Script.Tables.{Tables, Kernel, Obeys, effect, run_all, chain}
use cgproxy.Script.Started.{bare}
use cgproxy.Script.Stopped.{IsFree}
use cgproxy.Script.Main.{
  Shell, Argument, stop_word, script, run_arguments, is_there, stop_all, started_from, prepare,
  and_then, ready_mount_point, ready_dir, filtered,
}
use cgproxy.Socket.Wire.{int_bytes}
use cgproxy.Socket.Server.{Server, rounds}
use cgproxy.Service.{callback}
use cgproxy.Service.Rules.{serve-restores}
use cgproxy.Tests.Machine.{lookup}
use cgproxy.Tests.Codec.{codec}
use cgproxy.Tests.Nets.{Wire, wire, idle}
use cgproxy.Tests.Serving.{install}
use cgproxy.Tests.Variables.{Vars, shell-other, path_request, stales}

abbrev Box : Type 0
Box = Vars × Tables × Tables

abbrev tables_of : Family → Box → Tables
tables_of ipv4 s = s.1
tables_of ipv6 s = s.2

abbrev run_command : Command → Box → Box
run_command c s = (s.0, effect ipv4 c s.1, effect ipv6 c s.2)

abbrev kernel : Kernel
kernel = record { State = Box; run = run_command; tables = tables_of }

obeys : Obeys kernel
obeys ipv4 c s = refl
obeys ipv6 c s = refl

abbrev bash : Shell kernel
bash = record {
  is_root = true;
  is_dir = λ _ _. true;
  is_cgroup2 = λ _ _. true;
  mkdir_p = λ _ s. s;
  mkdir = λ _ s. (true, s);
  mount_cgroup2 = λ _ s. s;
  source = λ _ v s. (v, s);
}

abbrev run_with : List Argument → Box → Box
run_with args s =
    (script kernel bash args (read_variables (λ n. lookup n s.0) (codes "/sys/fs/cgroup")) s).1

abbrev system : Bytes → Box → Box
system cmd s =
    if bytes_eq cmd (codes "start")
    then run_with [] s
    else if bytes_eq cmd (codes "clean")
    then run_with (stop_word ∷ []) s
    else s

run_all-vars : (cs : List Command) (s : Box) → (run_all kernel cs s).0 ≡ s.0
run_all-vars [] s = refl
run_all-vars (c ∷ cs) s = run_all-vars cs (run_command c s)

stop-vars : (v : Variables) (s : Box) → (stop_all kernel bash v s).0 ≡ s.0
unfolding stop_all
stop-vars v s =
    let there = is_there (chain tproxy_ent s.1) in
    let s1 : Box = run_all kernel (stop there v) s in ground (arith, run_all-vars (stop there v) s)

start-vars : (v : Variables) (s : Box) → (script kernel bash [] v s).1.0 ≡ s.0
unfolding script run_arguments prepare and_then ready_mount_point ready_dir started_from
start-vars v s = elim (Bool-cases (is_empty v.cgroup_mount_point)) [
  | inl none_there ↦ rw none_there refl
  | inr there ↦ rw there (run_all-vars (start (filtered kernel bash v s)) s)
]

system-vars : (cmd : Bytes) (s : Box) → (system cmd s).0 ≡ s.0
unfolding script run_arguments
system-vars cmd s =
    let v : Variables = read_variables (λ n. lookup n s.0) (codes "/sys/fs/cgroup") in
    ground (arith, start-vars v s, stop-vars v s)

abbrev machine : Os
machine = record {
  State = Box;
  getuid = λ _. 0;
  stat = λ _ _. none;
  mkdir = λ _ s. (false, s);
  read_file = λ _ _. some (codes "c");
  append_file = λ _ _ s. (written, s);
  sleep_ms = λ _ s. s;
  realpath = λ _ _. none;
  unset_int = λ _. pos 0;
  popen = λ _ s. (none, s);
  system = λ cmd s. (pos 0, system cmd s);
  setenv = λ k v s. ((k, v) ∷ s.0, s.1, s.2);
  open_file = λ _ s. (pos 3, s);
  flock = λ _ s. (false, s);
  write_file = λ _ _ s. s;
  truncate_file = λ _ s. (false, s);
  getpid = λ _. pos 7;
  close = λ _ s. s;
  unlink = λ _ s. (false, s);
}

abbrev environment : Environment machine
environment = record {
  getenv = λ k s. lookup k s.0;
  setenv_same = λ k v s. rw (bytes_eq_refl k) refl;
  setenv_other = λ k j v s ne. shell-other k j v s.0 ne;
  system_keeps = λ k cmd s. ap (lookup k) (system-vars cmd s);
  mkdir_keeps = λ k path s. refl;
  append_keeps = λ k path text s. refl;
  sleep_keeps = λ k s. refl;
}

set_var :
    (f : Family) (k v : Bytes) (s : Box) → tables_of f ((k, v) ∷ s.0, s.1, s.2) ≡ tables_of f s
set_var ipv4 k v s = refl
set_var ipv6 k v s = refl

scripts : Scripts machine install environment
unfolding bytes_eq
scripts = record {
  run = run_command;
  tables = tables_of;
  obeys = obeys;
  shell = bash;
  root = refl;
  makes = ((λ f path s. refl), (λ f path s. refl), (λ f path s. refl));
  found = λ _. codes "/sys/fs/cgroup";
  starts = λ s. refl;
  stops = λ s. refl;
  setenv_keeps = set_var;
  mkdir_keeps = λ f path s. refl;
  append_keeps = λ f path text s. refl;
  sleep_keeps = λ f s. refl;
  popen_keeps = λ f cmd s. refl;
  popen_environment = λ n cmd s. refl;
}

-- One rule of somebody else.
abbrev empty : Tables
empty = bare (on tcp accept ∷ []) [] [] [] []

abbrev begin : Host Box
begin = record { config = default_config; sys = ([], empty, empty) }

free : (f : Family) (v : Variables) → IsFree f v (tables_of f ([], empty, empty))
unfolding contains
free ipv4 v = (
  refl,
  refl,
  refl,
  refl,
  (refl, refl, refl, refl),
  (refl, refl, refl, refl),
  (refl, refl, refl, refl),
  tt,
  tt,
  tt,
  refl,
  refl,
)
free ipv6 v = (
  refl,
  refl,
  refl,
  refl,
  (refl, refl, refl, refl),
  (refl, refl, refl, refl),
  (refl, refl, refl, refl),
  tt,
  tt,
  tt,
  refl,
  refl,
)

abbrev server : Server Wire (Host Box)
server = record {
  sfd = pos 3;
  cfd = negsuc 0;
  live = 0;
  net = idle (some (int_bytes (pos 5)) ∷ some path_request ∷ []);
  daemon = (apply_config machine install begin).1;
}

serve-restores_example :
    tables_of ipv4 (
      run_script machine install.tproxy_iptables_clean
        (rounds wire (callback machine codec install wire) stales server).1.daemon.sys)
    ≡ empty
unfolding scripts
serve-restores_example =
    serve-restores machine codec install wire environment scripts stales begin server free refl ipv4
