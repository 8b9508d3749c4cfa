-- ===== src/Command/Laws.antt =====
-- What the command line means, and that a command runs only behind an attached process.
use cgproxy.Base.{
  ℕ, Bool, true, false, ◌&&◌, none, some, List, [], ◌∷◌, ◌++◌, Bytes, codes, bytes_eq,
  bytes_eq_refl, Option-cases, ltb, if◌then◌else◌, All, ◌≡◌, ◌≢◌, refl, ◌∙◌, arith, inl, inr,
}
use cgproxy.Base.Int.{ℤ, pos, eq_ℤ_iff}
use cgproxy.Base.Decimal.{show_ℕ, read_ℕ-show_ℕ}
use cgproxy.Constants.{
  exit_failure, cgroup2_mount_point, cgroup_proxy_preserved, cgroup_noproxy_preserved,
}
use cgproxy.Effect.{returned, raised, exited, std_out_of_range}
use cgproxy.Text.Join.{intercalate, join_args-intercalate}
use cgproxy.Valid.{valid_pid, valid_cgroup}
use cgproxy.Json.{Json, IsLawful}
use cgproxy.System.{Os}
use cgproxy.Attach.{attach_int}
use cgproxy.Config.Load.{Host}
use cgproxy.Socket.{Net}
use cgproxy.Daemon.Life.{is_option}
use cgproxy.Daemon.Messages.{Install, handle_msg}
use cgproxy.Daemon.Messages.Branches.{answered, handle_msg-attach}
use cgproxy.Command.{
  Options, set_options, process_args, stoi, pid_type, pid_message, World, send_pid, pid_of,
  attach_and_run, main, drop_status, client_process, cgattach,
}

-- stoi reads the number of a process back from its decimal notation if it fits an int; otherwise it
-- throws.
stoi-show_ℕ :
    (n : ℕ)
    → stoi (show_ℕ n) ≡ (if ltb n 2147483648 then returned (pos n) else raised std_out_of_range)
unfolding stoi
stoi-show_ℕ n = rw (read_ℕ-show_ℕ n) refl

-- An option in front of the command, other than `--pid`.
abbrev IsFlag : Bytes → Type 0
IsFlag arg = (is_option arg ≡ true) × (bytes_eq arg (codes "--pid") ≡ false)

is_option-pid : (cmd : Bytes) → is_option cmd ≡ false → bytes_eq cmd (codes "--pid") ≡ false
unfolding bytes_eq
is_option-pid [] h = refl
is_option-pid (c ∷ cs) h = ground arith

-- Behind options other than --pid the command and all of its arguments are kept as they are, also
-- those that look like options of cgproxy.
process_args-rest :
    (opts : List Bytes) (cmd : Bytes) (args : List Bytes) (o : Options)
    → All IsFlag opts
    → is_option cmd ≡ false
    → (p : Options) × (process_args false (opts ++ cmd ∷ args) o ≡ some p)
      × (p.rest ≡ cmd ∷ args)
      × (p.attach_pid ≡ o.attach_pid)
unfolding process_args set_options
process_args-rest [] cmd args o flags plain = (
  record (set_options cmd o) { rest = cmd ∷ args },
  rw (is_option-pid cmd plain, plain) refl,
  refl,
  refl,
)
process_args-rest (f ∷ opts) cmd args o flags plain =
    let (p, e, r, a) = process_args-rest opts cmd args (set_options f o) flags.1 plain in
    (p, rw (flags.0.0, flags.0.1) e, r, a)

-- No valid pid stands in front.
abbrev NoPid : List Bytes → Type 0
NoPid [] = Unit
NoPid (a ∷ _) = valid_pid a ≡ false

-- `--pid` with no text of digits behind it is refused, wherever it stands behind other options.
process_args_bad_pid :
    (opts rest : List Bytes) (o : Options)
    → All IsFlag opts
    → NoPid rest
    → process_args false (opts ++ codes "--pid" ∷ rest) o ≡ none
unfolding process_args
process_args_bad_pid [] [] o flags bad = rw bytes_eq_refl refl
process_args_bad_pid [] (a ∷ rest) o flags bad = rw (bytes_eq_refl, bad) refl
process_args_bad_pid (f ∷ opts) rest o flags bad =
    rw (flags.0.0, flags.0.1) (process_args_bad_pid opts rest (set_options f o) flags.1 bad)

module _ (os : Os) (net : Net) (json : Json) where
  send_pid-sys :
      (pid : ℤ) (proxied : Bool) (w : World net.State os.State)
      → (send_pid os net json pid proxied w).1.sys ≡ w.sys
  unfolding send_pid
  send_pid-sys pid proxied w = elim (Option-cases (json.dump (pid_message json proxied pid))) [
    | inl none' ↦ rw (none', send_pid) refl
    | inr (msg, e) ↦ rw (e, send_pid) refl
  ]

  -- If the daemon answers something else than 0 for the process, the client ends with status 1 and
  -- has run nothing.
  attach_and_run_fails :
      (o : Options) (w : World net.State os.State) {pid status : ℤ}
      → (pid_of os net json o w).0 ≡ returned pid
      → (send_pid os net json pid o.proxy w).0 ≡ returned status
      → status ≢ pos 0
      → ((attach_and_run os net json o w).0 ≡ exited exit_failure)
        × ((attach_and_run os net json o w).1.sys ≡ w.sys)
  unfolding attach_and_run pid_of
  attach_and_run_fails o w {pid} {status} p s ne =
      ground (arith, eq_ℤ_iff status (pos 0), send_pid-sys pid o.proxy w)

  -- Without --pid and with the answer 0 the command is run with its arguments joined by spaces, and
  -- its status is what the inner main returns.
  pub attach_and_run_runs :
      (o : Options) (w : World net.State os.State)
      → o.attach_pid ≡ false
      → (send_pid os net json (os.getpid w.sys) o.proxy w).0 ≡ returned (pos 0)
      → let out = os.system (intercalate b' ' o.rest) w.sys in
        ((attach_and_run os net json o w).0 ≡ returned out.0)
        × ((attach_and_run os net json o w).1.sys ≡ out.1)
  unfolding attach_and_run pid_of
  attach_and_run_runs o w np s =
      ground (arith, join_args-intercalate o.rest b' ', send_pid-sys (os.getpid w.sys) o.proxy w)

  -- The status of the command does not reach the caller of cgproxy: whatever main returns, the
  -- process ends with 0.
  client_process_status :
      (argv : List Bytes) (w : World net.State os.State) {n : ℤ}
      → (main os net json argv w).0 ≡ returned n
      → (client_process os net json argv w).0 ≡ returned (pos 0)
  unfolding client_process drop_status
  client_process_status argv w h = ground arith

-- What the client sends for a pid makes the daemon attach that process to the cgroup of the mode of
-- the client and answer what attach answers, on a JSON library that reads back what it wrote.
pub handle_msg-pid_message :
    (os : Os) (json : Json) (env : Install)
    → IsLawful json
    → (proxied : Bool) (pid : ℤ) (msg : Bytes) (h : Host os.State)
    → json.dump (pid_message json proxied pid) ≡ some msg
    → let cg = if proxied then cgroup_proxy_preserved else cgroup_noproxy_preserved in
      let out = attach_int os cgroup2_mount_point pid cg h.sys in
      handle_msg os json env msg h ≡ (answered os json env out.0, record h { sys = out.1 })
unfolding pid_message
handle_msg-pid_message os json env law proxied pid msg h dumped =
    handle_msg-attach os json env msg h proxied pid {kind = json.of_int (pid_type proxied)}
      {payload = json.of_int pid} (law.parse-dump _ msg dumped)
      (law.at-object (codes "type") _ _ _ ∙ unfold bytes_eq in refl)
      (law.get_int-of_int (pid_type proxied))
      (law.at-object (codes "data") _ _ _ ∙ unfold bytes_eq in refl) (law.get_int-of_int pid)

-- The tool refuses a pid or a cgroup that is not valid before anything is done.
cgattach_invalid :
    (os : Os) (is_root : Bool) (mount pid cg : Bytes) (s : os.State)
    → (valid_pid pid && valid_cgroup cg) ≡ false
    → cgattach os is_root mount (pid ∷ cg ∷ []) s ≡ (exited exit_failure, s)
unfolding cgattach
cgattach_invalid os is_root mount pid cg s h = ground arith
