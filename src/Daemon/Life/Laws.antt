-- ===== src/Daemon/Life/Laws.antt =====
-- How the daemon starts, refuses to start and stops.
use cgproxy.Base.{
  some, none, sym, false, List, [], ◌∷◌, ◌++◌, Bytes, ◌≡◌, ◌≢◌, refl, ap, ◌∙◌, arith,
}
use cgproxy.Base.Int.{ℤ, negsuc, eq_ℤ_iff}
use cgproxy.Constants.{pid_lock_file, success, exit_failure}
use cgproxy.Effect.{
  M, ◌>>=◌, >>=-eq-returned, returned-injective, returned, raised, exited, json_parse_error,
}
use cgproxy.System.{Os}
use cgproxy.Json.{Json}
use cgproxy.Config.Load.{Host, load_from_file, load_from_json_str, validate_json_str}
use cgproxy.Config.Load.Status.{load_from_file_unchanged}
use cgproxy.Daemon.Messages.{Install, on_sys}
use cgproxy.Daemon.Life.{
  Flags, is_option, set_flags, process_args, Threads, lock, stop, start_locked, start, main,
}

-- Arguments behind the first that is no option are not read: they belong to the command.
process_args_stops :
    (opts : List Bytes) (cmd : Bytes) (rest : List Bytes) (f : Flags)
    → is_option cmd ≡ false
    → process_args (opts ++ cmd ∷ rest) f ≡ process_args (opts ++ cmd ∷ []) f
unfolding process_args
process_args_stops [] cmd rest f h = rw h refl
process_args_stops (o ∷ opts) cmd rest f h =
    rw (process_args_stops opts cmd rest (set_flags o f) h) refl

module _ (os : Os) (json : Json) (env : Install) (f : Flags) (t : Threads) (h : Host os.State) where
  -- Without `--help` and root the daemon exits with 1 and has done nothing.
  main_no_root :
      f.print_help ≡ false → os.getuid h.sys ≢ 0 → main os json env f t h ≡ (exited exit_failure, h)
  unfolding main
  main_no_root nh nr = ground arith

  -- A daemon that is root and does not get the lock exits with 1: it has opened the file and tried
  -- to lock it, and has neither run the script nor removed the file of the first one.
  main_second :
      {fd : ℤ} {opened locked : os.State}
      → f.print_help ≡ false
      → os.getuid h.sys ≡ 0
      → os.open_file pid_lock_file h.sys ≡ (fd, opened)
      → os.flock fd opened ≡ (false, locked)
      → main os json env f t h ≡ (exited exit_failure, record h { sys = locked })
  unfolding main start lock
  main_second nh r e l = ground (arith, ap (λ p. os.flock p.0 p.1) e ∙ l)

  -- A daemon that has the lock, but does not load its configuration, answers -1 after it has run
  -- the clean script and released the lock; the start script is not run.
  main_bad_config :
      (fd n : ℤ) (s : os.State)
      → f.print_help ≡ false
      → os.getuid h.sys ≡ 0
      → lock os h.sys ≡ (returned fd, s)
      → (load_from_file os json env.default_config_file (record h { sys = s })).0 ≡ returned n
      → n ≢ success
      → main os json env f t h ≡ (returned (negsuc 0), record h { sys = stop os env fd s })
  unfolding main start start_locked
  main_bad_config fd n s nh r l e ne = ground (
    arith,
    eq_ℤ_iff n success,
    load_from_file_unchanged os json env.default_config_file (record h { sys = s }),
  )

  -- A daemon that is run as root without --help, gets the lock and finds a text in its
  -- configuration file that is no JSON ends with an exception that nothing catches: it has neither
  -- answered -1, nor run the clean script, nor removed the lock file.
  main_not_json :
      {fd : ℤ} {s : os.State} {text : Bytes}
      → f.print_help ≡ false
      → os.getuid h.sys ≡ 0
      → lock os h.sys ≡ (returned fd, s)
      → os.read_file env.default_config_file s ≡ some text
      → json.parse text ≡ none
      → main os json env f t h ≡ (raised json_parse_error, record h { sys = s })
  unfolding main start start_locked load_from_file load_from_json_str validate_json_str
  main_not_json nh r l file bad = ground arith

  start-locked :
      {out : ℤ × ℤ}
      → (start os json env f t h).0 ≡ returned out
      → (lock os h.sys).0 ≡ returned out.0
  unfolding start
  start-locked ok =
      let (fd, got, later) = >>=-eq-returned (on_sys os (lock os)) _ h ok in
      let (res, _, same) =
        >>=-eq-returned (start_locked os json env f t) _ (on_sys os (lock os) h).1 later in
      got ∙ ap (λ (o : ℤ × ℤ). returned o.0) (returned-injective same)

  abbrev finish : ℤ × ℤ → M (Host os.State) ℤ
  finish out g = (returned out.1, record g { sys = stop os env out.0 g.sys })

  main-start :
      f.print_help ≡ false
      → os.getuid h.sys ≡ 0
      → main os json env f t h ≡ (start os json env f t >>= finish) h
  unfolding main
  main-start run root = ground arith

  -- A daemon that returns has had the lock, and has run the clean script and released the lock at the
  -- end.
  main-stops :
      {n : ℤ}
      → f.print_help ≡ false
      → os.getuid h.sys ≡ 0
      → (main os json env f t h).0 ≡ returned n
      → (fd : ℤ) × (s : os.State) × ((lock os h.sys).0 ≡ returned fd)
        × ((main os json env f t h).1.sys ≡ stop os env fd s)
  main-stops run root ok =
      let same = main-start run root in
      let (out, e, _) =
        >>=-eq-returned (start os json env f t) finish h (sym (ap (λ r. r.0) same) ∙ ok) in
      (out.0, (start os json env f t h).1.sys, start-locked e, rw (same, e) refl)
