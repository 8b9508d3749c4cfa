-- ===== src/Script/Rounds.antt =====
-- A run of the script that starts, and one that stops.
use mathlib.Core.Path.{subst}
use cgproxy.Base.{
  Bool, true, false, List, [], ◌∷◌, ◌++◌, Bytes, if◌then◌else◌, ◌≡◌, refl, sym, ap, ◌∙◌, arith,
  Bool-cases, inl, inr,
}
use cgproxy.Script.Env.{Variables}
use cgproxy.Script.{Family, ipv4, tproxy_ent, umount, start, stop}
use cgproxy.Script.Tables.{Tables, Kernel, run_all, chain, effect, effects, Obeys, run_all-effects}
use cgproxy.Script.Main.{
  Shell, Argument, stop_word, is_there, first_cgroup, and_then, ready_mount_point, ready_dir,
  prepare, filtered, started_from, stop_all, run_arguments, script,
}
use cgproxy.Script.Stopped.{IsFree}
use cgproxy.Script.Laws.{stop-start, start-is_there}

-- Directories and mounts are no rules.
abbrev pub KeepsTables : (k : Kernel) → Shell k → Type 0
KeepsTables k sh =
    ((f : Family) (path : Bytes) (s : k.State) → k.tables f (sh.mkdir_p path s) ≡ k.tables f s)
    × ((f : Family) (path : Bytes) (s : k.State) → k.tables f (sh.mkdir path s).1 ≡ k.tables f s)
    × ((f : Family) (path : Bytes) (s : k.State)
        → k.tables f (sh.mount_cgroup2 path s) ≡ k.tables f s)

module _ (k : Kernel) (sh : Shell k) (obeys : Obeys k) (keeps : KeepsTables k sh) where
  open k use {State, tables}

  and_then-tables :
      (f : Family) (r : Bool × State) (next : State → Bool × State)
      → ((s : State) → tables f (next s).1 ≡ tables f s)
      → tables f (and_then k sh r next).1 ≡ tables f r.1
  unfolding and_then
  and_then-tables f (true, s) next h = h s
  and_then-tables f (false, s) next h = refl

  ready_mount_point-tables :
      (f : Family) (mp : Bytes) (s : State) → tables f (ready_mount_point k sh mp s).1 ≡ tables f s
  unfolding ready_mount_point
  ready_mount_point-tables f mp s =
      let (made, _, mounted) = keeps in
      let s1 : State = if sh.is_dir mp s then s else sh.mkdir_p mp s in
      ground (arith, made f mp s, mounted f mp s1)

  ready_dir-tables :
      (f : Family) (path : Bytes) (s : State) → tables f (ready_dir k sh path s).1 ≡ tables f s
  unfolding ready_dir
  ready_dir-tables f path s = let (_, made, _) = keeps in ground (arith, made f path s)

  prepare-tables :
      (f : Family) (v : Variables) (s : State) → tables f (prepare k sh v s).1 ≡ tables f s
  unfolding prepare
  prepare-tables f v s =
      let mp = v.cgroup_mount_point in
      and_then-tables f (ready_mount_point k sh mp s) _ (λ s1.
        and_then-tables f (ready_dir k sh (mp ++ first_cgroup v.cgroup_proxy) s1) _
          (λ s2. ready_dir-tables f (mp ++ first_cgroup v.cgroup_noproxy) s2)
        ∙ ready_dir-tables f (mp ++ first_cgroup v.cgroup_proxy) s1)
      ∙ ready_mount_point-tables f mp s

  umount-tables :
      (f : Family) (mp : Bytes) (s : State) → tables f (k.run (umount mp) s) ≡ tables f s
  unfolding effect
  umount-tables f mp s = obeys f (umount mp) s

  stop_all-tables :
      (f : Family) (v : Variables) (s : State)
      → tables f (stop_all k sh v s)
        ≡ tables f (run_all k (stop (is_there (chain tproxy_ent (tables ipv4 s))) v) s)
  unfolding stop_all
  stop_all-tables f v s =
      let there = is_there (chain tproxy_ent (tables ipv4 s)) in
      let s1 : State = run_all k (stop there v) s in
      ground (arith, umount-tables f v.cgroup_mount_point s1)

  script-root :
      (args : List Argument) (v : Variables) (s : State)
      → sh.is_root ≡ true
      → script k sh args v s ≡ run_arguments k sh args v s
  unfolding script
  script-root args v s root = ap (λ b. if b then run_arguments k sh args v s else (255, s)) root

  -- What a run with `stop` does to the tables.
  pub stop-tables :
      (f : Family) (v : Variables) (s : State)
      → sh.is_root ≡ true
      → tables f (script k sh (stop_word ∷ []) v s).1
        ≡ effects f (stop (is_there (tables ipv4 s).ent) v) (tables f s)
  unfolding run_arguments chain
  stop-tables f v s root =
      ap (λ r. tables f r.1) (script-root (stop_word ∷ []) v s root)
      ∙ stop_all-tables f v s
      ∙ run_all-effects k obeys f (stop (is_there (tables ipv4 s).ent) v) s

  -- The tables are there again once the chains are gone.
  restored :
      (f : Family) (v : Variables) (s : State) (r : Bool × State)
      → ((g : Family) → IsFree g v (tables g s))
      → ((g : Family) → tables g r.1 ≡ tables g s)
      → tables f (stop_all k sh v (started_from k sh v r).1) ≡ tables f s
  unfolding started_from filtered stop chain
  restored f v s (true, s1) free same =
      let v1 : Variables = filtered k sh v s1 in
      let free1 : (g : Family) → IsFree g v1 (tables g s1) =
        (λ g. subst (λ t. IsFree g v t) (sym (same g)) (free g)) in
      let s2 : State = run_all k (start v1) s1 in
      stop_all-tables f v s2
      ∙ ap (λ there. tables f (run_all k (stop there v) s2)) (start-is_there k obeys v1 s1 free1)
      ∙ stop-start k obeys v1 s1 free1 f
      ∙ same f
  restored f v s (false, s1) free same =
      let absent : is_there (chain tproxy_ent (tables ipv4 s1)) ≡ false =
        let (_, gone, _, _, _, _, _, _, _, _, _, _) = free ipv4 in
        ap (λ (t : Tables). is_there t.ent) (same ipv4) ∙ ap is_there gone in
      stop_all-tables f v s1 ∙ ap (λ there. tables f (run_all k (stop there v) s1)) absent ∙ same f

  script-user :
      (args : List Argument) (v : Variables) (s : State)
      → sh.is_root ≡ false
      → script k sh args v s ≡ (255, s)
  unfolding script
  script-user args v s user = ap (λ b. if b then run_arguments k sh args v s else (255, s)) user

  -- Whatever the script cgroup-tproxy.sh does when it is run without arguments, the run with stop
  -- that follows, on the same variables, brings the rules of iptables and of policy routing back to
  -- what they were, for both families, if no rule jumped to a chain of the script before, no chain,
  -- masquerading rule, policy or route of the script was there, the commands do what their manuals
  -- say, and directories and mounts are made without touching the rules.
  pub script-restores :
      (f : Family) (v : Variables) (s : State)
      → ((g : Family) → IsFree g v (tables g s))
      → tables f (script k sh (stop_word ∷ []) v (script k sh [] v s).1).1 ≡ tables f s
  unfolding run_arguments
  script-restores f v s free = elim (Bool-cases sh.is_root) [
    | inl root ↦
        let s1 : State = (script k sh [] v s).1 in
        ap (λ r. tables f r.1) (script-root (stop_word ∷ []) v s1 root)
        ∙ ap (λ r. tables f (stop_all k sh v r.1)) (script-root [] v s root)
        ∙ restored f v s (prepare k sh v s) free (λ g. prepare-tables g v s)
    | inr user ↦
        let s1 : State = (script k sh [] v s).1 in
        ap (λ r. tables f r.1) (script-user (stop_word ∷ []) v s1 user)
        ∙ ap (λ r. tables f r.1) (script-user [] v s user)
  ]
