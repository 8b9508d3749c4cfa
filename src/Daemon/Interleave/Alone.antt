-- ===== src/Daemon/Interleave/Alone.antt =====
-- Each thread without the other: the steps are those of `handle_pid` and of `loadFromJsonStr`.
use cgproxy.Base.{ℕ, zero, suc, Option, none, some, List, [], ◌∷◌, ◌≡◌, refl, arith}
use cgproxy.Base.Int.{ℤ}
use cgproxy.Effect.{M, ◌>>=◌, ret, Outcome}
use cgproxy.System.{Os}
use cgproxy.Json.{Json}
use cgproxy.Config.{Config, merge, merge_reserved}
use cgproxy.Config.Load.{assign_all, finish_load, to_real_program_path}
use cgproxy.Config.Load.Status.{to_real_program_path-Returns}
use cgproxy.Daemon.Place.{settle, place, place_listed, place_last, place_by_path, handle_pid}
use cgproxy.Daemon.Interleave.{Handler, opening, done, handler_step, Write, writes, finishing}

module _ (os : Os) where
  open os use {State}

  -- So many steps of the execsnoop thread.
  pub handler_steps : ℕ → ℤ → Config → Handler → State → Handler × State
  handler_steps zero pid c p s = (p, s)
  handler_steps (suc n) pid c p s =
      let out = handler_step os pid p c s in handler_steps n pid c out.0 out.1

  -- The answer of `handle_pid`, once it has one.
  abbrev pub answered : Handler × State → Option (Outcome ℤ × State)
  answered (done m o, s) = some (o, s)
  answered _ = none

  -- Nine steps of the execsnoop thread on a configuration that does not change finish, with the
  -- answer and the state of the system that handle_pid gives.
  handler_steps-handle_pid :
      (pid : ℤ) (c : Config) (s : State)
      → answered (handler_steps 9 pid c opening s) ≡ some (handle_pid os c pid s)
  unfolding handler_steps handler_step handle_pid place_by_path place_last place_listed place settle
  handler_steps-handle_pid pid c s = ground arith

  -- All assignments one after the other.
  pub run_writes : List (Write os) → Config → M State Config
  run_writes [] c = ret c
  run_writes (w ∷ ws) c = do d ← w c; run_writes ws d

  -- The single assignments of the socket thread, one after the other, give what the load gives: the
  -- fields of the text, the programs resolved and the reserved cgroups merged, with the same
  -- outcome and the same state of the system.
  run_writes-writes :
      (json : Json) (j : json.Value) (c : Config) (s : State)
      → run_writes (writes os json j) c s ≡ finish_load os (assign_all json j c) s
  unfolding run_writes writes finishing finish_load assign_all merge_reserved merge
  run_writes-writes json j c s =
      let d = assign_all json j c in
      let (v, e) = to_real_program_path-Returns os d.program_noproxy s in
      let t = (to_real_program_path os d.program_noproxy s).1 in
      let (u, f) = to_real_program_path-Returns os d.program_proxy t in rw (e, f) refl
