-- ===== src/Daemon/Interleave/Window.antt =====
-- The time between the assignment of the program lists and the look-up of their names.
use cgproxy.Base.{
  Bool, true, false, none, some, List, [], ◌∷◌, ◌++◌, Bytes, contains, replicate, ◌≡◌, refl,
}
use cgproxy.Base.Int.{ℤ, pos}
use cgproxy.Effect.{returned}
use cgproxy.System.{Os}
use cgproxy.Json.{Json}
use cgproxy.Config.{Config}
use cgproxy.Config.Load.{assign_all}
use cgproxy.Daemon.Place.{exe_link}
use cgproxy.Daemon.Interleave.{done, handler_step, writes, finishing}
use cgproxy.Daemon.Interleave.Mixed.{
  Shared, loader_step, handled, loads, handles, Reach, here, after, begin, run_schedule,
}

module _ (os : Os) (pid : ℤ) where
  open os use {State}

  then_on : {x y z : Shared os} → Reach os pid x y → Reach os pid y z → Reach os pid x z
  then_on r here = r
  then_on r (after q s) = after (then_on r q) s

  -- Every schedule is a way in which the steps can be mixed.
  pub run_schedule-Reach :
      (bs : List Bool) (x : Shared os) → Reach os pid x (run_schedule os pid bs x)
  unfolding run_schedule
  run_schedule-Reach [] x = here
  run_schedule-Reach (true ∷ bs) x =
      then_on (after here (loads x)) (run_schedule-Reach bs (loader_step os x))
  run_schedule-Reach (false ∷ bs) x =
      then_on (after here (handles x)) (run_schedule-Reach bs (handled os pid x))

  -- The socket thread assigns the fourteen fields, then the execsnoop thread handles the process.
  abbrev pub between : List Bool
  between = replicate 14 true ++ replicate 3 false

  schedule_misses :
      (json : Json) (j : json.Value) (c : Config) (s : State) {path : Bytes}
      → os.realpath (exe_link os pid) s ≡ some path
      → contains path (assign_all json j c).program_noproxy ≡ false
      → contains path (assign_all json j c).program_proxy ≡ false
      → let x = run_schedule os pid between (begin os (writes os json j) c s) in
        (x.handler ≡ done none (returned (pos 0))) × (x.now.sys ≡ s) × (x.pending ≡ finishing os)
  unfolding run_schedule loader_step handled handler_step writes assign_all
  schedule_misses json j c s runs no_first no_second =
      rw (runs, no_first, no_second) (refl, refl, refl)

  -- A process whose executable is in neither program list as the loaded text writes them is left
  -- alone when its event comes between the assignment of the fields and the look-up of the
  -- programs, whatever the configuration was before and will be: the two threads can reach that
  -- state.
  pub run_schedule_misses :
      (json : Json) (j : json.Value) (c : Config) (s : State) {path : Bytes}
      → os.realpath (exe_link os pid) s ≡ some path
      → contains path (assign_all json j c).program_noproxy ≡ false
      → contains path (assign_all json j c).program_proxy ≡ false
      → let x = run_schedule os pid between (begin os (writes os json j) c s) in
        Reach os pid (begin os (writes os json j) c s) x
        × (x.handler ≡ done none (returned (pos 0)))
        × (x.now.sys ≡ s)
        × (x.pending ≡ finishing os)
  run_schedule_misses json j c s runs no_first no_second =
      let (answer, same, rest) = schedule_misses json j c s runs no_first no_second in
      (run_schedule-Reach between (begin os (writes os json j) c s), answer, same, rest)
