-- ===== src/Daemon/Interleave/Mixed.antt =====
-- The state that the two threads of src/cgproxyd.hpp share, their steps, and what they reach.
use cgproxy.Base.{Bool, true, false, List, [], ◌∷◌}
use cgproxy.Base.Int.{ℤ}
use cgproxy.Effect.{Outcome, returned}
use cgproxy.System.{Os}
use cgproxy.Config.{Config}
use cgproxy.Daemon.Interleave.{Handler, opening, handler_step, Write}

module _ (os : Os) where
  open os use {State}

  -- What both threads see at a moment.
  pub record Moment : Type 0 where
    pub config : Config
    pub sys : State

  -- Both threads, what they see now, and the moments up to now, the last one first.
  pub record Shared : Type 0 where
    pub handler : Handler
    pub pending : List (Write os)
    pub now : Moment
    pub past : List Moment

  -- The next moment.
  abbrev pub turn : Config → State → Shared → Shared
  turn c s x =
      let m : Moment = record { config = c; sys = s } in record x { now = m; past = m ∷ x.past }

  abbrev pub stored : Outcome Config → State → List (Write os) → Shared → Shared
  stored (returned c) s ws x = turn c s (record x { pending = ws })
  stored _ s ws x = turn x.now.config s (record x { pending = [] })

  -- The next assignment; an exception leaves the loading.
  unfoldable pub loader_step : Shared → Shared
  loader_step x = elim x.pending [
    | [] ↦ x
    | w ∷ ws ↦ stored (w x.now.config x.now.sys).0 (w x.now.config x.now.sys).1 ws x
  ]

  unfoldable pub handled : ℤ → Shared → Shared
  handled pid x =
      let out = handler_step os pid x.handler x.now.config x.now.sys in
      turn x.now.config out.1 (record x { handler = out.0 })

  pub data Step (pid : ℤ) : Shared → Shared → Type 0 where
    loads : (x : Shared) → Step pid x (loader_step x)
    handles : (x : Shared) → Step pid x (handled pid x)

  pub data Reach (pid : ℤ) (x : Shared) : Shared → Type 0 where
    here : Reach pid x x
    after : {y z : Shared} → Reach pid x y → Step pid y z → Reach pid x z

  -- The moment at which the execsnoop thread enters `handle_pid`.
  abbrev pub begin : List (Write os) → Config → State → Shared
  begin ws c s =
      let m : Moment = record { config = c; sys = s } in
      record { handler = opening; pending = ws; now = m; past = m ∷ [] }

  -- A schedule: `true` is a step of the socket thread.
  unfoldable pub run_schedule : ℤ → List Bool → Shared → Shared
  unfolding loader_step handled
  run_schedule pid [] x = x
  run_schedule pid (true ∷ bs) x = run_schedule pid bs (loader_step x)
  run_schedule pid (false ∷ bs) x = run_schedule pid bs (handled pid x)
