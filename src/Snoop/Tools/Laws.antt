-- ===== src/Snoop/Tools/Laws.antt =====
-- What the tools print.
use mathlib.Core.List.{append_assoc, append-nil}
use cgproxy.Base.{true, List, [], ◌∷◌, ◌++◌, map, ◌≡◌, refl, sym, ap, ◌∙◌}
use cgproxy.Base.Int.{ℤ}
use cgproxy.Effect.{returned}
use cgproxy.Snoop.Kernel.{Event}
use cgproxy.Snoop.Loop.{Setup, is_ok}
use cgproxy.Snoop.Tools.{
  Poll, handled, failed, Screen, event_line, print_event, print_events, poll_until_failure, watch,
  libbpf_main,
}

abbrev all_events : List (List Event) → List Event
all_events [] = []
all_events (es ∷ ess) = es ++ all_events ess

map-append :
    (xs ys : List Event) → map event_line (xs ++ ys) ≡ map event_line xs ++ map event_line ys
map-append [] ys = refl
map-append (x ∷ xs) ys = ap (◌∷◌ (event_line x)) (map-append xs ys)

print_events-map :
    (es : List Event) (s : Screen)
    → print_events es s ≡ record s { printed = s.printed ++ map event_line es }
unfolding print_events print_event
print_events-map [] s = rw append-nil refl
print_events-map (e ∷ es) s = rw (print_events-map es (print_event e s)) (rw append_assoc refl)

poll_until_failure-prints :
    (ess : List (List Event)) (err : ℤ) (rest : List Poll) (s : Screen)
    → poll_until_failure (map handled ess ++ failed err ∷ rest) s ≡ (
      returned err,
      record { printed = s.printed ++ map event_line (all_events ess); killed = true },
    )
unfolding poll_until_failure
poll_until_failure-prints [] err rest s = rw append-nil refl
poll_until_failure-prints (es ∷ ess) err rest s =
    poll_until_failure-prints ess err rest (print_events es s)
    ∙ ap (λ l. (returned err, record { printed = l; killed = true }))
        (ap (λ (v : Screen). v.printed ++ map event_line (all_events ess)) (print_events-map es s)
          ∙ append_assoc s.printed (map event_line es) (map event_line (all_events ess))
          ∙ ap (s.printed ++◌) (sym (map-append es (all_events ess))))

-- Where all calls before the polls succeed, the tool prints the events of all polls before the
-- first that fails, in their order, signals the group, and returns the error.
libbpf_main-prints :
    (setup : Setup) (new_err err : ℤ) (ess : List (List Event)) (rest : List Poll) (s : Screen)
    → (is_ok setup.rlimit_err ≡ true) × (setup.loaded ≡ true) × (is_ok setup.attach_err ≡ true)
    → is_ok new_err ≡ true
    → libbpf_main setup new_err (map handled ess ++ failed err ∷ rest) s ≡ (
      returned err,
      record { printed = s.printed ++ map event_line (all_events ess); killed = true },
    )
unfolding libbpf_main watch
libbpf_main-prints setup new_err err ess rest s (r, l, a) n =
    rw (r, l, a, n) (poll_until_failure-prints ess err rest s)
