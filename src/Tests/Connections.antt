-- ===== src/Tests/Connections.antt =====
-- The two ends of the socket on a network of one connection.
use cgproxy.Base.{true, Option, some, List, [], ◌∷◌, Bytes, codes, ◌≡◌, refl, arith}
use cgproxy.Base.Int.{ℤ, pos, negsuc}
use cgproxy.Effect.{Outcome, returned}
use cgproxy.Socket.Wire.{int_bytes}
use cgproxy.Socket.Server.{Server, Stale, round}
use cgproxy.Socket.Server.Laws.{round_delivers}
use cgproxy.Tests.Nets.{Wire, wire, idle}

-- A callback that keeps the text that it was given.
abbrev keep : Bytes → Bytes → Outcome ℤ × Bytes
keep msg _ = (returned (pos 7), msg)

abbrev stale : Stale
stale = record { granted = true; len_bytes = codes "????"; buffer = codes "an old text" }

abbrev server : {D : Type 0} → List (Option Bytes) → D → Server Wire D
server inbox d = record { sfd = pos 3; cfd = negsuc 0; live = 0; net = idle inbox; daemon = d }

abbrev hello : Bytes
hello = codes "hi"

abbrev sending : List (Option Bytes)
sending = some (int_bytes (pos 2)) ∷ some hello ∷ []

round_delivers_example : round wire keep stale (server sending []) ≡ (
  returned tt,
  record (server [] hello) {
    cfd = pos 5;
    net = record (idle []) { outbox = int_bytes (pos 7) ∷ [] };
  },
)
round_delivers_example =
    round_delivers wire keep stale (server sending []) hello {status = pos 7} {d = hello} (λ e. cc)
      refl ((λ e. omega (arith, e)), ((λ e. omega (arith, e)), tt)) (omega arith) refl refl refl
