-- ===== src/Tests/Nets.antt =====
-- A network that is one connection: what is still to be read, and what was written.
use cgproxy.Base.{
  Bool, true, false, Option, none, some, List, [], ◌∷◌, ◌++◌, Bytes, codes, length, ◌<◌, ◌≡◌, refl,
  sym, ap, ◌∙◌,
}
use cgproxy.Base.Int.{ℤ, pos, negsuc}
use cgproxy.Socket.{Net}
use cgproxy.Socket.Wire.{int_bytes, c_string_of_IsText, IsText}
use cgproxy.Socket.Server.{Server, Stale, round}
use cgproxy.Socket.Server.Laws.{round_delivers}
use cgproxy.Effect.{returned}
use cgproxy.System.{Os}
use cgproxy.Json.{Json}
use cgproxy.Config.Load.{Host}
use cgproxy.Daemon.Messages.{Install}
use cgproxy.Service.{callback}
use cgproxy.Service.Conversation.{Ends, Carries}

pub record Wire : Type 0 where
  pub inbox : List (Option Bytes)
  pub outbox : List Bytes
  pub connects : Bool

abbrev first : List (Option Bytes) → Option Bytes
first [] = none
first (r ∷ _) = r

abbrev rest : List (Option Bytes) → List (Option Bytes)
rest [] = []
rest (_ ∷ rs) = rs

abbrev pub wire : Net
wire = record {
  State = Wire;
  socket = λ w. (pos 4, w);
  connect = λ _ w. (w.connects, w);
  write = λ _ bs w. (true, record w { outbox = w.outbox ++ bs ∷ [] });
  hung_up = λ _ _. false;
  read = λ _ _ w. (first w.inbox, record w { inbox = rest w.inbox });
  close = λ _ w. w;
  path_exists = λ _ w. true;
  unlink = λ _ w. (true, w);
  bind = λ _ _ w. w;
  listen = λ _ _ w. w;
  chmod_all = λ _ w. w;
  accept = λ _ w. (pos 5, w);
}

abbrev pub idle : List (Option Bytes) → Wire
idle inbox = record { inbox = inbox; outbox = []; connects = true }

abbrev pub wires : Ends wire wire
wires = record {
  near_out = λ w. w.outbox;
  far_out = λ w. w.outbox;
  near_writes = λ fd bs w e. refl;
  far_writes = λ fd bs w e. refl;
  far_reads = λ fd count w. refl;
}

first_of : {a b : Bytes} → a ∷ [] ≡ b ∷ [] → a ≡ b
first_of e = cc

-- A daemon with a client that sends the message.
abbrev pub asking : {D : Type 0} → Bytes → D → Server Wire D
asking msg d = record {
  sfd = pos 3;
  cfd = negsuc 0;
  live = 0;
  net = idle (some (int_bytes (pos (length msg))) ∷ some msg ∷ []);
  daemon = d;
}

abbrev pub stale : Stale
stale = record { granted = true; len_bytes = codes "????"; buffer = codes "an old text" }

second_of : {a b c d : Bytes} → a ∷ b ∷ [] ≡ c ∷ d ∷ [] → (a ≡ c) × (b ≡ d)
second_of e = (cc, cc)

-- The connection to a client whose end delivers the status with which the daemon answers.
pub wire-Carries :
    (os : Os) (json : Json) (env : Install) (msg : Bytes) (h : Host os.State) {status : ℤ}
    {d : Host os.State}
    → IsText msg
    → length msg < 2147483647
    → callback os json env wire msg h ≡ (returned status, d)
    → Carries os json env wire wire wires msg
        (idle (some (int_bytes status) ∷ []))
        stale
        (asking msg h)
wire-Carries os json env msg h {status} text int handled =
    let told : (round wire (callback os json env wire) stale (asking msg h)).1.net.outbox
        ≡ int_bytes status ∷ [] =
      ap (λ r. r.1.net.outbox)
        (round_delivers wire (callback os json env wire) stale (asking msg h) msg (λ e. cc) refl
          text int refl refl handled) in
    record {
      sent = (refl, refl, refl, refl);
      near_fresh = refl;
      taken = λ e. cc;
      granted = refl;
      far_fresh = refl;
      carried = λ a b e four.
          let both = second_of (
            ap (λ m. int_bytes (pos (length m)) ∷ m ∷ []) (sym (c_string_of_IsText msg text))
            ∙ e) in
          (ap some both.0, ap some both.1);
      open_end = λ n. refl;
      writes_back = λ n bs. refl;
      carried_back = λ c e four. ap some (first_of (sym told ∙ e));
    }
