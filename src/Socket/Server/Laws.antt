-- ===== src/Socket/Server/Laws.antt =====
-- What one round and many rounds of the server do.
use cgproxy.Base.{
  ◌+◌, ◌<◌, true, if◌then◌else◌, ◌⊎◌, Option, none, some, List, [], ◌∷◌, Bytes, length, drop,
  take-append_length, ◌≡◌, ◌≢◌, refl, arith, ◌∙◌, ap, Option-cases, inl, inr, if-ind,
}
use cgproxy.Base.Int.{ℤ, pos, eq_ℤ_iff}
use cgproxy.Constants.{error}
use cgproxy.Effect.{M, Outcome, returned, Returns, >>=-keeps, killed, sigpipe, sigsegv}
use cgproxy.Socket.{Net}
use cgproxy.Base.Word.{IsInt}
use cgproxy.Socket.Wire.{
  sizeof_int, int_bytes, IsText, c_string, c_string_of_IsText, bytes_int-int_bytes,
  overlay-int_bytes,
}
use cgproxy.Socket.Server.{
  Stale, State, allocates, buffer_text, answer, receive_text, receive_length, round, rounds,
}

buffer_text-whole : (msg stale : Bytes) → IsText msg → buffer_text (length msg) msg stale ≡ msg
unfolding buffer_text
buffer_text-whole msg stale h =
    ap c_string (take-append_length msg (drop (length msg) stale)) ∙ c_string_of_IsText msg h

module _ (net : Net) {D : Type 0} (callback : Bytes → M D ℤ) where
  module _ (stale : Stale) (v : State net callback) where
    abbrev pub accepted : ℤ × net.State
    accepted = net.accept v.sfd (net.close v.cfd v.net)

    abbrev pub length_read : Option Bytes × net.State
    length_read = net.read accepted.0 sizeof_int accepted.1

    abbrev pub text_read : ℤ → Option Bytes × net.State
    text_read n = net.read accepted.0 n length_read.1

    -- The state of the network before the write.
    abbrev pub heard : ℤ → net.State
    heard n = (text_read n).1

    -- A message of a client that is shorter than the largest int and has no NUL, delivered in two
    -- whole reads into a buffer that malloc has given, arrives whole: the callback sees exactly the
    -- text, the status goes back, and every buffer is freed; the loop goes on unless the client has
    -- closed its end before, where the write ends the daemon by SIGPIPE.
    pub round_delivers :
        (msg : Bytes) {status : ℤ} {d : D}
        → accepted.0 ≢ error
        → stale.granted ≡ true
        → IsText msg
        → length msg < 2147483647
        → length_read.0 ≡ some (int_bytes (pos (length msg)))
        → (text_read (pos (length msg))).0 ≡ some msg
        → callback msg v.daemon ≡ (returned status, d)
        → round net callback stale v ≡ (
          if net.hung_up accepted.0 (heard (pos (length msg))) then killed sigpipe else returned tt,
          record v {
            cfd = accepted.0;
            net = (net.write accepted.0 (int_bytes status) (heard (pos (length msg)))).1;
            daemon = d;
          },
        )
    unfolding round receive_length receive_text answer
    round_delivers msg ne room text int l t c = ground (
      arith,
      eq_ℤ_iff accepted.0 error,
      overlay-int_bytes (pos (length msg)) stale.len_bytes,
      bytes_int-int_bytes (pos (length msg)) (omega (arith, int)),
      buffer_text-whole msg stale.buffer text,
    )

    -- A round whose read of the text fails keeps the buffer that it allocated, if any, and leaves the
    -- state of the callback alone.
    pub round_leaks :
        (n : ℤ)
        → accepted.0 ≢ error
        → IsInt n
        → length_read.0 ≡ some (int_bytes n)
        → (text_read n).0 ≡ none
        → ((round net callback stale v).1.live ≡ (if allocates stale n then v.live + 1 else v.live))
          × ((round net callback stale v).1.daemon ≡ v.daemon)
    unfolding round receive_length receive_text
    round_leaks n ne int l t = ground (
      arith,
      eq_ℤ_iff accepted.0 error,
      overlay-int_bytes n stale.len_bytes,
      bytes_int-int_bytes n int,
    )

  module _ (P : D → Type 0) (keeps : (t : Bytes) (d : D) → P d → P (callback t d).1) where
    answer-keeps :
        (t : Bytes) (v : State net callback) → P v.daemon → P (answer net callback t v).1.daemon
    unfolding answer
    answer-keeps t v p = ground (arith, keeps t v.daemon p)

    receive_text-keeps :
        (stale : Stale) (n : ℤ) (v : State net callback)
        → P v.daemon
        → P (receive_text net callback stale n v).1.daemon
    unfolding receive_text
    receive_text-keeps stale n v p = elim (Option-cases (net.read v.cfd n v.net).0) [
      | inl failed ↦ rw (failed, receive_text) p
      | inr (bs, ok) ↦
          rw (ok, receive_text)
            (if-ind (λ (r : Outcome (Unit {0}) × State net callback). P r.1.daemon) _ _ _
              (answer-keeps _ _ p) p)
    ]

    receive_length-keeps :
        (stale : Stale) (v : State net callback)
        → P v.daemon
        → P (receive_length net callback stale v).1.daemon
    unfolding receive_length
    receive_length-keeps stale v p = elim (Option-cases (net.read v.cfd sizeof_int v.net).0) [
      | inl failed ↦ rw (failed, receive_length) p
      | inr (bs, ok) ↦ rw (ok, receive_length) (receive_text-keeps stale _ _ p)
    ]

    round-keeps :
        (stale : Stale) (v : State net callback)
        → P v.daemon
        → P (round net callback stale v).1.daemon
    unfolding round
    round-keeps stale v p =
        if-ind (λ (r : Outcome (Unit {0}) × State net callback). P r.1.daemon) _ _ _ p
          (receive_length-keeps stale _ p)

    -- What every call of the callback keeps is kept by any number of rounds, whatever clients connect
    -- and whatever calls of the kernel fail.
    pub rounds-keeps :
        (stales : List Stale) (v : State net callback)
        → P v.daemon
        → P (rounds net callback stales v).1.daemon
    unfolding rounds
    rounds-keeps [] v p = p
    rounds-keeps (stale ∷ stales) v p =
        >>=-keeps (λ (w : State net callback). P w.daemon) (round net callback stale)
          (λ _. rounds net callback stales) v (round-keeps stale v p)
          (λ _ t q. rounds-keeps stales t q)

  -- How the thread can end: not at all, by SIGPIPE, or where a text is read with no buffer for it.
  abbrev pub EndsBySignal : {A : Type 0} → Outcome A × State net callback → Type 0
  EndsBySignal {A} r =
      ((a : A) × (r.0 ≡ returned a)) ⊎ ((r.0 ≡ killed sigpipe) ⊎ (r.0 ≡ killed sigsegv))

  module _ (answers : (t : Bytes) (d : D) → Returns (callback t d)) where
    answer-EndsBySignal :
        (t : Bytes) (v : State net callback) → EndsBySignal (answer net callback t v)
    unfolding answer
    answer-EndsBySignal t v =
        let (status, e) = answers t v.daemon in
        rw e (
          if-ind
            (λ (o : Outcome (Unit {0})).
              ((a : Unit {0}) × (o ≡ returned a)) ⊎ ((o ≡ killed sigpipe) ⊎ (o ≡ killed sigsegv)))
            _ _ _ (inr (inl refl)) (inl (tt, refl)))

    receive_text-EndsBySignal :
        (stale : Stale) (n : ℤ) (v : State net callback)
        → EndsBySignal (receive_text net callback stale n v)
    unfolding receive_text
    receive_text-EndsBySignal stale n v = elim (Option-cases (net.read v.cfd n v.net).0) [
      | inl failed ↦ rw (failed, receive_text) (inl (tt, refl))
      | inr (bs, ok) ↦
          rw (ok, receive_text)
            (if-ind (λ (r : Outcome (Unit {0}) × State net callback). EndsBySignal r) _ _ _
              (answer-EndsBySignal _ _) (inr (inr refl)))
    ]

    receive_length-EndsBySignal :
        (stale : Stale) (v : State net callback)
        → EndsBySignal (receive_length net callback stale v)
    unfolding receive_length
    receive_length-EndsBySignal stale v = elim (Option-cases (net.read v.cfd sizeof_int v.net).0) [
      | inl failed ↦ rw (failed, receive_length) (inl (tt, refl))
      | inr (bs, ok) ↦ rw (ok, receive_length) (receive_text-EndsBySignal stale _ _)
    ]

    round-EndsBySignal :
        (stale : Stale) (v : State net callback) → EndsBySignal (round net callback stale v)
    unfolding round
    round-EndsBySignal stale v =
        if-ind (λ (r : Outcome (Unit {0}) × State net callback). EndsBySignal r) _ _ _
          (inl (tt, refl)) (receive_length-EndsBySignal stale _)

    -- No message ends the thread through an exception or an exit of the callback.
    pub rounds-EndsBySignal :
        (stales : List Stale) (v : State net callback) → EndsBySignal (rounds net callback stales v)
    unfolding rounds
    rounds-EndsBySignal [] v = inl (tt, refl)
    rounds-EndsBySignal (stale ∷ stales) v = elim (round-EndsBySignal stale v) [
      | inl (a, e) ↦ rw e (rounds-EndsBySignal stales (round net callback stale v).1)
      | inr (inl e) ↦ rw e (inr (inl refl))
      | inr (inr e) ↦ rw e (inr (inr refl))
    ]
