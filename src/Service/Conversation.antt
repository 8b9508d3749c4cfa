-- ===== src/Service/Conversation.antt =====
-- The client of src/cgproxy.hpp and the daemon of src/cgproxyd.hpp over the two ends of a connection.
use mathlib.Core.Path.{subst}
use cgproxy.Base.{
  sym, Bool, true, false, some, List, [], ◌∷◌, ◌++◌, ◌<◌, Bytes, length, if◌then◌else◌, ◌≡◌, ◌≢◌,
  refl, inl, inr, ◌∙◌, ap, arith,
}
use cgproxy.Base.Int.{ℤ, pos}
use cgproxy.Base.Decimal.{show_ℤ}
use cgproxy.Base.Word.{IsInt}
use cgproxy.Constants.{cgroup2_mount_point, cgroup_proxy_preserved, cgroup_noproxy_preserved, error}
use cgproxy.Effect.{Outcome, returned, returned-injective}
use cgproxy.System.{Os}
use cgproxy.Json.{Json, IsLawful}
use cgproxy.Attach.{attach_int}
use cgproxy.Attach.Laws.{attach-IsStatus}
use cgproxy.Config.Load.{Host}
use cgproxy.Daemon.Messages.{Install}
use cgproxy.Daemon.Messages.Branches.{answered}
use cgproxy.Socket.{Net}
use cgproxy.Socket.Wire.{sizeof_int, int_bytes, c_string, c_string_of_IsText, IsText}
use cgproxy.Socket.Client.{send}
use cgproxy.Socket.Client.Laws.{IsSent, connected, length_sent, text_sent, reply, send_replied}
use cgproxy.Socket.Server.{Server, Stale, round}
use cgproxy.Socket.Server.Laws.{accepted, length_read, text_read, heard, round_delivers}
use cgproxy.Command.{pid_message, World, send_pid}
use cgproxy.Command.Laws.{handle_msg-pid_message}
use cgproxy.Service.{callback}

-- What each end of the connection has written, call by call.
pub record Ends (near far : Net) : Type 0 where
  pub near_out : near.State → List Bytes
  pub far_out : far.State → List Bytes
  pub near_writes :
      (fd : ℤ) (bs : Bytes) (s : near.State)
      → (near.write fd bs s).0 ≡ true
      → near_out (near.write fd bs s).1 ≡ near_out s ++ bs ∷ []
  pub far_writes :
      (fd : ℤ) (bs : Bytes) (n : far.State)
      → (far.write fd bs n).0 ≡ true
      → far_out (far.write fd bs n).1 ≡ far_out n ++ bs ∷ []
  pub far_reads : (fd count : ℤ) (n : far.State) → far_out (far.read fd count n).1 ≡ far_out n

module _ (os : Os) (json : Json) (env : Install) (near far : Net) where
  abbrev pub Daemon : Type 0
  Daemon = Server far.State (Host os.State)

  -- The connection is made and stays open until the client is answered, and there is memory for the
  -- text. Either end reads the bytes that the other one has written, whatever they are, where it asks
  -- for as many as were written: the daemon those of two writes, and the client those of one.
  pub record Carries (ends : Ends near far) (msg : Bytes) (s : near.State) (stale : Stale)
      (v : Daemon) : Type 0 where
    pub sent : IsSent near msg s
    pub near_fresh : ends.near_out (connected near msg s).1 ≡ []
    pub taken : (accepted far (callback os json env far) stale v).0 ≢ error
    pub granted : stale.granted ≡ true
    pub far_fresh : ends.far_out (accepted far (callback os json env far) stale v).1 ≡ []
    pub carried :
        (a b : Bytes)
        → ends.near_out (text_sent near msg s).1 ≡ a ∷ b ∷ []
        → length a ≡ 4
        → ((length_read far (callback os json env far) stale v).0 ≡ some a)
          × ((text_read far (callback os json env far) stale v (pos (length b))).0 ≡ some b)
    pub open_end :
        (n : ℤ)
        → far.hung_up
            (accepted far (callback os json env far) stale v).0
            (heard far (callback os json env far) stale v n)
          ≡ false
    pub writes_back :
        (n : ℤ) (bs : Bytes)
        → (far.write
            (accepted far (callback os json env far) stale v).0
            bs
            (heard far (callback os json env far) stale v n)).0
          ≡ true
    pub carried_back :
        (c : Bytes)
        → ends.far_out (round far (callback os json env far) stale v).1.net ≡ c ∷ []
        → length c ≡ 4
        → (reply near msg s).0 ≡ some c

  length-int_bytes : (n : ℤ) → length (int_bytes n) ≡ 4
  unfolding int_bytes
  length-int_bytes n = refl

  -- The client writes the length and the text.
  near_written :
      (ends : Ends near far) (msg : Bytes) (s : near.State) (stale : Stale) (v : Daemon)
      → IsText msg
      → Carries ends msg s stale v
      → ends.near_out (text_sent near msg s).1 ≡ int_bytes (pos (length msg)) ∷ msg ∷ []
  near_written ends msg s stale v text c =
      let (_, l, t, _) = c.sent in
      let whole : c_string msg ≡ msg = c_string_of_IsText msg text in
      ends.near_writes _ (c_string msg) (length_sent near msg s).1 t
      ∙ ap (λ xs. xs ++ c_string msg ∷ [])
          (ends.near_writes _ (int_bytes (pos (length (c_string msg)))) (connected near msg s).1 l
            ∙ ap (λ xs. xs ++ int_bytes (pos (length (c_string msg))) ∷ []) c.near_fresh)
      ∙ ap (λ m. int_bytes (pos (length m)) ∷ m ∷ []) whole

  -- A client whose message the daemon answers with a status is left with that status, and the daemon is
  -- as the answer left it.
  pub exchange :
      (ends : Ends near far) (msg : Bytes) (s : near.State) (stale : Stale) (v : Daemon)
      {status : ℤ} {d : Host os.State}
      → IsText msg
      → length msg < 2147483647
      → Carries ends msg s stale v
      → callback os json env far msg v.daemon ≡ (returned status, d)
      → IsInt status
      → ((send near msg s).0 ≡ returned status)
        × ((round far (callback os json env far) stale v).1.daemon ≡ d)
        × ((round far (callback os json env far) stale v).1.live ≡ v.live)
  exchange ends msg s stale v {status} text int c handled small =
      let n : ℤ = pos (length msg) in
      let got =
        c.carried (int_bytes n) msg (near_written ends msg s stale v text c) (length-int_bytes n) in
      let done =
        round_delivers far (callback os json env far) stale v msg c.taken c.granted text int got.0
          got.1 handled in
      let out : ends.far_out (round far (callback os json env far) stale v).1.net
          ≡ int_bytes status ∷ [] =
        ap (λ r. ends.far_out r.1.net) done
        ∙ ends.far_writes _ (int_bytes status) _ (c.writes_back n (int_bytes status))
        ∙ ap (λ xs. xs ++ int_bytes status ∷ [])
            (ends.far_reads _ n _ ∙ ends.far_reads _ sizeof_int _ ∙ c.far_fresh) in
      let back : (reply near msg s).0 ≡ some (int_bytes status) =
        c.carried_back (int_bytes status) out (length-int_bytes status) in
      (
        ap (λ r. r.0) (send_replied near msg s status c.sent back small),
        ap (λ r. r.1.daemon) done,
        ap (λ r. r.1.live) done,
      )

  abbrev pub attached : Bool → ℤ → Daemon → Outcome ℤ × os.State
  attached proxied pid v =
      attach_int os cgroup2_mount_point pid
        (if proxied then cgroup_proxy_preserved else cgroup_noproxy_preserved) v.daemon.sys

  -- What `attach` returns fits an `int`.
  status-IsInt :
      (proxied : Bool) (pid : ℤ) (v : Daemon) {status : ℤ}
      → (attached proxied pid v).0 ≡ returned status
      → IsInt status
  unfolding attach_int
  status-IsInt proxied pid v {status} at =
      let cg = if proxied then cgroup_proxy_preserved else cgroup_noproxy_preserved in
      elim (attach-IsStatus os cgroup2_mount_point (show_ℤ pid) cg v.daemon.sys) [
        | inl done ↦ subst IsInt (returned-injective (sym done ∙ at)) (omega arith)
        | inr (inl failed) ↦ subst IsInt (returned-injective (sym failed ∙ at)) (omega arith)
        | inr (inr threw) ↦ cc
      ]

  send_pid-answer :
      (proxied : Bool) (pid : ℤ) (msg : Bytes) (w : World near.State os.State) {status : ℤ}
      → json.dump (pid_message json proxied pid) ≡ some msg
      → (send near msg w.net).0 ≡ returned status
      → (send_pid os near json pid proxied w).0 ≡ returned status
  unfolding send_pid
  send_pid-answer proxied pid msg w dumped e = rw (dumped, send_pid) e

  -- A client that asks for a process, with a message that is a text and shorter than the largest
  -- int, is left with the status that attach returns; the daemon has attached the process to the
  -- cgroup of the mode of the client and done nothing else, and every buffer is freed, if the
  -- connection is made and stays open, malloc has memory, either end reads the bytes that the other
  -- one has written where it asks for as many, and the JSON library reads back what it wrote.
  pub send_pid-attach :
      IsLawful json
      → (ends : Ends near far) (proxied : Bool) (pid : ℤ) (msg : Bytes)
        (w : World near.State os.State) (stale : Stale) (v : Daemon) {status : ℤ}
      → json.dump (pid_message json proxied pid) ≡ some msg
      → IsText msg
      → length msg < 2147483647
      → Carries ends msg w.net stale v
      → (attached proxied pid v).0 ≡ returned status
      → ((send_pid os near json pid proxied w).0 ≡ returned status)
        × ((round far (callback os json env far) stale v).1.daemon
            ≡ record v.daemon { sys = (attached proxied pid v).1 })
        × ((round far (callback os json env far) stale v).1.live ≡ v.live)
  send_pid-attach law ends proxied pid msg w stale v {status} dumped text int c at =
      let handled = handle_msg-pid_message os json env law proxied pid msg v.daemon dumped in
      let (told, d, l) =
        exchange ends msg w.net stale v text int c
          (handled
            ∙ ap
                (λ o.
                  (answered os json env o, record v.daemon { sys = (attached proxied pid v).1 }))
                at)
          (status-IsInt proxied pid v at) in
      (send_pid-answer proxied pid msg w dumped told, d, l)
