-- ===== src/Daemon/Interleave/Safety.antt =====
-- What holds of every move of the execsnoop thread, however the steps are mixed.
use mathlib.Core.Path.{subst}
use cgproxy.Base.{
  true, false, none, some, List, [], ◌∷◌, Bytes, is_empty, contains, ◌≡◌, ◌⊎◌, inl, inr, refl, sym,
  Bool-cases, Option-cases,
}
use cgproxy.Base.Int.{ℤ}
use cgproxy.Base.Decimal.{show_ℤ}
use cgproxy.Effect.{Outcome, returned, raised, exited, hangs}
use cgproxy.System.{Os}
use cgproxy.Text.{belong_to_any}
use cgproxy.Proc.{get_cgroup}
use cgproxy.Config.{Config}
use cgproxy.Daemon.Place.{is_preserved, exe_link}
use cgproxy.Daemon.Interleave.{
  Write, Block, first, second, target_of, Handler, opening, listing, reading, checking, moving,
  done, look, behind, handler_step, Write,
}
use cgproxy.Daemon.Interleave.Mixed.{
  stored, Moment, Shared, turn, loader_step, handled, loads, handles, Reach, here, after, begin,
}

-- At some moment.
abbrev pub Once : {A : Type 0} → (A → Type 0) → List A → Type 0
Once P [] = ⊥
Once P (x ∷ xs) = P x ⊎ Once P xs

module _ (os : Os) (pid : ℤ) where
  open os use {State}

  -- The executable of the process, its program in the list of a block, its cgroup, and a cgroup that
  -- is in none of the block's, each at a moment.
  abbrev pub Runs : Bytes → Moment os → Type 0
  Runs path m = os.realpath (exe_link os pid) m.sys ≡ some path

  abbrev pub Listed : Block → Bytes → Moment os → Type 0
  Listed b path m = contains path (target_of b m.config).programs ≡ true

  abbrev pub Stands : Bytes → Moment os → Type 0
  Stands cg m = get_cgroup os (show_ℤ pid) m.sys ≡ returned cg

  abbrev pub Outside : Block → Bytes → Moment os → Type 0
  Outside b cg m = belong_to_any cg (target_of b m.config).cgroups ≡ false

  abbrev pub Movable : Bytes → Type 0
  Movable cg = (is_empty cg ≡ false) × (is_preserved cg ≡ false)

  abbrev Read : Block → Bytes → Bytes → List (Moment os) → Type 0
  Read b path cg ms =
      Once (Runs path) ms × Once (Listed b path) ms × Once (Stands cg) ms × Movable cg

  -- The grounds of a move.
  abbrev pub Wanted : Block → Bytes → Bytes → List (Moment os) → Type 0
  Wanted b path cg ms = Read b path cg ms × Once (Outside b cg) ms

  abbrev Known : Handler → List (Moment os) → Type 0
  Known opening ms = Unit {0}
  Known (listing b path) ms = Once (Runs path) ms
  Known (reading b path) ms = Once (Runs path) ms × Once (Listed b path) ms
  Known (checking b path cg) ms = Read b path cg ms
  Known (moving b path cg) ms = Wanted b path cg ms
  Known (done none o) ms = Unit {0}
  Known (done (some (b, (path, cg))) o) ms = Wanted b path cg ms

  grow : (p : Handler) (m : Moment os) (ms : List (Moment os)) → Known p ms → Known p (m ∷ ms)
  grow opening m ms k = tt
  grow (listing b path) m ms k = inr k
  grow (reading b path) m ms (r, l) = (inr r, inr l)
  grow (checking b path cg) m ms (r, l, s, v) = (inr r, inr l, inr s, v)
  grow (moving b path cg) m ms ((r, l, s, v), o) = ((inr r, inr l, inr s, v), inr o)
  grow (done none o) m ms k = tt
  grow (done (some (b, (path, cg))) a) m ms ((r, l, s, v), o) = ((inr r, inr l, inr s, v), inr o)

  behind-Known :
      (b : Block) (path : Bytes) (ms : List (Moment os))
      → Once (Runs path) ms
      → Known (behind b path) ms
  behind-Known first path ms r = r
  behind-Known second path ms r = tt

  look-Known :
      (b : Block) (path : Bytes) (o : Outcome Bytes) (ms : List (Moment os))
      → ((cg : Bytes) → o ≡ returned cg → Once (Stands cg) ms)
      → Once (Runs path) ms × Once (Listed b path) ms
      → Known (look b path o) ms
  look-Known b path (returned cg) ms at (r, l) = elim (Bool-cases (is_empty cg)) [
    | inl empty ↦ rw empty tt
    | inr full ↦ elim (Bool-cases (is_preserved cg)) [
      | inl kept ↦ rw (full, kept) tt
      | inr free ↦ rw (full, free) (r, l, at cg refl, (full, free))
    ]
  ]
  look-Known b path (raised e) ms at k = tt
  look-Known b path (exited c) ms at k = tt
  look-Known b path hangs ms at k = tt

  -- A step at a moment keeps what is known at it.
  handler_step-Known :
      (p : Handler) (m : Moment os) (ms : List (Moment os))
      → Known p (m ∷ ms)
      → Known (handler_step os pid p m.config m.sys).0 (m ∷ ms)
  unfolding handler_step
  handler_step-Known opening m ms k = elim (Option-cases (os.realpath (exe_link os pid) m.sys)) [
    | inl gone ↦ rw (gone, Known) tt
    | inr (path, runs) ↦ rw (runs, Known) (inl runs)
  ]
  handler_step-Known (listing b path) m ms r =
      elim (Bool-cases (contains path (target_of b m.config).programs)) [
        | inl found ↦ rw (found, Known) (r, inl found)
        | inr missing ↦ rw (missing, Known) (behind-Known b path (m ∷ ms) r)
      ]
  handler_step-Known (reading b path) m ms k =
      look-Known b path (get_cgroup os (show_ℤ pid) m.sys) (m ∷ ms) (λ cg e. inl e) k
  handler_step-Known (checking b path cg) m ms (r, l, s, v) =
      elim (Bool-cases (belong_to_any cg (target_of b m.config).cgroups)) [
        | inl inside ↦ rw (inside, Known) (behind-Known b path (m ∷ ms) r)
        | inr outside ↦ rw (outside, Known) ((r, l, s, v), inl outside)
      ]
  handler_step-Known (moving b path cg) m ms k = k
  handler_step-Known (done none o) m ms k = tt
  handler_step-Known (done (some q) o) m ms k = k

  -- The last of the past moments is the present one, and what the execsnoop thread knows holds.
  abbrev Inv : Shared os → Type 0
  Inv x = (ms : List (Moment os)) × (x.past ≡ x.now ∷ ms) × Known x.handler x.past

  turn-Inv : (c : Config) (s : State) (x : Shared os) → Known x.handler x.past → Inv (turn os c s x)
  turn-Inv c s x k = (x.past, refl, grow x.handler _ x.past k)

  loader_step-Inv :
      (p : Handler) (ws : List (Write os)) (m : Moment os) (ms : List (Moment os))
      → let x : Shared os = record { handler = p; pending = ws; now = m; past = ms } in
        Inv x → Inv (loader_step os x)
  unfolding loader_step
  loader_step-Inv p [] m ms i = i
  loader_step-Inv p (w ∷ ws) m ms (rest, e, k) =
      by_outcome (w m.config m.sys).0 (w m.config m.sys).1
    where
      by_outcome :
          (o : Outcome Config) (s : State)
          → Inv (stored os o s ws (record { handler = p; pending = w ∷ ws; now = m; past = ms }))
      by_outcome (returned c) s =
          turn-Inv c s (record { handler = p; pending = ws; now = m; past = ms }) k
      by_outcome (raised _) s =
          turn-Inv m.config s (record { handler = p; pending = []; now = m; past = ms }) k
      by_outcome (exited _) s =
          turn-Inv m.config s (record { handler = p; pending = []; now = m; past = ms }) k
      by_outcome hangs s =
          turn-Inv m.config s (record { handler = p; pending = []; now = m; past = ms }) k

  handled-Inv : (x : Shared os) → Inv x → Inv (handled os pid x)
  unfolding handled
  handled-Inv x (rest, e, k) =
      let out = handler_step os pid x.handler x.now.config x.now.sys in
      let known : Known out.0 (x.now ∷ rest) =
        handler_step-Known x.handler x.now rest (subst (Known x.handler) e k) in
      turn-Inv x.now.config out.1 (record x { handler = out.0 }) (subst (Known out.0) (sym e) known)

  Reach-Inv : {x y : Shared os} → Reach os pid x y → Inv x → Inv y
  Reach-Inv here i = i
  Reach-Inv (after r (loads x)) i = loader_step-Inv x.handler x.pending x.now x.past (Reach-Inv r i)
  Reach-Inv (after r (handles x)) i = handled-Inv x (Reach-Inv r i)

  -- However the assignments of the socket thread are mixed with the steps of the execsnoop thread,
  -- a process that handle_pid has tried to move had this executable at some moment of the call, its
  -- program was in the list of that block at some moment, its cgroup, which is neither empty nor
  -- preserved, was read at some moment, and was in none of the cgroups of that block at some
  -- moment.
  pub Reach-Wanted :
      (ws : List (Write os)) (c : Config) (s : State) {x : Shared os} {b : Block} {path cg : Bytes}
      {o : Outcome ℤ}
      → Reach os pid (begin os ws c s) x
      → x.handler ≡ done (some (b, (path, cg))) o
      → Wanted b path cg x.past
  Reach-Wanted ws c s {x} r e =
      let (ms, last, known) = Reach-Inv r ([], refl, tt) in subst (λ p. Known p x.past) e known
