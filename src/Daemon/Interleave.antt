-- ===== src/Daemon/Interleave.antt =====
-- The two threads of src/cgproxyd.hpp that share one configuration: the socket thread loads it
-- (src/config.cpp) while the execsnoop thread is in `handle_pid`. No lock is taken, so the steps of
-- the two are mixed in any order. A step of the socket thread is one assignment to a field; a step of
-- the other reads one field, or asks the system once.
pub mod Mixed
pub mod Alone
pub mod Safety
pub mod Preserved
pub mod Window
use cgproxy.Base.{
  ℕ, zero, suc, Bool, true, false, not, Option, none, some, List, [], ◌∷◌, ◌++◌, Bytes, codes,
  is_empty, contains, if◌then◌else◌,
}
use cgproxy.Base.Int.{ℤ, pos}
use cgproxy.Base.Decimal.{show_ℤ}
use cgproxy.Constants.{cgroup2_mount_point, cgroup_proxy_preserved, cgroup_noproxy_preserved}
use cgproxy.Effect.{M, ◌>>=◌, ret, Outcome, returned, raised, exited, hangs}
use cgproxy.System.{Os}
use cgproxy.Json.{Json}
use cgproxy.Text.{belong_to_any}
use cgproxy.Proc.{get_cgroup}
use cgproxy.Attach.{attach_int}
use cgproxy.Config.{Config, remove}
use cgproxy.Config.Load.{tryassign, to_real_program_path}
use cgproxy.Daemon.Place.{Target, noproxy, proxy, is_preserved, exe_link}

-- The two blocks of `handle_pid`.
pub data Block : Type 0 where
  first second : Block

abbrev pub target_of : Block → Config → Target
target_of first = noproxy
target_of second = proxy

abbrev pub preserved_of : Block → Bytes
preserved_of first = cgroup_noproxy_preserved
preserved_of second = cgroup_proxy_preserved

-- Where the execsnoop thread stands: before `realpath`, at the search in a program list, before
-- `getCgroup`, at the test of the cgroup list, before `attach`, and behind the function, with the move
-- that it has tried, if any.
pub data Handler : Type 0 where
  opening : Handler
  listing reading : Block → Bytes → Handler
  checking moving : Block → Bytes → Bytes → Handler
  done : Option (Block × (Bytes × Bytes)) → Outcome ℤ → Handler

-- The code behind a block.
abbrev pub behind : Block → Bytes → Handler
behind first path = listing second path
behind second path = done none (returned (pos 0))

-- The tests of the cgroup that `getCgroup` delivers.
abbrev pub look : Block → Bytes → Outcome Bytes → Handler
look b path (returned cg) =
    if is_empty cg
    then done none (returned (pos 0))
    else if is_preserved cg
    then done none (returned (pos 0))
    else checking b path cg
look b path (raised e) = done none (raised e)
look b path (exited c) = done none (exited c)
look b path hangs = done none hangs

module _ (os : Os) where
  open os use {State}

  -- One assignment of the socket thread.
  abbrev pub Write : Type 0
  Write = Config → M State Config

  abbrev pub assign : (Config → Config) → Write
  assign f c = ret (f c)

  abbrev pub resolve_noproxy : Write
  resolve_noproxy c = do
    v ← to_real_program_path os c.program_noproxy
    ret (record c { program_noproxy = v })

  abbrev pub resolve_proxy : Write
  resolve_proxy c = do
    v ← to_real_program_path os c.program_proxy
    ret (record c { program_proxy = v })

  -- `toRealProgramPath` twice, and the two statements of each `merge`.
  pub finishing : List Write
  finishing =
      resolve_noproxy
      ∷ resolve_proxy
      ∷ assign (λ c. record c { cgroup_proxy = remove cgroup_proxy_preserved c.cgroup_proxy })
      ∷ assign (λ c. record c { cgroup_proxy = cgroup_proxy_preserved ∷ c.cgroup_proxy })
      ∷ assign (λ c. record c { cgroup_noproxy = remove cgroup_noproxy_preserved c.cgroup_noproxy })
      ∷ assign (λ c. record c { cgroup_noproxy = cgroup_noproxy_preserved ∷ c.cgroup_noproxy })
      ∷ []

  -- What `loadFromJsonStr` does one after the other once the text is validated and parsed.
  unfoldable pub writes : (json : Json) → json.Value → List Write
  unfolding finishing
  writes json j =
      assign (λ c. record c {
        program_proxy = tryassign json json.get_strings j (codes "program_proxy") c.program_proxy;
      })
      ∷ assign (λ c. record c {
        program_noproxy =
            tryassign json json.get_strings j (codes "program_noproxy") c.program_noproxy;
      })
      ∷ assign (λ c. record c {
        cgroup_proxy = tryassign json json.get_strings j (codes "cgroup_proxy") c.cgroup_proxy;
      })
      ∷ assign (λ c. record c {
        cgroup_noproxy =
            tryassign json json.get_strings j (codes "cgroup_noproxy") c.cgroup_noproxy;
      })
      ∷ assign (λ c. record c {
        enable_gateway = tryassign json json.get_bool j (codes "enable_gateway") c.enable_gateway;
      })
      ∷ assign (λ c. record c { port = tryassign json json.get_int j (codes "port") c.port })
      ∷ assign (λ c. record c {
        enable_dns = tryassign json json.get_bool j (codes "enable_dns") c.enable_dns;
      })
      ∷ assign (λ c. record c {
        enable_tcp = tryassign json json.get_bool j (codes "enable_tcp") c.enable_tcp;
      })
      ∷ assign (λ c. record c {
        enable_udp = tryassign json json.get_bool j (codes "enable_udp") c.enable_udp;
      })
      ∷ assign (λ c. record c {
        enable_ipv4 = tryassign json json.get_bool j (codes "enable_ipv4") c.enable_ipv4;
      })
      ∷ assign (λ c. record c {
        enable_ipv6 = tryassign json json.get_bool j (codes "enable_ipv6") c.enable_ipv6;
      })
      ∷ assign (λ c. record c { table = tryassign json json.get_int j (codes "table") c.table })
      ∷ assign (λ c. record c { fwmark = tryassign json json.get_int j (codes "fwmark") c.fwmark })
      ∷ assign (λ c. record c {
        mark_newin = tryassign json json.get_int j (codes "mark_newin") c.mark_newin;
      })
      ∷ finishing

  -- One step of the execsnoop thread, for a process.
  unfoldable pub handler_step : ℤ → Handler → Config → State → Handler × State
  handler_step pid opening c s = elim (os.realpath (exe_link os pid) s) [
    | none ↦ (done none (returned (pos 0)), s)
    | some path ↦ (listing first path, s)
  ]
  handler_step pid (listing b path) c s =
      (if contains path (target_of b c).programs then reading b path else behind b path, s)
  handler_step pid (reading b path) c s = (look b path (get_cgroup os (show_ℤ pid) s), s)
  handler_step pid (checking b path cg) c s = (
    if not (belong_to_any cg (target_of b c).cgroups) then moving b path cg else behind b path,
    s,
  )
  handler_step pid (moving b path cg) c s =
      let out = attach_int os cgroup2_mount_point pid (preserved_of b) s in
      (done (some (b, (path, cg))) out.0, out.1)
  handler_step pid (done m o) c s = (done m o, s)
