-- ===== src/Config/Env/Kept.antt =====
-- The variables of cgroup-tproxy.sh hold the configuration that `toEnv` wrote last.
use cgproxy.Base.{
  Bool, true, not, ◌&&◌, Option, some, List, [], ◌∷◌, Bytes, bytes_eq, bytes_eq_iff, All, ◌≡◌, ◌≢◌,
  refl, ◌∙◌, arith,
}
use cgproxy.System.{Os}
use cgproxy.Config.{Config}
use cgproxy.Config.Env.{env_of, set_all, to_env}

-- `getenv`, and which calls of the system leave the environment of the process alone: all but `setenv`.
pub record Environment (os : Os) : Type 0 where
  pub getenv : Bytes → os.State → Option Bytes
  pub setenv_same : (k v : Bytes) (s : os.State) → getenv k (os.setenv k v s) ≡ some v
  pub setenv_other :
      (k j v : Bytes) (s : os.State) → j ≢ k → getenv k (os.setenv j v s) ≡ getenv k s
  pub system_keeps : (k cmd : Bytes) (s : os.State) → getenv k (os.system cmd s).1 ≡ getenv k s
  pub mkdir_keeps : (k path : Bytes) (s : os.State) → getenv k (os.mkdir path s).1 ≡ getenv k s
  pub append_keeps :
      (k path text : Bytes) (s : os.State) → getenv k (os.append_file path text s).1 ≡ getenv k s
  pub sleep_keeps : (k : Bytes) (s : os.State) → getenv k (os.sleep_ms 100 s) ≡ getenv k s

module _ (os : Os) (e : Environment os) where
  open os use {State}

  -- Each of these variables has its value.
  abbrev pub AreSet : List (Bytes × Bytes) → State → Type 0
  AreSet vars s = All (λ (kv : Bytes × Bytes). e.getenv kv.0 s ≡ some kv.1) vars

  -- The environment is that of the configuration.
  abbrev pub InEnv : Config → State → Type 0
  InEnv c s = AreSet (env_of c) s

  abbrev pub absent : Bytes → List (Bytes × Bytes) → Bool
  absent k [] = true
  absent k ((j, _) ∷ vars) = not (bytes_eq j k) && absent k vars

  abbrev distinct : List (Bytes × Bytes) → Bool
  distinct [] = true
  distinct ((k, _) ∷ vars) = absent k vars && distinct vars

  pub set_all-absent :
      (k : Bytes) (vars : List (Bytes × Bytes)) (s : State)
      → absent k vars ≡ true
      → e.getenv k (set_all os vars s) ≡ e.getenv k s
  unfolding set_all
  set_all-absent k [] s h = refl
  set_all-absent k ((j, v) ∷ vars) s h =
      ground
        (arith, bytes_eq_iff j k, set_all-absent k vars (os.setenv j v s), e.setenv_other k j v s)

  set_all-AreSet :
      (vars : List (Bytes × Bytes)) (s : State)
      → distinct vars ≡ true
      → AreSet vars (set_all os vars s)
  unfolding set_all
  set_all-AreSet [] s h = tt
  set_all-AreSet ((k, v) ∷ vars) s h = (
    set_all-absent k vars (os.setenv k v s) (ground arith) ∙ e.setenv_same k v s,
    set_all-AreSet vars (os.setenv k v s) (ground arith),
  )

  pub to_env-InEnv : (c : Config) (s : State) → InEnv c (to_env os c s)
  unfolding to_env env_of bytes_eq
  to_env-InEnv c s = set_all-AreSet (env_of c) s refl

  -- A call that keeps each variable keeps all.
  pub AreSet-kept :
      (vars : List (Bytes × Bytes)) (s t : State)
      → ((k : Bytes) → e.getenv k t ≡ e.getenv k s)
      → AreSet vars s
      → AreSet vars t
  AreSet-kept [] s t kept h = tt
  AreSet-kept ((k, v) ∷ vars) s t kept h = (kept k ∙ h.0, AreSet-kept vars s t kept h.1)
