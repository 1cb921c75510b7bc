-- ===== src/Config/Reload.antt =====
-- `SafeConfig.ReloadConfig` of config/config.go, with the two gauges that it sets.
use smokeping_prober.Prelude.{
  ℕ, none, some, Option, List, [], ◌∷◌, ◌≡◌, ◌⊎◌, refl, arith, Result, ok, err, Option-cases, inl,
  inr,
}
use smokeping_prober.Net.{Net}
use smokeping_prober.Config.{Config}
use smokeping_prober.Config.Check.{ConfigError, validate}
use smokeping_prober.Config.Check.Groups.{validate_iff}
use smokeping_prober.Config.Valid.{IsConfig}

pub record SafeConfig : Type 0 where
  pub current : Config
  -- config_last_reload_successful and config_last_reload_success_timestamp_seconds
  pub reload_success : ℕ
  pub reload_seconds : ℕ

-- `var sc`: an empty configuration.
abbrev pub empty_config : Config
empty_config = record { routers = []; targets = [] }

-- The errors of the file system and of the YAML decoder are parameters.
pub data ReloadError (F Y : Type 0) : Type 0 where
  reading : F → ReloadError F Y
  parsing : Y → ReloadError F Y
  invalid : ConfigError → ReloadError F Y

-- What a reload reads: the file, decoded if it can be opened.
abbrev pub ConfigFile : Type 0 → Type 0 → Type 0
ConfigFile F Y = Result F (Result Y Config)

module _ (net : Net) {F Y : Type 0} where
  -- Opening, decoding and validating.
  unfoldable pub load_config : ConfigFile F Y → Result (ReloadError F Y) Config
  load_config (err e) = err (reading e)
  load_config (ok (err e)) = err (parsing e)
  load_config (ok (ok c)) = elim (validate net c) [ some e ↦ err (invalid e) | none ↦ ok c ]

  -- The store under the lock on success, and the deferred function that sets the gauges.
  finish_reload :
      ℕ → SafeConfig → Result (ReloadError F Y) Config → Option (ReloadError F Y) × SafeConfig
  finish_reload now sc (ok c) =
      (none, record { current = c; reload_success = 1; reload_seconds = now })
  finish_reload now sc (err e) = (some e, record sc { reload_success = 0 })

  -- `ReloadConfig` at a time, with a nil error as `none`.
  unfoldable pub reload_config :
      ℕ → ConfigFile F Y → SafeConfig → Option (ReloadError F Y) × SafeConfig
  unfolding load_config finish_reload
  reload_config now file sc = finish_reload now sc (load_config file)

  load_config-IsConfig :
      (file : ConfigFile F Y) {c : Config} → load_config file ≡ ok c → IsConfig net c
  unfolding load_config
  load_config-IsConfig (err e) h = ground arith
  load_config-IsConfig (ok (err e)) h = ground arith
  load_config-IsConfig (ok (ok c)) h = ground (arith, (validate_iff net c).0)

  -- A reload either reports an error, keeps the configuration and the time of the last success and
  -- marks the failure, or reports none, marks the success at this time, and the new configuration
  -- is valid and is the one in the file.
  pub reload_config_lem :
      (now : ℕ) (file : ConfigFile F Y) (sc : SafeConfig)
      → let (error, after) = reload_config now file sc in
        ((e : ReloadError F Y) × (error ≡ some e)
          × (after.current ≡ sc.current)
          × (after.reload_seconds ≡ sc.reload_seconds)
          × (after.reload_success ≡ 0))
        ⊎ ((error ≡ none)
            × (file ≡ ok (ok after.current))
            × IsConfig net after.current
            × (after.reload_seconds ≡ now)
            × (after.reload_success ≡ 1))
  unfolding reload_config
  reload_config_lem now (err e) sc = inl (reading e, refl, refl, refl, refl)
  reload_config_lem now (ok (err e)) sc = inl (parsing e, refl, refl, refl, refl)
  reload_config_lem now (ok (ok c)) sc = elim (Option-cases (validate net c)) [
    | inl e ↦ inr (
      ground arith,
      ground arith,
      rw (e, load_config, finish_reload, reload_config) ((validate_iff net c).0 e),
      ground arith,
      ground arith,
    )
    | inr (failure, e) ↦
        inl (invalid failure, ground arith, ground arith, ground arith, ground arith)
  ]

  pub reload_config-IsConfig :
      (now : ℕ) (file : ConfigFile F Y) (sc : SafeConfig)
      → IsConfig net sc.current
      → IsConfig net (reload_config now file sc).1.current
  reload_config-IsConfig now file sc v = elim (reload_config_lem now file sc) [
    | inl (e, _, same, _, _) ↦ rw same v
    | inr (_, _, valid, _, _) ↦ valid
  ]

  -- The state after reloads at given times.
  unfoldable pub reloads : List (ℕ × ConfigFile F Y) → SafeConfig → SafeConfig
  reloads [] sc = sc
  reloads ((now, file) ∷ files) sc = reloads files (reload_config now file sc).1

  -- Whatever the files hold, the configuration in use stays valid.
  pub reloads-IsConfig :
      (files : List (ℕ × ConfigFile F Y)) (sc : SafeConfig)
      → IsConfig net sc.current
      → IsConfig net (reloads files sc).current
  unfolding reloads
  reloads-IsConfig [] sc v = v
  reloads-IsConfig ((now, file) ∷ files) sc v =
      reloads-IsConfig files (reload_config now file sc).1 (reload_config-IsConfig now file sc v)
