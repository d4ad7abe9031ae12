-- ===== src/Cmd/Server/Launch.antt =====
-- What holds of the server of cmd/hologram-server once it is online.
use hologram.Prelude.{ℕ, ◌≡◌, refl, sym, ap, ◌∙◌, Option, none, some, [], ◌*◌, ◌≤◌, inl, inr}
use hologram.Prelude.Go.{Bytes, Result, ok, err, Outcome, ret, panic, out_of_fuel}
use hologram.Log
use hologram.Server.Types.{LdapError}
use hologram.Server.PersistentLdap.{Persistent, new_persistent_ldap}
use hologram.Server.UserCache.{new_ldap_user_cache}
use hologram.Cmd.Server.Configuration.{Config, Flags, merge, complete}
use hologram.Cmd.Exit.{Started, exited, online}
use hologram.Cmd.Server.Ticker.{period, new_ticker, new_ticker-period}
use hologram.Cmd.Server.Starting.{
  Environment, Online, World, start, with_file, with_config, with_ldap, with_cache, with_ticker,
  with_debug, open_ldap, ldap_server, cache_config,
}

some_injective : {x y : ℕ} → some x ≡ some y → x ≡ y
some_injective h = cc h

ssh_attr_default :
    (flags : Flags) (file : Config)
    → file.ldap.ssh_attr ≡ ""
    → (complete (merge flags file)).ldap.ssh_attr ≡ "sshPublicKey"
unfolding complete merge
ssh_attr_default flags file h = rw h refl

no_ticks :
    (flags : Flags) (file : Config)
    → file.cache_timeout ≡ 0
    → flags.cache_timeout ≡ 3600
    → new_ticker (period (complete (merge flags file)).cache_timeout) ≡ none
unfolding complete merge new_ticker period
no_ticks flags file zero same = rw same (rw zero refl)

module _ {Key W : Type 0} (env : Environment Key W) (flags : Flags) (w : W) where
  -- The file's configuration with the flags and the defaults.
  abbrev pub IsConfigured : Config → Type 0
  IsConfigured config =
      (contents : Bytes) × (file : Config) × (env.read_file flags.config_file ≡ ok contents)
      × (env.unmarshal contents ≡ ok file)
      × (config ≡ complete (merge flags file))

  -- The cache is the one that the first update has filled, over the first connection.
  abbrev pub IsFilled : Config → World Key W → Type 0
  IsFilled config cache =
      (ldap : Persistent W) × (w' : W) × (new_persistent_ldap env.ldap.error_network
          (open_ldap env config) w
        ≡ (ret (ok ldap), w'))
      × (new_ldap_user_cache env.ssh env.order (cache_config config) (ldap_server env config) [] []
            ldap
          ≡ (ret none, cache))

module _ {Key W L : Type 0} (env : Environment Key W) (flags : Flags) (w : W) where
  abbrev pub IsOnline : Online Key W L → Type 0
  IsOnline s =
      IsConfigured env flags w s.config
      × IsFilled env flags w s.config s.cache
      × (new_ticker (period s.config.cache_timeout) ≡ some s.tick)

  Launched : Outcome (Started (Online Key W L)) → Type 0
  Launched (ret (online s)) = IsOnline s
  Launched (ret (exited code)) = code ≡ 1
  Launched panic = Unit
  Launched out_of_fuel = Unit

  module _ (config : Config) (log : Log.Package L)
      (configured : IsConfigured env flags w config) where
    by_ticker :
        (cache : World Key W) (t : Option ℕ)
        → IsFilled env flags w config cache
        → new_ticker (period config.cache_timeout) ≡ t
        → Launched (with_ticker env config log cache t)
    unfolding Launched
    by_ticker cache none filled e = tt
    by_ticker cache (some tick) filled e = (configured, filled, e)

    by_cache :
        (ldap : Persistent W) (w' : W) (x : Outcome (Option LdapError) × World Key W)
        → new_persistent_ldap env.ldap.error_network (open_ldap env config) w ≡ (ret (ok ldap), w')
        → new_ldap_user_cache env.ssh env.order
            (cache_config config)
            (ldap_server env config)
            []
            []
            ldap
          ≡ x
        → Launched (with_cache env config log x)
    unfolding Launched
    by_cache ldap w' (ret none, cache) a b = by_ticker cache _ (ldap, w', a, b) refl
    by_cache ldap w' (ret (some e), cache) a b = refl
    by_cache ldap w' (panic, cache) a b = tt
    by_cache ldap w' (out_of_fuel, cache) a b = tt

    by_ldap :
        (x : Outcome (Result (Persistent W)) × W)
        → new_persistent_ldap env.ldap.error_network (open_ldap env config) w ≡ x
        → Launched (with_ldap env config log x)
    unfolding Launched
    by_ldap (ret (ok ldap), w') a = by_cache ldap w' _ a refl
    by_ldap (ret (err e), w') a = refl
    by_ldap (panic, w') a = tt
    by_ldap (out_of_fuel, w') a = tt

  by_config :
      (contents : Bytes) (log : Log.Package L) (x : Result Config)
      → env.read_file flags.config_file ≡ ok contents
      → env.unmarshal contents ≡ x
      → Launched (with_config env flags log w x)
  unfolding Launched
  by_config contents log (ok file) a b =
      by_ldap (complete (merge flags file)) log (contents, file, a, b, refl) _ refl
  by_config contents log (err e) a b = refl

  by_file :
      (log : Log.Package L) (x : Result Bytes)
      → env.read_file flags.config_file ≡ x
      → Launched (with_file env flags log w x)
  unfolding Launched
  by_file log (ok contents) a = by_config contents log _ a refl
  by_file log (err e) a = refl

  start-Launched : (log : Log.Package L) → Launched (start env flags log w)
  unfolding start
  start-Launched log = by_file (with_debug env flags.debug_mode log) _ refl

  -- If the program gets online, its configuration is the file's with the flags and the defaults, its
  -- cache is the one that the first update over the first connection has filled, and its ticker has
  -- started.
  pub start-IsOnline :
      (log : Log.Package L) (s : Online Key W L)
      → start env flags log w ≡ ret (online s)
      → IsOnline s
  unfolding Launched
  start-IsOnline log s h = rw h at (start-Launched log)

  -- Where the program gets online, its configured timeout, if it is at most 18446744073, is from 1 to
  -- 9223372036 seconds, and the cache is reloaded after just so many seconds, in nanoseconds.
  pub start_ticks :
      (log : Log.Package L) (s : Online Key W L)
      → start env flags log w ≡ ret (online s)
      → s.config.cache_timeout ≤ 18446744073
      → (1 ≤ s.config.cache_timeout)
        × (s.config.cache_timeout ≤ 9223372036)
        × (s.tick ≡ s.config.cache_timeout * 1000000000)
  start_ticks log s h small =
      let (configured, filled, ticks) = start-IsOnline log s h in
      elim (new_ticker-period s.config.cache_timeout small) [
        | inl (low, high, e) ↦ (low, high, some_injective (sym ticks ∙ e))
        | inr (out, e) ↦ absurd (cc (ticks, e))
      ]

  -- The attribute of the SSH keys is sshPublicKey, whatever the flags say, if encoding/json leaves the
  -- field `sshAttr`, which is not exported, as it was.
  pub start-ssh_attr :
      (log : Log.Package L) (s : Online Key W L)
      → start env flags log w ≡ ret (online s)
      → ((contents : Bytes) (file : Config)
          → env.unmarshal contents ≡ ok file
          → file.ldap.ssh_attr ≡ "")
      → (cache_config s.config).ssh_attr ≡ "sshPublicKey"
  start-ssh_attr log s h unset =
      let (contents, file, a, b, e) = (start-IsOnline log s h).0 in
      ap (λ c. c.ldap.ssh_attr) e ∙ ssh_attr_default flags file (unset contents file b)

  -- With a file that names no timeout and the flag at its default, the program panics once LDAP is
  -- connected and the cache is filled: `NewTicker` is called with 0.
  pub start_without_timeout :
      (log : Log.Package L) {contents : Bytes} {file : Config} {ldap : Persistent W} {w' : W}
      {cache : World Key W}
      → env.read_file flags.config_file ≡ ok contents
      → env.unmarshal contents ≡ ok file
      → file.cache_timeout ≡ 0
      → flags.cache_timeout ≡ 3600
      → new_persistent_ldap env.ldap.error_network (open_ldap env (complete (merge flags file))) w
        ≡ (ret (ok ldap), w')
      → new_ldap_user_cache env.ssh env.order
          (cache_config (complete (merge flags file)))
          (ldap_server env (complete (merge flags file)))
          []
          []
          ldap
        ≡ (ret none, cache)
      → start {L = L} env flags log w ≡ panic
  unfolding start
  start_without_timeout log {file = file} a b zero same c d =
      rw a (rw b (rw c (rw d (rw (no_ticks flags file zero same) refl))))
