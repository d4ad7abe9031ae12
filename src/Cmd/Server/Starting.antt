-- ===== src/Cmd/Server/Starting.antt =====
-- cmd/hologram-server/main.go: from the flags to the server that is online.
use hologram.Prelude.{
  ℕ, String, ◌<>◌, Bool, true, false, Option, none, some, [], str_eq, if◌then◌else◌,
}
use hologram.Prelude.Go.{
  Error, Bytes, Result, ok, err, Outcome, ret, panic, out_of_fuel, Go, pure, ◌>>=◌,
}
use hologram.Prelude.Dict.{Dict}
use hologram.Log
use hologram.Log.{set_debug_mode}
use hologram.Server.Types.{User, LdapError, LdapImplementation}
use hologram.Server.Credentials.{DirectSessionTokenService, Sts}
use hologram.Server.PersistentLdap.{
  Opened, opened, not_opened, Persistent, new_persistent_ldap, persistent_ldap,
}
use hologram.Server.UserCache
use hologram.Server.UserCache.{Ssh, Cache, new_ldap_user_cache}
use hologram.Server.Handler.State.{Settings, Services}
use hologram.Server.Assembly.{server}
use hologram.Cmd.Server.Configuration.{Ldap, Config, Flags, merge, complete}
use hologram.Cmd.Exit.{Started, exited, online}
use hologram.Cmd.Server.Ticker.{period, new_ticker}

-- nmcclain/ldap: a connection before and after `Bind`, and the two ways to open one.
pub record LdapConn (W : Type 0) : Type 0 where
  pub conn : LdapImplementation W
  pub bind : String → String → Go W (Option Error)

pub record LdapPackage (W : Type 0) : Type 0 where
  pub error_network : ℕ
  pub dial : String → Go W (Result (LdapConn W))
  pub dial_tls : String → Go W (Result (LdapConn W))

module _ {W : Type 0} (ldap : LdapPackage W) where
  abbrev pub bound : LdapConn W → Option Error → Opened W
  bound c none = opened c.conn
  bound c (some e) = not_opened ("Could not bind to LDAP! " <> e)

  abbrev pub dialled : Ldap → Result (LdapConn W) → Go W (Opened W)
  dialled conf (err e) = pure (not_opened ("Could not dial LDAP! " <> e))
  dialled conf (ok c) = c.bind conf.bind.dn conf.bind.password >>= λ e. pure (bound c e)

  -- `ConnectLDAP`
  unfoldable pub connect_ldap : Ldap → Go W (Opened W)
  connect_ldap conf =
      (if conf.insecure_ldap then ldap.dial conf.host else ldap.dial_tls conf.host) >>= dialled conf

-- The statter that the program takes.
pub data Stats : Type 0 where
  noop : Stats
  statsd : String → Stats

-- peterbourgon/g2s: the error of `Dial`, if there is one.
abbrev pub dialled_stats : String → Option Error → Stats
dialled_stats host none = statsd host
dialled_stats host (some e) = noop

unfoldable pub stats_of : (String → Option Error) → String → Stats
stats_of dial_stats host = if str_eq host "" then noop else dialled_stats host (dial_stats host)

-- The settings that the user cache and the connection handler are given.
abbrev pub cache_config : Config → UserCache.Config
cache_config config = record {
  user_attr = config.ldap.user_attr;
  ssh_attr = config.ldap.ssh_attr;
  base_dn = config.ldap.base_dn;
  enable_ldap_roles = config.ldap.enable_ldap_roles;
  role_attribute = config.ldap.role_attribute;
  default_role = config.aws.default_role;
  default_role_attr = config.ldap.default_role_attr;
}

abbrev pub handler_settings : Config → Settings
handler_settings config = record {
  default_role = config.aws.default_role;
  user_attr = config.ldap.user_attr;
  ssh_attr = config.ldap.ssh_attr;
  base_dn = config.ldap.base_dn;
  enable_ldap_roles = config.ldap.enable_ldap_roles;
  default_role_attr = config.ldap.default_role_attr;
}

-- The world of the running program: the cache, over the persistent connection, over what is outside.
abbrev pub World : Type 0 → Type 0 → Type 0
World Key W = Cache Key (Persistent W)

abbrev pub past_ldap : {W A : Type 0} → Go W A → Go (Persistent W) A
past_ldap m p = let (o, w) = m p.world in (o, record p { world = w })

abbrev pub credentials_service :
    {W : Type 0} → Config → Sts W → DirectSessionTokenService (Persistent W)
credentials_service config sts = record {
  iam_account = config.aws.account;
  sts = record {
    assume_role = λ i. past_ldap (sts.assume_role i);
    get_session_token = past_ldap sts.get_session_token;
  };
  account_aliases = some config.account_aliases;
}

-- What the program calls that is not its own: the files, encoding/json, statsd, LDAP, STS, package
-- ssh, math/rand, the order of loops over a map, and the error of package remote's `NewServer`.
pub record Environment (Key W : Type 0) : Type 0 where
  pub read_file : String → Result Bytes
  pub unmarshal : Bytes → Result Config
  pub dial_stats : String → Option Error
  pub ldap : LdapPackage W
  pub sts : Sts W
  pub ssh : Ssh Key
  pub rand_int : ℕ → ℕ
  pub order : ℕ → Dict (User Key) → Dict (User Key)
  pub new_server : String → Option Error

-- The program while it is online. `listening` is false where the server is a nil pointer.
pub record Online (Key W L : Type 0) : Type 0 where
  pub config : Config
  pub stats : Stats
  pub log : Log.Package L
  pub cache : World Key W
  pub listening : Bool
  pub tick : ℕ

abbrev pub is_nil : Option Error → Bool
is_nil none = true
is_nil (some e) = false

module _ {Key W : Type 0} (env : Environment Key W) where
  -- Opening a connection to LDAP; the configuration is the one at the time of the call.
  abbrev pub open_ldap : Config → Go W (Opened W)
  open_ldap config = connect_ldap env.ldap config.ldap

  abbrev pub ldap_server : Config → LdapImplementation (Persistent W)
  ldap_server config = persistent_ldap env.ldap.error_network (open_ldap config)

  -- The connection handler's services.
  unfoldable pub services : Config → Services Key (World Key W)
  services config =
      server env.ssh env.order (cache_config config) (ldap_server config)
        (credentials_service config env.sts) (ldap_server config) env.rand_int
        (handler_settings config)

module _ {Key W L : Type 0} (env : Environment Key W) where
  -- Nothing reads the error of `NewServer`.
  abbrev pub with_ticker :
      Config → Log.Package L → World Key W → Option ℕ → Outcome (Started (Online Key W L))
  with_ticker config log cache none = panic
  with_ticker config log cache (some tick) = ret (
      online (record {
        config = config;
        stats = stats_of env.dial_stats config.stats;
        log = log;
        cache = cache;
        listening = is_nil (env.new_server config.listen);
        tick = tick;
      }))

  abbrev pub with_cache :
      Config
      → Log.Package L
      → Outcome (Option LdapError) × World Key W
      → Outcome (Started (Online Key W L))
  with_cache config log (ret none, cache) =
      with_ticker config log cache (new_ticker (period config.cache_timeout))
  with_cache config log (ret (some e), cache) = ret (exited 1)
  with_cache config log (panic, cache) = panic
  with_cache config log (out_of_fuel, cache) = out_of_fuel

  abbrev pub with_ldap :
      Config
      → Log.Package L
      → Outcome (Result (Persistent W)) × W
      → Outcome (Started (Online Key W L))
  with_ldap config log (ret (ok ldap), w) = with_cache config log (
      new_ldap_user_cache env.ssh env.order (cache_config config) (ldap_server env config) [] []
        ldap)
  with_ldap config log (ret (err e), w) = ret (exited 1)
  with_ldap config log (panic, w) = panic
  with_ldap config log (out_of_fuel, w) = out_of_fuel

  abbrev pub with_config :
      Flags → Log.Package L → W → Result Config → Outcome (Started (Online Key W L))
  with_config flags log w (err e) = ret (exited 1)
  with_config flags log w (ok file) =
      let config = complete (merge flags file) in
      with_ldap config log (new_persistent_ldap env.ldap.error_network (open_ldap env config) w)

  abbrev pub with_file :
      Flags → Log.Package L → W → Result Bytes → Outcome (Started (Online Key W L))
  with_file flags log w (err e) = ret (exited 1)
  with_file flags log w (ok contents) = with_config flags log w (env.unmarshal contents)

  abbrev pub with_debug : Bool → Log.Package L → Log.Package L
  with_debug flag log = if flag then set_debug_mode true log else log

  -- `main`, up to the message that the server is online.
  unfoldable pub start : Flags → Log.Package L → W → Outcome (Started (Online Key W L))
  start flags log w =
      with_file flags (with_debug flags.debug_mode log) w (env.read_file flags.config_file)
