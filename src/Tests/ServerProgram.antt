-- ===== src/Tests/ServerProgram.antt =====
-- The theorems on cmd/hologram-server at concrete inputs.
use hologram.Prelude.{
  ℕ, ◌≡◌, refl, sym, ap, ◌≤◌, ◌*◌, ◌%◌, String, true, false, some, none, List, [], ◌∷◌, Option,
  arith,
}
use hologram.Prelude.Go.{Bytes, Result, ok, err, Outcome, ret, panic, ◌>>=◌}
use hologram.Prelude.Dict.{lookup}
use hologram.Log
use hologram.Server.Types.{LdapError}
use hologram.Server.PersistentLdap.{new_persistent_ldap, search}
use hologram.Server.UserCache.{new_ldap_user_cache, update, update_users}
use hologram.Cmd.Exit.{online}
use hologram.Cmd.Server.Configuration.{Config, Flags, merge, complete}
use hologram.Cmd.Server.Ticker.{period, new_ticker}
use hologram.Cmd.Server.Starting.{
  Environment, Online, World, LdapConn, noop, start, cache_config, connect_ldap, ldap_server,
  open_ldap, stats_of,
}
use hologram.Cmd.Server.Launch.{start_ticks, start_without_timeout}
use hologram.Cmd.Server.Events.{
  Event, debug_enable, debug_disable, reload_cache_sig_hup, cache_timeout_tick, terminate, serve,
  settings_change,
}
use hologram.Cmd.Server.Debugging.{HasMode, last_mode, serve-HasMode}
use hologram.Cmd.Server.Remembering.{Knows, serve-Knows}
use hologram.Tests.Fixtures
use hologram.Tests.Fixtures.{alice, creds}
use hologram.Tests.UserCache.{ssh}
use hologram.Tests.Handler.{request_message, answer_message, connection}
use hologram.Server.Handler.State.{State}

abbrev file : Config
file = record {
  ldap = record {
    bind = record { dn = "cn=admin"; password = "secret" };
    user_attr = "";
    ssh_attr = "";
    base_dn = "dc=example";
    host = "ldap:389";
    insecure_ldap = true;
    enable_ldap_roles = false;
    role_attribute = "";
    default_role_attr = "";
  };
  aws = record { account = "123"; default_role = "engineer" };
  stats = "";
  listen = ":3100";
  cache_timeout = 0;
  account_aliases = [];
}

abbrev flags : Flags
flags = record {
  listen_address = "";
  ldap_address = "other:389";
  ldap_bind_dn = "";
  ldap_insecure = false;
  ldap_bind_password = "";
  statsd_host = "";
  iam_account = "";
  enable_ldap_roles = false;
  role_attribute = "";
  default_role_attr = "";
  default_role = "";
  config_file = "/etc/hologram/server.json";
  cache_timeout = 600;
  debug_mode = false;
}

abbrev ldap_conn : LdapConn ℕ
ldap_conn = record { conn = Fixtures.ldap_server; bind = λ dn password w. (ret none, w) }

abbrev environment : Environment ℕ ℕ
environment = record {
  read_file = λ path. ok (1 ∷ []);
  unmarshal = λ bytes. ok file;
  dial_stats = λ host. none;
  ldap = record {
    error_network = 200;
    dial = λ host w. (ret (ok ldap_conn), w);
    dial_tls = λ host w. (ret (err "no TLS"), w);
  };
  sts = record {
    assume_role = λ input w. (ret (ok (some creds)), w);
    get_session_token = λ w. (ret (ok (some creds)), w);
  };
  ssh = ssh;
  rand_int = λ n. n % 256;
  order = λ n users. users;
  new_server = λ address. none;
}

abbrev log : Log.Package ℕ
log = record { internal_log = record { sinks = []; debug_mode = false }; debug_mode = false }

-- The program that gets online with these flags and this file.
abbrev filled : World ℕ ℕ
filled =
    (new_ldap_user_cache ssh (λ n users. users) (cache_config (complete (merge flags file)))
      (ldap_server environment (complete (merge flags file))) [] []
      (record { conn = Fixtures.ldap_server; world = 0 })).1

abbrev running : Online ℕ ℕ ℕ
running = record {
  config = complete (merge flags file);
  stats = noop;
  log = log;
  cache = filled;
  listening = true;
  tick = 600000000000;
}

gets_online : start environment flags log 0 ≡ ret (online running)
unfolding start merge complete connect_ldap new_persistent_ldap new_ldap_user_cache update
    update_users ◌>>=◌ new_ticker period stats_of search
gets_online = refl

small : running.config.cache_timeout ≤ 18446744073
unfolding merge complete
small = omega arith

abbrev read_attribute : Result Config → String
read_attribute (ok f) = f.ldap.ssh_attr
read_attribute (err e) = ""

start_ticks_example :
    (1 ≤ running.config.cache_timeout)
    × (running.config.cache_timeout ≤ 9223372036)
    × (running.tick ≡ running.config.cache_timeout * 1000000000)
start_ticks_example = start_ticks environment flags 0 log running gets_online small

no_attribute :
    (contents : Bytes) (f : Config) → environment.unmarshal contents ≡ ok f → f.ldap.ssh_attr ≡ ""
no_attribute contents f h = sym (ap read_attribute h)

-- Without a timeout.
abbrev default_flags : Flags
default_flags = record flags { cache_timeout = 3600 }

abbrev first_fill : Outcome (Option LdapError) × World ℕ ℕ
first_fill =
    new_ldap_user_cache ssh (λ n users. users) (cache_config (complete (merge default_flags file)))
      (ldap_server environment (complete (merge default_flags file))) [] []
      (record { conn = Fixtures.ldap_server; world = 0 })

dials :
    new_persistent_ldap environment.ldap.error_network
      (open_ldap environment (complete (merge default_flags file)))
      0
    ≡ (ret (ok (record { conn = Fixtures.ldap_server; world = 0 })), 0)
unfolding merge complete connect_ldap new_persistent_ldap ◌>>=◌
dials = refl

fills : first_fill ≡ (ret none, first_fill.1)
unfolding merge complete connect_ldap new_ldap_user_cache update update_users ◌>>=◌ search
fills = refl

start_without_timeout_example : start {L = ℕ} environment default_flags log 0 ≡ panic
start_without_timeout_example =
    start_without_timeout environment default_flags 0 log refl refl refl refl dials fills

-- A tick, two signals and the end of the program.
abbrev events : List Event
events = cache_timeout_tick ∷ debug_enable ∷ reload_cache_sig_hup ∷ terminate ∷ debug_disable ∷ []

serves : (serve environment events running).0 ≡ ret tt
unfolding serve settings_change update update_users connect_ldap ◌>>=◌ search merge complete
    new_ldap_user_cache
serves = refl

serve-HasMode_example :
    HasMode environment (last_mode events false) (serve environment events running).1.log
serve-HasMode_example = serve-HasMode environment events false running (refl, refl) serves

abbrev knowing : Online ℕ ℕ ℕ
knowing = record running {
  cache = record {
    users = ("alice", alice) ∷ [];
    groups = [];
    counters = [];
    timings = [];
    iterations = 0;
    world = record { conn = Fixtures.ldap_server; world = 0 };
  };
}

Knows-alice : Knows "alice" knowing.cache
unfolding lookup
Knows-alice = (alice, refl)

serve-Knows_example : Knows "alice" (serve environment events knowing).1.cache
serve-Knows_example = serve-Knows environment "alice" events knowing Knows-alice

-- The same program with LDAP roles, and a connection on which a request and an answer arrive.
abbrev role_flags : Flags
role_flags = record flags { enable_ldap_roles = true }

abbrev granting : Online ℕ ℕ ℕ
granting = record running {
  config = complete (merge role_flags file);
  cache =
      (new_ldap_user_cache ssh (λ n users. users) (cache_config (complete (merge role_flags file)))
        (ldap_server environment (complete (merge role_flags file))) [] []
        (record { conn = Fixtures.ldap_server; world = 0 })).1;
}

abbrev asking : State (World ℕ ℕ)
asking = record {
  conn = connection (ok request_message ∷ ok answer_message ∷ []);
  drawn = 0;
  counters = [];
  world = granting.cache;
}
