-- ===== src/Tests/Assembly.antt =====
-- The theorem on the assembled server at a concrete input.
use hologram.Prelude.{ℕ, ◌%◌, none, some, [], ◌∷◌, All}
use hologram.Prelude.Go.{ok, ret}
use hologram.Server.Types.{LdapImplementation, entries}
use hologram.Server.Credentials.{DirectSessionTokenService}
use hologram.Server.UserCache.{Cache, new_ldap_user_cache}
use hologram.Server.UserCache.Origin.{IsFromDirectory, new_ldap_user_cache-IsFromDirectory}
use hologram.Server.Handler.State.{State}
use hologram.Server.Handler.Loop.{handle_connection}
use hologram.Server.Handler.Provenance.{IsGranted}
use hologram.Server.Assembly.{server, IsIssued, server-grants}
use hologram.Tests.Fixtures.{alice_entry, creds, ldap_server, settings}
use hologram.Tests.UserCache.{ssh, config, as_stored}
use hologram.Tests.Handler.{request_message, answer_message, connection}

abbrev service : DirectSessionTokenService ℕ
service = record {
  iam_account = "123";
  sts = record {
    assume_role = λ input w. (ret (ok (some creds)), w);
    get_session_token = λ w. (ret (ok (some creds)), w);
  };
  account_aliases = none;
}

abbrev same_ldap : LdapImplementation ℕ
same_ldap = record {
  search = λ r w. (ret (entries (alice_entry ∷ [])), w);
  modify = λ r w. (ret none, w);
}

-- A cache that was filled from the directory.
abbrev filled : Cache ℕ ℕ
filled = (new_ldap_user_cache ssh (λ n d. d) config ldap_server [] [] 0).1

abbrev asking : State (Cache ℕ ℕ)
asking = record {
  conn = connection (ok request_message ∷ ok answer_message ∷ []);
  drawn = 0;
  counters = [];
  world = filled;
}

server-grants_example :
    let after =
      (handle_connection settings
        (server ssh (λ n d. d) config ldap_server service same_ldap (λ n. n % 256) settings)
        3
        asking).1 in
    All
      (IsGranted
        (IsIssued ssh (λ n d. d) config ldap_server service same_ldap (λ n. n % 256) settings))
      after.conn.sent
    × IsFromDirectory ssh (λ n d. d) config ldap_server after.world
server-grants_example =
    server-grants ssh (λ n d. d) config ldap_server service same_ldap (λ n. n % 256) settings
      as_stored 3 asking
      (new_ldap_user_cache-IsFromDirectory ssh (λ n d. d) config ldap_server [] [] 0) tt
