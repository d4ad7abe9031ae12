-- ===== src/Tests/PersistentLdap.antt =====
-- The theorem on the user cache over server/persistent_ldap.go, at a concrete input.
use hologram.Prelude.{ℕ, ◌≡◌, refl, inl, inr, some, [], ◌∷◌}
use hologram.Prelude.Go.{ret, Go}
use hologram.Server.Types.{Signature, ldap_error, failed, LdapImplementation}
use hologram.Server.PersistentLdap.{Opened, opened, Persistent, persistent_ldap}
use hologram.Server.PersistentLdap.Transparent.{IsDirectory, Connects, Opens}
use hologram.Server.UserCache.{Cache, authenticate}
use hologram.Server.UserCache.Steady.{below, authenticate-persistent_ldap}
use hologram.Tests.UserCache.{ssh, config}
use hologram.Tests.Fixtures.{ldap_server}

-- The code of a network error is 200, and this connection is gone.
abbrev lost : LdapImplementation ℕ
lost = record {
  search = λ r w. (ret (failed (ldap_error 200 "ldap: connection closed")), w);
  modify = λ r w. (ret (some (ldap_error 200 "ldap: connection closed")), w);
}

abbrev reopen : Go ℕ (Opened ℕ)
reopen w = (ret (opened ldap_server), w)

lost-Connects : Connects 200 ldap_server lost
lost-Connects = record { search = λ r w. inr ("ldap: connection closed", refl) }

server-Connects : Connects 200 ldap_server ldap_server
server-Connects = record { search = λ r w. inl refl }

reopen-Opens : Opens 200 ldap_server reopen
reopen-Opens w = (ldap_server, refl, server-Connects, record { search = λ r. refl })

server-IsDirectory : IsDirectory 200 ldap_server
server-IsDirectory = record { search = λ r w. tt }

-- A cache that knows no one yet, over a connection that is gone.
abbrev over_lost : Cache ℕ (Persistent ℕ)
over_lost = record {
  users = [];
  groups = [];
  counters = [];
  timings = [];
  iterations = 0;
  world = record { conn = lost; world = 0 };
}

abbrev by_alice : Signature
by_alice = record { format = "ssh-rsa"; blob = some (1 ∷ []) }

authenticate-persistent_ldap_example :
    ((authenticate ssh
        (λ n d. d)
        config
        (persistent_ldap 200 reopen)
        "derp"
        (7 ∷ [])
        by_alice
        over_lost).0
      ≡ (authenticate ssh
          (λ n d. d)
          config
          ldap_server
          "derp"
          (7 ∷ [])
          by_alice
          (below over_lost)).0)
    × (below
          (authenticate ssh
            (λ n d. d)
            config
            (persistent_ldap 200 reopen)
            "derp"
            (7 ∷ [])
            by_alice
            over_lost).1
        ≡ (authenticate ssh
            (λ n d. d)
            config
            ldap_server
            "derp"
            (7 ∷ [])
            by_alice
            (below over_lost)).1)
authenticate-persistent_ldap_example =
    authenticate-persistent_ldap 200 ldap_server ssh (λ n d. d) config reopen reopen-Opens
      server-IsDirectory (7 ∷ []) by_alice "derp" over_lost lost-Connects
