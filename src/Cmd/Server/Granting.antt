-- ===== src/Cmd/Server/Granting.antt =====
-- What a running cmd/hologram-server hands out when it was started with -ldaproles.
use hologram.Prelude.{ℕ, ◌≡◌, String, some, []}
use hologram.Prelude.Go.{Bytes, ok, ret}
use hologram.Log
use hologram.Protocol.Message.{Message}
use hologram.Server.Types.{User, Credentials, Signature}
use hologram.Server.Credentials.{arn_of, role_input, DirectSessionTokenService}
use hologram.Server.Credentials.Access.{Has}
use hologram.Server.UserCache.Signing.{Signs}
use hologram.Server.Handler.State.{State}
use hologram.Server.Handler.Loop.{handle_connection}
use hologram.Server.UserCache.Origin.{IsDirectoryUser, IsFromDirectory}
use hologram.Server.PersistentLdap.{Persistent}
use hologram.Server.UserCache.{update}
use hologram.Server.Assembly.{shared_service}
use hologram.Cmd.Server.Configuration.{Config}
use hologram.Cmd.Server.Starting.{
  Environment, World, services, cache_config, handler_settings, credentials_service, ldap_server,
}

module _ {Key W : Type 0} (env : Environment Key W) (config : Config) where
  -- The credential service of the program with this configuration.
  abbrev pub service : DirectSessionTokenService (World Key W)
  service = shared_service (credentials_service config env.sts)

  -- The user is made of an entry that the program's search for keys returned, and of groups that its
  -- search for groups returned.
  abbrev pub IsLdapUser : User Key → Type 0
  IsLdapUser = IsDirectoryUser env.ssh env.order (cache_config config) (ldap_server env config)

  -- All that the cache holds was found in LDAP.
  abbrev pub IsFromLdap : World Key W → Type 0
  IsFromLdap = IsFromDirectory env.ssh env.order (cache_config config) (ldap_server env config)

  -- STS issued the credentials in the name of a user of LDAP one of whose keys made a signature that
  -- was checked, and for a role that one of the user's ARNs stands for.
  abbrev pub IsRoleIssued : Credentials → Type 0
  IsRoleIssued creds =
      (user : User Key) × (role : String) × (w : World Key W) × (IsLdapUser user
        × ((challenge : Bytes) × (signature : Signature) × Signs env.ssh challenge signature
              user.ssh_keys))
      × Has service user.arns role
      × ((service.sts.assume_role (role_input user (arn_of service role)) w).0
          ≡ ret (ok (some creds)))

  -- What the program comes to from a world that it started with: by what happens outside, by an update
  -- of the cache, and by serving a connection, for as long as fuel is given.
  pub data Reaches (first : World Key W) : World Key W → Type 0 where
    started : Reaches first first
    outside :
        (w : World Key W) (p : Persistent W)
        → Reaches first w
        → Reaches first (record w { world = p })
    updated :
        (w : World Key W)
        → Reaches first w
        → Reaches first
            (update env.ssh env.order (cache_config config) (ldap_server env config) w).1
    served :
        (fuel : ℕ) (s : State (World Key W))
        → s.conn.sent ≡ []
        → Reaches first s.world
        → Reaches first
            (handle_connection (handler_settings config) (services env config) fuel s).1.world
