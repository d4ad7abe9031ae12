-- ===== src/Server/Assembly.antt =====
-- The server as cmd/hologram-server puts it together from the parts of server/: the connection handler
-- of server.go over the user cache of usercache.go and the credential service of credentials.go.
use hologram.Prelude.{ℕ, ◌≡◌, refl, inl, inr, String, Bool, true, false, Option, none, some, All}
use hologram.Prelude.Go.{Bytes, Result, ok, err, Outcome, ret, panic, out_of_fuel, Go}
use hologram.Prelude.Keeps.{Keeps, Ensures, Any, Ensures-Any}
use hologram.Prelude.Dict.{Dict}
use hologram.Server.Types.{Signature, User, Credentials, LdapError, LdapImplementation}
use hologram.Server.Credentials.{
  DirectSessionTokenService, direct_service, arn_of, assume_role, role_input,
}
use hologram.Server.Credentials.Access.{Has, assume_role_authorized, assume_role_open}
use hologram.Server.UserCache.{Ssh, Config, Cache, authenticate, ldap_user_cache, update}
use hologram.Server.UserCache.Signing.{Signs, Second, IsOrder, missed, authenticate-answers}
use hologram.Server.UserCache.Origin.{
  IsDirectoryUser, IsFromDirectory, IsFromDirectory-outside, IsFromDirectory-counted,
  member-IsDirectoryUser, update-IsFromDirectory,
}
use hologram.Server.Handler.State.{Settings, State, Services}
use hologram.Server.Handler.Loop.{handle_connection}
use hologram.Server.Handler.Provenance.{IsGranted, IsFaithful, OkUser, OkCredentials}
use hologram.Server.Handler.Provenance.Connection.{handle_connection-grants}

-- Calls that the connection handler makes past the cache, which it does not touch by them.
module _ {Key W : Type 0} where
  abbrev pub past_cache : {A : Type 0} → Go W A → Go (Cache Key W) A
  past_cache m s = let (o, w) = m s.world in (o, record s { world = w })

  abbrev pub shared_ldap : LdapImplementation W → LdapImplementation (Cache Key W)
  shared_ldap ldap = record {
    search = λ r. past_cache (ldap.search r);
    modify = λ r. past_cache (ldap.modify r);
  }

  abbrev pub shared_service : DirectSessionTokenService W → DirectSessionTokenService (Cache Key W)
  shared_service service = record {
    iam_account = service.iam_account;
    sts = record {
      assume_role = λ i. past_cache (service.sts.assume_role i);
      get_session_token = past_cache service.sts.get_session_token;
    };
    account_aliases = service.account_aliases;
  }

module _ {Key W : Type 0} (ssh : Ssh Key) (order : ℕ → Dict (User Key) → Dict (User Key))
    (config : Config) (ldap : LdapImplementation W) (service : DirectSessionTokenService W)
    (ldap_server : LdapImplementation W) (rand_int : ℕ → ℕ) (settings : Settings) where
  -- STS does not touch the cache.
  abbrev pub past : DirectSessionTokenService (Cache Key W)
  past = shared_service service

  -- `New` of server.go, with the implementations in place of the interfaces.
  abbrev pub server : Services Key (Cache Key W)
  server = record {
    user_cache = ldap_user_cache ssh order config ldap;
    credentials = direct_service past;
    ldap_server = shared_ldap ldap_server;
    rand_int = rand_int;
  }

  -- All that the cache holds comes from the directory.
  abbrev pub FromDirectory : Cache Key W → Type 0
  FromDirectory = IsFromDirectory ssh order config ldap

  -- A user made of what the directory returned, one of whose keys made a signature that was checked.
  abbrev pub HasSigned : User Key → Type 0
  HasSigned user =
      IsDirectoryUser ssh order config ldap user
      × ((challenge : Bytes) × (signature : Signature) × Signs ssh challenge signature
            user.ssh_keys)

  -- STS issued the credentials for a user of the directory who has signed, in that user's name, and
  -- with LDAP roles on for a role that the directory gives this user.
  abbrev pub IsIssued : Credentials → Type 0
  IsIssued creds =
      (user : User Key) × (role : String) × (w : Cache Key W) × HasSigned user
      × (settings.enable_ldap_roles ≡ true → Has past user.arns role)
      × ((past.sts.assume_role (role_input user (arn_of past role)) w).0 ≡ ret (ok (some creds)))

  Second-HasSigned :
      (challenge : Bytes) (signature : Signature) (x : Outcome (Option LdapError) × Cache Key W)
      (run : Outcome (Result (Option (User Key))) × Cache Key W)
      → FromDirectory x.1
      → Second ssh challenge signature x run
      → FromDirectory run.1 × Ensures (OkUser HasSigned) run.0
  Second-HasSigned challenge signature (ret e, s) run d (some user, (known, signs), h) = rw h (
    IsFromDirectory-counted ssh order config ldap s _ _ d,
    (
      member-IsDirectoryUser ssh order config ldap user s.users known d.users_known,
      (challenge, signature, signs),
    ),
  )
  Second-HasSigned challenge signature (ret e, s) run d (none, a, h) =
      rw h (IsFromDirectory-counted ssh order config ldap s _ _ d, tt)
  Second-HasSigned challenge signature (panic, s) run d h = rw h (d, tt)
  Second-HasSigned challenge signature (out_of_fuel, s) run d h = rw h (d, tt)

  issued :
      (user : User Key) (role : String) (w : Cache Key W)
      (o : Outcome (Result (Option Credentials)))
      → HasSigned user
      → (settings.enable_ldap_roles ≡ true → Has past user.arns role)
      → (past.sts.assume_role (role_input user (arn_of past role)) w).0 ≡ o
      → Ensures (OkCredentials IsIssued) o
  issued user role w (ret (ok (some creds))) signed has e = (user, role, w, signed, has, e)
  issued user role w (ret (ok none)) signed has e = tt
  issued user role w (ret (err x)) signed has e = tt
  issued user role w panic signed has e = tt
  issued user role w out_of_fuel signed has e = tt

  granted_if :
      (on : Bool) (user : User Key) (role : String) (w : Cache Key W)
      → settings.enable_ldap_roles ≡ on
      → HasSigned user
      → FromDirectory w
      → let run = assume_role past user role on w in
        FromDirectory run.1 × Ensures (OkCredentials IsIssued) run.0
  granted_if true user role w e signed d = elim (assume_role_authorized past user role w) [
    | inl p ↦ rw p.1 (
      IsFromDirectory-outside ssh order config ldap w _ d,
      issued user role w _ signed (λ _. p.0) refl,
    )
    | inr p ↦ rw p.1 (d, tt)
  ]
  granted_if false user role w e signed d = rw (assume_role_open past user role w) (
    IsFromDirectory-outside ssh order config ldap w _ d,
    issued user role w _ signed (λ h. cc (h, e)) refl,
  )

  Keeps-past_cache : {A : Type 0} (m : Go W A) → Keeps FromDirectory Any (past_cache m)
  Keeps-past_cache m = record {
    at = λ s h. (IsFromDirectory-outside ssh order config ldap s _ h, Ensures-Any _);
  }

  module _ (same : (n : ℕ) → IsOrder (order n)) where
    authenticated :
        (name : String) (challenge : Bytes) (signature : Signature)
        → Keeps FromDirectory
            (OkUser HasSigned)
            (authenticate ssh order config ldap name challenge signature)
    authenticated name challenge signature = record {
      at = λ s d.
          elim (authenticate-answers ssh order same config ldap challenge signature name s) [
            | inl (user, (known, signs), e) ↦ rw e (
              IsFromDirectory-counted ssh order config ldap s _ _ d,
              (
                member-IsDirectoryUser ssh order config ldap user s.users known d.users_known,
                (challenge, signature, signs),
              ),
            )
            | inr (nobody, x) ↦
                Second-HasSigned challenge signature (update ssh order config ldap (missed s)) _
                  ((update-IsFromDirectory ssh order config ldap).at (missed s)
                    (IsFromDirectory-counted ssh order config ldap s _ _ d)).0
                  x
          ];
    }

    server-IsFaithful :
        IsFaithful server settings.enable_ldap_roles FromDirectory HasSigned IsIssued
    server-IsFaithful = record {
      authenticated = authenticated;
      granted = λ user role signed. record {
        at = λ w d. granted_if settings.enable_ldap_roles user role w refl signed d;
      };
      updated = update-IsFromDirectory ssh order config ldap;
      searched = λ r. Keeps-past_cache (ldap_server.search r);
      modified = λ r. Keeps-past_cache (ldap_server.modify r);
    }

    -- If a loop over the map of users takes all its entries, in whatever order, and the cache holds
    -- only users made of entries that LDAP returned, then on a connection of the assembled server on
    -- which only issued credentials have been sent, all that is ever sent is issued: STS returned it in
    -- the name of a user who is made of an entry that the search for keys returned and of groups that
    -- the search for groups returned, and one of whose keys made a signature that was checked; and with
    -- LDAP roles on it is for a role that one of the ARNs stands for that those groups give this user.
    -- Afterwards the cache still holds only such users.
    pub server-grants :
        (fuel : ℕ) (s : State (Cache Key W))
        → FromDirectory s.world
        → All (IsGranted IsIssued) s.conn.sent
        → let after = (handle_connection settings server fuel s).1 in
          All (IsGranted IsIssued) after.conn.sent × FromDirectory after.world
    server-grants fuel s d h = handle_connection-grants settings server server-IsFaithful fuel s d h
