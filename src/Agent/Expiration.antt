-- ===== src/Agent/Expiration.antt =====
-- agent/credentials_expiration_manager.go: the credentials in use, and their renewal.
pub mod Freshness
use hologram.Prelude.{
  ℕ, String, Bool, true, false, ◌&&◌, ◌||◌, Option, none, some, ltb, str_eq, if◌then◌else◌,
}
use hologram.Prelude.Go.{Error, Result, ok, err, ret, Go, pure, panics, ◌>>=◌}
use hologram.Prelude.Int.{ltb_ℤ, eqb_ℤ}
use hologram.Server.Types.{Time, Credentials}
use hologram.Agent.Client.{Client, CredentialsReceiver}

-- `Time.Before`
unfoldable pub before : Time → Time → Bool
before t u =
    ltb_ℤ t.seconds u.seconds || (eqb_ℤ t.seconds u.seconds && ltb t.nanoseconds u.nanoseconds)

-- `credentialsExpirationManager`. Its client works on the same state, since it calls
-- `SetCredentials`, and is a parameter of the operations that use it.
pub record Manager (W : Type 0) : Type 0 where
  pub creds : Option Credentials
  pub user : String
  pub role : String
  pub world : W

abbrev pub new_manager : {W : Type 0} → W → Manager W
new_manager w = record { creds = none; user = ""; role = ""; world = w }

-- A call that leaves the manager alone.
abbrev pub beside : {W A : Type 0} → Go W A → Go (Manager W) A
beside f m = let (o, w) = f m.world in (o, record m { world = w })

module _ {W : Type 0} where
  unfoldable pub set_credentials : Option Credentials → String → Go (Manager W) (Unit {0})
  set_credentials creds role s = (ret tt, record s { creds = creds; role = role })

  -- `SetClient` replaces the client that the manager had.
  unfoldable pub set_client :
      Client (Manager W) → Option (Client (Manager W)) → Option (Client (Manager W))
  set_client client old = some client

  abbrev pub receiver : CredentialsReceiver (Manager W)
  receiver = record { set_credentials = set_credentials }

-- `now` is `time.Now()`.
module _ {W : Type 0} (now : W → Time) (client : Option (Client (Manager W))) where
  -- The call that renews the credentials for the role they were made for.
  abbrev pub renew : Client (Manager W) → String → Go (Manager W) (Option Error)
  renew c role = if str_eq role "" then c.get_user_credentials else c.assume_role role

  abbrev pub renew_if : Bool → Client (Manager W) → Go (Manager W) (Option Error)
  renew_if true c s = renew c s.role s
  renew_if false c s = (pure none) s

  -- Credentials without an expiration are a nil pointer that is read.
  abbrev pub check_expiration : Client (Manager W) → Option Time → Go (Manager W) (Option Error)
  check_expiration c none s = panics s
  check_expiration c (some t) s = renew_if (before t (now s.world)) c s

  abbrev pub refresh_with :
      Option (Client (Manager W)) → Credentials → Go (Manager W) (Option Error)
  refresh_with none creds = pure (some "No client set for refreshing credentials")
  refresh_with (some c) creds = check_expiration c creds.expiration

  unfoldable pub maybe_refresh_credentials : Credentials → Go (Manager W) (Option Error)
  maybe_refresh_credentials creds = refresh_with client creds

  abbrev pub after_refresh : Option Error → Go (Manager W) (Result (Option Credentials))
  after_refresh (some e) s = (pure (err e)) s
  after_refresh none s = (pure (ok s.creds)) s

  abbrev pub get_set : Option Credentials → Go (Manager W) (Result (Option Credentials))
  get_set none = pure (err "No credentials set. Please activate hologram from the CLI first")
  get_set (some creds) = maybe_refresh_credentials creds >>= after_refresh

  -- `GetCredentials`
  unfoldable pub get_credentials : Go (Manager W) (Result (Option Credentials))
  get_credentials s = get_set s.creds s
