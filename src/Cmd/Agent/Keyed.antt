-- ===== src/Cmd/Agent/Keyed.antt =====
-- The client of cmd/hologram-agent that works with an access key: what it stores comes from STS.
use hologram.Prelude.{◌≡◌, refl, sym, ap, ◌∙◌, ◌⊎◌, inl, inr, String, Option, none, some}
use hologram.Prelude.Go.{Error, Result, ok, err, Outcome, ret, panic, out_of_fuel, continue, ◌>>=◌}
use hologram.Prelude.Keeps.{Ensures, Keeps, Any, Keeps-pure, Keeps-bind}
use hologram.Server.Types.{Credentials}
use hologram.Server.Credentials.{Aliases, Sts, AssumeRoleInput, build_arn, role_input, arn_of}
use hologram.Server.Credentials
use hologram.Agent.Client.{Client, access_key_client, forward}
use hologram.Agent.Client.Creation.{
  IamUser, iam_account, service, with_parts, with_user, new_access_key_client,
  new_direct_session_token_service,
}
use hologram.Agent.Expiration.{Manager, receiver, set_credentials}
use hologram.Agent.Assembly.Stored.{IsGood, Holds, StoresGood}
use hologram.Cmd.Agent.{Environment, aws}

module _ {U : Type 0} (sts : Sts U) (account name : String) (aliases : Option Aliases) where
  -- STS gave out the credentials, for the ARN of the role and the name of the user, or, where no role is
  -- kept beside them, as a session of the access key.
  abbrev pub IsIssued : String → Credentials → Type 0
  IsIssued role c =
      ((u : U) × (u' : U) × (sts.assume_role
            (record {
              duration_seconds = 3600;
              role_arn = build_arn role account aliases;
              role_session_name = name;
            })
            u
          ≡ (ret (ok (some c)), u')))
      ⊎ ((u : U) × (u' : U) × (role ≡ "") × (sts.get_session_token u ≡ (ret (ok (some c)), u')))

  abbrev IsIssuedResult : String → Result (Option Credentials) → Type 0
  IsIssuedResult role (ok c) = IsGood IsIssued role c
  IsIssuedResult role (err e) = Unit

module _ {U : Type 0} (env : Environment U) (account name : String) (aliases : Option Aliases) where
  abbrev pub Issued : String → Credentials → Type 0
  Issued = IsIssued env.aws.sts account name aliases

  abbrev pub IssuedResult : String → Result (Option Credentials) → Type 0
  IssuedResult = IsIssuedResult env.aws.sts account name aliases

  by_role :
      (role : String) (u : U) (x : Outcome (Result (Option Credentials)) × U)
      → env.aws.sts.assume_role
          (record {
            duration_seconds = 3600;
            role_arn = build_arn role account aliases;
            role_session_name = name;
          })
          u
        ≡ x
      → Ensures (IssuedResult role) x.0
  by_role role u (ret (ok (some c)), u') h = inl (u, u', h)
  by_role role u (ret (ok none), u') h = tt
  by_role role u (ret (err e), u') h = tt
  by_role role u (panic, u') h = tt
  by_role role u (out_of_fuel, u') h = tt

  by_session :
      (u : U) (x : Outcome (Result (Option Credentials)) × U)
      → env.aws.sts.get_session_token u ≡ x
      → Ensures (IssuedResult "") x.0
  by_session u (ret (ok (some c)), u') h = inr (u, u', refl, h)
  by_session u (ret (ok none), u') h = tt
  by_session u (ret (err e), u') h = tt
  by_session u (panic, u') h = tt
  by_session u (out_of_fuel, u') h = tt

  abbrev pub key_client : Client (Manager U)
  key_client = access_key_client (service (aws env) receiver aliases account) name receiver

  forward-Keeps :
      (role : String) (r : Result (Option Credentials))
      → IssuedResult role r
      → Keeps
          (Holds Issued)
          Any
          (forward (service (aws env) receiver aliases account) name receiver role r)
  unfolding ◌>>=◌ set_credentials
  forward-Keeps role (err e) g = Keeps-pure _ tt
  forward-Keeps role (ok c) g = record { at = λ m h. (g, tt) }

  pub key_client-StoresGood : StoresGood Issued key_client
  unfolding Credentials.assume_role arn_of new_direct_session_token_service
      Credentials.get_session_token
  key_client-StoresGood = record {
    assume_role = λ role.
        Keeps-bind {Q = IssuedResult role} (record { at = λ m h. (h, by_role role m.world _ refl) })
          (λ r g. forward-Keeps role r g);
    get_user_credentials =
        Keeps-bind {Q = IssuedResult ""} (record { at = λ m h. (h, by_session m.world _ refl) })
          (λ r g. forward-Keeps "" r g);
  }

module _ {U : Type 0} (env : Environment U) where
  -- The account and the name of the user that `GetUser` gave.
  abbrev pub IsUser : String → String → Type 0
  IsUser account name =
      (user : IamUser) × (e : Option Error) × (u : U) × (u' : U) × (env.aws.get_user u
        ≡ (ret (some user, e), u'))
      × (iam_account user.arn ≡ some account)
      × (user.user_name ≡ some name)

module _ {U : Type 0} (env : Environment U) (aliases : Option Aliases) where
  abbrev pub MadeWithKey : Client (Manager U) → Manager U → Manager U → Type 0
  MadeWithKey client m m' =
      (account : String) × (name : String) × IsUser env account name
      × (client ≡ key_client env account name aliases)
      × (m'.creds ≡ m.creds)
      × (m'.role ≡ m.role)

  by_parts :
      (user : IamUser) (e : Option Error) (account name : Option String) (m m1 m' : Manager U)
      (u u' : U) (client : Client (Manager U))
      → env.aws.get_user u ≡ (ret (some user, e), u')
      → iam_account user.arn ≡ account
      → user.user_name ≡ name
      → m1.creds ≡ m.creds
      → m1.role ≡ m.role
      → with_parts (aws env) receiver aliases account name m1 ≡ (ret client, m')
      → MadeWithKey client m m'
  by_parts user e (some account) (some name) m m1 m' u u' client got a n c r h =
      let same : m1 ≡ m' = cc h in
      (
        account,
        name,
        (user, e, u, u', got, a, n),
        cc h,
        ap (λ x. x.creds) (sym same) ∙ c,
        ap (λ x. x.role) (sym same) ∙ r,
      )
  by_parts user e none name m m1 m' u u' client got a n c r h = absurd (cc h)
  by_parts user e (some account) none m m1 m' u u' client got a n c r h = absurd (cc h)

  by_user :
      (m m' : Manager U) (client : Client (Manager U))
      (x : Outcome (Option IamUser × Option Error) × U)
      → env.aws.get_user m.world ≡ x
      → continue x.0 (with_user (aws env) receiver aliases) (record m { world = x.1 })
        ≡ (ret client, m')
      → MadeWithKey client m m'
  by_user m m' client (ret (some user, e), u') got h =
      by_parts user e (iam_account user.arn) user.user_name m (record m { world = u' }) m' m.world
        u' client got refl refl refl refl h
  by_user m m' client (ret (none, e), u') got h = absurd (cc h)
  by_user m m' client (panic, u') got h = absurd (cc h)
  by_user m m' client (out_of_fuel, u') got h = absurd (cc h)

  pub new_access_key_client-MadeWithKey :
      (m m' : Manager U) (client : Client (Manager U))
      → new_access_key_client (aws env) receiver aliases m ≡ (ret client, m')
      → MadeWithKey client m m'
  unfolding new_access_key_client ◌>>=◌
  new_access_key_client-MadeWithKey m m' client h = by_user m m' client _ refl h
