-- ===== src/Server/Types.antt =====
-- The types that the parts of server/ share, and the interfaces of server/server.go,
-- server/credentials.go and server/usercache.go between them. The records of golang.org/x/crypto/ssh,
-- nmcclain/ldap and aws-sdk-go carry the fields that the program reads.
use hologram.Prelude.{ℕ, String, Bool, Option, List}
use hologram.Prelude.Go.{Error, Bytes, Result, Go}
use hologram.Prelude.Int.{ℤ}

-- `ssh.Signature`
pub record Signature : Type 0 where
  pub format : String
  pub blob : Option Bytes

-- A `time.Time`: whole seconds since 1970, and the nanoseconds past them.
pub record Time : Type 0 where
  pub seconds : ℤ
  pub nanoseconds : ℕ

-- `sts.Credentials`
pub record Credentials : Type 0 where
  pub access_key_id : Option String
  pub secret_access_key : Option String
  pub session_token : Option String
  pub expiration : Option Time

-- usercache.go's `User`; `Key` is `ssh.PublicKey`.
pub record User (Key : Type 0) : Type 0 where
  pub username : String
  pub ssh_keys : List Key
  pub arns : List String
  pub default_role : String

-- `ldap.SearchRequest`: the scope and the limits are the same in every request of the program.
pub record SearchRequest : Type 0 where
  pub base_dn : String
  pub filter : String
  pub attributes : List String

-- `ldap.Entry`, by what its methods return.
pub record Entry : Type 0 where
  pub dn : String
  pub attribute_value : String → String
  pub attribute_values : String → List String

-- `ldap.ModifyRequest`, with the attributes that are added.
pub record ModifyRequest : Type 0 where
  pub dn : String
  pub add_attributes : List (String × List String)

-- The dynamic type of an error matters to persistent_ldap.go: an `*ldap.Error` has a result code.
pub data LdapError : Type 0 where
  ldap_error : ℕ → Error → LdapError
  other_error : Error → LdapError

pub data Searched : Type 0 where
  entries : List Entry → Searched
  failed : LdapError → Searched

-- usercache.go's `LDAPImplementation` over the world `W` outside the program.
pub record LdapImplementation (W : Type 0) : Type 0 where
  pub search : SearchRequest → Go W Searched
  pub modify : ModifyRequest → Go W (Option LdapError)

-- server.go's `Authenticator` and usercache.go's `UserCache`.
pub record UserCache (Key W : Type 0) : Type 0 where
  pub authenticate : String → Bytes → Signature → Go W (Result (Option (User Key)))
  pub update : Go W (Option LdapError)

-- credentials.go's `CredentialService`; the credentials are a pointer.
pub record CredentialService (Key W : Type 0) : Type 0 where
  pub assume_role : User Key → String → Bool → Go W (Result (Option Credentials))
  pub get_session_token : Go W (Result (Option Credentials))
