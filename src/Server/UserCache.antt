-- ===== src/Server/UserCache.antt =====
-- server/usercache.go: the users that LDAP knows, with their keys and roles, and the check of a
-- signature against all of them.
pub mod Signing
pub mod Updating
pub mod Sharing
pub mod Steady
pub mod Origin
use hologram.Prelude.{
  ℕ, ◌+◌, String, Bool, true, false, Option, none, some, List, [], ◌∷◌, ◌++◌, str_eq, if◌then◌else◌,
}
use hologram.Prelude.Go.{Bytes, Result, ok, Outcome, ret, Go, pure, ◌>>=◌, ◌>>◌}
use hologram.Prelude.Dict.{Dict, lookup, insert}
use hologram.Prelude.Base64.{text_bytes, base64_decode}
use hologram.Server.Types.{
  Signature, User, SearchRequest, Entry, LdapError, Searched, entries, failed, LdapImplementation,
  UserCache,
}

-- The fields of `ldapUserCache` that hold settings.
pub record Config : Type 0 where
  pub user_attr : String
  pub ssh_attr : String
  pub base_dn : String
  pub enable_ldap_roles : Bool
  pub role_attribute : String
  pub default_role : String
  pub default_role_attr : String

-- golang.org/x/crypto/ssh, as far as the cache calls it.
pub record Ssh (Key : Type 0) : Type 0 where
  pub parse_public_key : Bytes → Option Key
  pub parse_authorized_key : Bytes → Option Key
  pub verify : Key → Bytes → Signature → Bool

-- The maps of `ldapUserCache`, what it sends to statsd, and the LDAP server's world. `iterations`
-- counts the loops over `users`, since each may take another order.
pub record Cache (Key W : Type 0) : Type 0 where
  pub users : Dict (User Key)
  pub groups : Dict (List String)
  pub counters : List String
  pub timings : List String
  pub iterations : ℕ
  pub world : W

-- A missing key of a map of slices gives nil, which has no elements.
unfoldable pub group_arns : Dict (List String) → String → List String
group_arns groups dn = elim (lookup dn groups) [ none ↦ [] | some arns ↦ arns ]

unfoldable pub arns_of : Dict (List String) → List String → List String
arns_of groups [] = []
arns_of groups (dn ∷ dns) = group_arns groups dn ++ arns_of groups dns

unfoldable pub add_groups : Config → List Entry → Dict (List String) → Dict (List String)
add_groups config [] groups = groups
add_groups config (entry ∷ rest) groups =
    add_groups config rest (insert entry.dn (entry.attribute_values config.role_attribute) groups)

abbrev pub group_search : Config → SearchRequest
group_search config = record {
  base_dn = config.base_dn;
  filter = "(objectClass=groupOfNames)";
  attributes = config.role_attribute ∷ [];
}

abbrev pub key_search : Config → SearchRequest
key_search config = record {
  base_dn = config.base_dn;
  filter = "(sshPublicKey=*)";
  attributes = config.ssh_attr ∷ config.user_attr ∷ "memberOf" ∷ config.default_role_attr ∷ [];
}

module _ {Key : Type 0} (ssh : Ssh Key) where
  abbrev pub or_authorized : String → Option Key → Option Key
  or_authorized text (some key) = some key
  or_authorized text none = ssh.parse_authorized_key (text_bytes text)

  -- A key of an entry, first as base64 of the wire form and then as a line of authorized_keys.
  unfoldable pub parse_key : String → Option Key
  parse_key text = or_authorized text (ssh.parse_public_key (base64_decode text))

  abbrev pub add_parsed : Option Key → List Key → List Key
  add_parsed none keys = keys
  add_parsed (some key) keys = key ∷ keys

  unfoldable pub parse_keys : List String → List Key
  parse_keys [] = []
  parse_keys (text ∷ texts) = add_parsed (parse_key text) (parse_keys texts)

  unfoldable pub default_role_of : Config → Entry → String
  default_role_of config entry =
      if config.enable_ldap_roles
      then (let role = entry.attribute_value config.default_role_attr in
          if str_eq role "" then config.default_role else role)
      else config.default_role

  -- The `User` that an entry of the search becomes.
  unfoldable pub user_of : Config → Dict (List String) → Entry → User Key
  user_of config groups entry = record {
    username = entry.attribute_value config.user_attr;
    ssh_keys = parse_keys (entry.attribute_values config.ssh_attr);
    arns =
        if config.enable_ldap_roles then arns_of groups (entry.attribute_values "memberOf") else [];
    default_role = default_role_of config entry;
  }

  unfoldable pub add_users :
      Config → Dict (List String) → List Entry → Dict (User Key) → Dict (User Key)
  add_users config groups [] users = users
  add_users config groups (entry ∷ rest) users =
      let user = user_of config groups entry in
      add_users config groups rest (insert user.username user users)

  unfoldable pub verifies : List Key → Bytes → Signature → Bool
  verifies [] challenge signature = false
  verifies (key ∷ keys) challenge signature =
      if ssh.verify key challenge signature then true else verifies keys challenge signature

  -- The first user, in the order of the loop, one of whose keys made the signature.
  unfoldable pub first_signer : Dict (User Key) → Bytes → Signature → Option (User Key)
  first_signer [] challenge signature = none
  first_signer ((name, user) ∷ users) challenge signature =
      let later = first_signer users challenge signature in
      if verifies user.ssh_keys challenge signature then some user else later

-- `order` is the order in which the n-th loop over a map takes its entries.
module _ {Key W : Type 0} (ssh : Ssh Key) (order : ℕ → Dict (User Key) → Dict (User Key))
    (config : Config) (server : LdapImplementation W) where
  abbrev pub ask : SearchRequest → Go (Cache Key W) Searched
  ask r s = let (o, w) = server.search r s.world in (o, record s { world = w })

  abbrev pub store_users : Searched → Go (Cache Key W) (Option LdapError)
  store_users (failed e) s = (pure (some e)) s
  store_users (entries es) s = (pure none) (record s {
    users = add_users ssh config s.groups es s.users;
    timings = s.timings ++ "ldapCacheUpdate" ∷ [];
  })

  unfoldable pub update_users : Go (Cache Key W) (Option LdapError)
  update_users = ask (key_search config) >>= store_users

  abbrev pub store_groups : Searched → Go (Cache Key W) (Option LdapError)
  store_groups (failed e) s = (pure (some e)) s
  store_groups (entries es) s = update_users (record s { groups = add_groups config es s.groups })

  -- `Update`
  unfoldable pub update : Go (Cache Key W) (Option LdapError)
  update =
      if config.enable_ldap_roles then ask (group_search config) >>= store_groups else update_users

  -- `_verify`
  unfoldable pub verify : Bytes → Signature → Go (Cache Key W) (Option (User Key))
  verify challenge signature s = (
    ret (first_signer ssh (order s.iterations s.users) challenge signature),
    record s { iterations = s.iterations + 1 },
  )

  abbrev pub count_miss : Go (Cache Key W) (Unit {0})
  count_miss s = (ret tt, record s { counters = s.counters ++ "ldapCacheMiss" ∷ [] })

  abbrev pub again :
      Bytes → Signature → Option (User Key) → Go (Cache Key W) (Result (Option (User Key)))
  again challenge signature (some user) = pure (ok (some user))
  again challenge signature none = do
    count_miss
    _ ← update
    found ← verify challenge signature
    pure (ok found)

  -- `Authenticate`: a miss updates the cache, whether that works or not, and looks once more.
  unfoldable pub authenticate :
      String → Bytes → Signature → Go (Cache Key W) (Result (Option (User Key)))
  authenticate username challenge signature =
      verify challenge signature >>= again challenge signature

  -- `NewLDAPUserCache`: the empty cache, filled by one update.
  unfoldable pub new_ldap_user_cache :
      List String → List String → W → Outcome (Option LdapError) × Cache Key W
  new_ldap_user_cache counters timings w = update (record {
    users = [];
    groups = [];
    counters = counters;
    timings = timings;
    iterations = 0;
    world = w;
  })

  abbrev pub ldap_user_cache : UserCache Key (Cache Key W)
  ldap_user_cache = record { authenticate = authenticate; update = update }
