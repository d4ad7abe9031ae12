-- ===== src/Tests/Fixtures.antt =====
-- Concrete collaborators for the tests: keys and worlds are numbers.
use hologram.Prelude.{ℕ, ◌+◌, ◌%◌, none, some, [], ◌∷◌, true, str_eq, if◌then◌else◌, List, String}
use hologram.Prelude.Go.{Bytes, Result, ok, err, ret}
use hologram.Prelude.Int.{pos}
use hologram.Protocol.Ping
use hologram.Protocol.Message.{Message, empty_message}
use hologram.Server.Types.{Time, Credentials, User, Entry, entries, LdapImplementation}
use hologram.Server.Handler.State.{Settings, Services}

-- One message has a form of two bytes.
abbrev pub ping_message : Message
ping_message = record empty_message { ping = some (record { type = some Ping.request }) }

abbrev pub marshal : Message → Result Bytes
marshal m = ok (10 ∷ 20 ∷ [])

abbrev pub unmarshal : Bytes → Result Message
unmarshal [] = err "unexpected EOF"
unmarshal (b ∷ bs) = ok ping_message

abbrev pub alice : User ℕ
alice = record {
  username = "alice";
  ssh_keys = 1 ∷ [];
  arns = "arn:aws:iam::123:role/engineer" ∷ [];
  default_role = "engineer";
}

abbrev pub noon : Time
noon = record { seconds = pos 43200; nanoseconds = 0 }

abbrev pub creds : Credentials
creds = record {
  access_key_id = some "id";
  secret_access_key = some "secret";
  session_token = some "token";
  expiration = some noon;
}

abbrev pub settings : Settings
settings = record {
  default_role = "engineer";
  user_attr = "cn";
  ssh_attr = "sshPublicKey";
  base_dn = "dc=example";
  enable_ldap_roles = true;
  default_role_attr = "role";
}

-- The attributes of alice's entry.
abbrev pub alice_attributes : String → List String
alice_attributes name = if str_eq name "cn" then "alice" ∷ [] else []

abbrev pub alice_attribute : String → String
alice_attribute name =
    if str_eq name "cn" then "alice" else if str_eq name "userPassword" then "hash" else ""

abbrev pub alice_entry : Entry
alice_entry = record {
  dn = "cn=alice,dc=example";
  attribute_value = alice_attribute;
  attribute_values = alice_attributes;
}

abbrev pub ldap_server : LdapImplementation ℕ
ldap_server = record {
  search = λ r w. (ret (entries (alice_entry ∷ [])), w);
  modify = λ r w. (ret none, w + 1);
}

-- The user cache knows alice, and STS gives out `creds`.
abbrev pub services : Services ℕ ℕ
services = record {
  user_cache = record {
    authenticate = λ name challenge signature w. (ret (ok (some alice)), w);
    update = λ w. (ret none, w + 1);
  };
  credentials = record {
    assume_role = λ user role enable w. (ret (ok (some creds)), w);
    get_session_token = λ w. (ret (ok (some creds)), w);
  };
  ldap_server = ldap_server;
  rand_int = λ n. n % 256;
}
