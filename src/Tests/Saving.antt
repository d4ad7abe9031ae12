-- ===== src/Tests/Saving.antt =====
-- The theorems on cmd/hologram-authorize at concrete inputs.
use hologram.Prelude.{
  ℕ, ◌≡◌, sym, ap, ◌++◌, str_eq_iff, refl, inl, inr, String, suc, true, false, some, none, List, [],
  ◌∷◌, map, Option, All, arith, str_eq, if◌then◌else◌, ◌<◌,
}
use hologram.Prelude.Go.{Bytes, Result, ok, err, ret, Go}
use hologram.Prelude.Base64.{text_bytes}
use hologram.Prelude.Base64.Encode.{base64_encode}
use hologram.Protocol.Connection.{Conn}
use hologram.Protocol.Requests
use hologram.Protocol.Requests.{AddSshKey}
use hologram.Server.Handler.Requests.{has_key}
use hologram.Server.Types.{Entry, entries}
use hologram.Server.Handler.State.{Services}
use hologram.Server.UserCache.{Ssh}
use hologram.Cmd.Cli.EndToEnd.{fresh}
use hologram.Cmd.Authorize
use hologram.Cmd.Authorize.{
  ssh_key, add_key_message, load_config, config_path, password, get_agent_ssh_key, user_name,
  password_hash,
}
use hologram.Cmd.Authorize.Saving.{IsOffered, IsParsed, ssh_key-parses}
use hologram.Cmd.Authorize.EndToEnd.{
  Adds, Ready, save_request, after_server, saved_text, saved_code, prompts, main-saves,
}
use hologram.Tests.Fixtures.{services, settings, alice_entry}

-- hologram-authorize for alice, whose ssh-agent holds one key; LDAP knows her password's hash.
abbrev authorize_surroundings : Authorize.Surroundings
authorize_surroundings = record {
  getenv = λ name. if str_eq name "LDAP_USER" then "alice" else "secret";
  expand = λ path. err "no home";
  read_file = λ path. ok (1 ∷ []);
  agent_keys = λ sock. some ((1 ∷ 2 ∷ 3 ∷ []) ∷ []);
  typed_word = "";
  typed_password = err "no terminal";
  host_field = λ bytes. "hologram:3100";
  md5 = λ bytes. 9 ∷ 9 ∷ 9 ∷ [];
}

abbrev no_authorized_key : Bytes → Result Bytes
no_authorized_key bytes = err "no key"

abbrev wire_keys : Ssh Bytes
wire_keys = record {
  parse_public_key = λ blob. some blob;
  parse_authorized_key = λ line. none;
  verify = λ key challenge signature. true;
}

abbrev first_blob : Option (List Bytes) → Bytes
first_blob (some (blob ∷ blobs)) = blob
first_blob _ = []

offered_blob :
    (blob : Bytes) → IsOffered no_authorized_key authorize_surroundings blob → blob ≡ 1 ∷ 2 ∷ 3 ∷ []
offered_blob blob (inl (blobs, e)) = sym (ap first_blob e)
offered_blob blob (inr (dir, e, h)) = absurd (cc e)

offered_bytes :
    (blob : Bytes)
    → IsOffered no_authorized_key authorize_surroundings blob
    → All (λ b. b < 256) blob
offered_bytes blob h = rw (offered_blob blob h) (omega arith, (omega arith, (omega arith, tt)))

ssh_key-parses_example :
    IsParsed no_authorized_key authorize_surroundings wire_keys
      (ssh_key no_authorized_key authorize_surroundings)
ssh_key-parses_example =
    ssh_key-parses no_authorized_key authorize_surroundings wire_keys offered_bytes
      (λ blob h. (blob, refl))

abbrev saving : AddSshKey
saving = save_request no_authorized_key authorize_surroundings (text_bytes "secret")

abbrev user_attribute : String → String
user_attribute name =
    if str_eq name "userPassword"
    then password_hash no_authorized_key authorize_surroundings (text_bytes "secret")
    else ""

abbrev user_entry : Entry
user_entry = record alice_entry { attribute_value = user_attribute }

abbrev user_services : Services ℕ ℕ
user_services = record services {
  ldap_server = record {
    search = λ r w. (ret (entries (user_entry ∷ [])), w);
    modify = λ r w. (ret none, suc w);
  };
}

abbrev saving_dial : String → Go ℕ (Result Conn)
saving_dial host v = (
  ret (
      ok (
        fresh (
          map ok (after_server settings user_services 0 [] (add_key_message saving) 4).conn.sent))),
  v,
)

key_there : str_eq (ssh_key no_authorized_key authorize_surroundings) "" ≡ false
unfolding ssh_key get_agent_ssh_key base64_encode
key_there = refl

has_host : load_config no_authorized_key authorize_surroundings config_path ≡ ok "hologram:3100"
unfolding load_config
has_host = refl

has_password : (password no_authorized_key authorize_surroundings).1 ≡ ok (text_bytes "secret")
unfolding password
has_password = refl

is_Ready :
    Ready no_authorized_key authorize_surroundings saving_dial "hologram:3100" (text_bytes "secret")
is_Ready = record {
  configured = has_host;
  has_key = λ e. absurd (cc (key_there, (str_eq_iff _ _).1 e));
  given = has_password;
}

Adds-key : Adds settings user_services saving user_entry [] none 4 5
unfolding has_key Requests.get_passwordhash
Adds-key = record { searched = 4; found = refl; pass = refl; new = refl; modified = refl }

main-saves_example :
    ((after_server settings user_services 0 [] (add_key_message saving) 4).world ≡ 5)
    × (Authorize.main no_authorized_key authorize_surroundings saving_dial 7 ≡ (
      ret (record {
        printed = prompts no_authorized_key authorize_surroundings ++ saved_text none ∷ [];
        code = saved_code none;
        conn = some (record (fresh []) { sent = add_key_message saving ∷ [] });
      }),
      7,
    ))
main-saves_example =
    main-saves no_authorized_key authorize_surroundings saving_dial settings user_services 0 []
      user_entry [] none "hologram:3100" (text_bytes "secret") 7 is_Ready Adds-key refl
