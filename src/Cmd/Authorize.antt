-- ===== src/Cmd/Authorize.antt =====
-- cmd/hologram-authorize/main.go: the program that saves a user's SSH key with the server.
pub mod Saving
pub mod EndToEnd
use hologram.Prelude.{
  ℕ, String, ◌<>◌, Bool, Option, none, some, List, [], ◌∷◌, ◌++◌, str_eq, if◌then◌else◌,
}
use hologram.Prelude.Go.{Error, Bytes, Result, ok, err, Go, pure, ◌>>=◌}
use hologram.Prelude.Base64.{text_bytes}
use hologram.Prelude.Base64.Encode.{base64_encode}
use hologram.Protocol.Requests.{AddSshKey}
use hologram.Protocol.Message.{Message, empty_message}
use hologram.Protocol.Connection.{Conn, read, write}

-- What the program reads of its surroundings: the environment, go-homedir's `Expand` and the files;
-- the keys of the ssh-agent on a socket in wire form, where it can be reached; the word and the
-- password that the user types; what encoding/json makes of the field `Host`, and package crypto/md5.
pub record Surroundings : Type 0 where
  pub getenv : String → String
  pub expand : String → Result String
  pub read_file : String → Result Bytes
  pub agent_keys : String → Option (List Bytes)
  pub typed_word : String
  pub typed_password : Result Bytes
  pub host_field : Bytes → String
  pub md5 : Bytes → Bytes

-- How the program ends: what it has printed, its exit code, and its connection, if it got that far.
pub record Ended : Type 0 where
  pub printed : List String
  pub code : ℕ
  pub conn : Option Conn

-- A file whose read error is dropped.
abbrev pub contents : Result Bytes → Bytes
contents (ok bytes) = bytes
contents (err _) = []

-- The request, in a message of its own.
abbrev pub add_key : String → String → String → AddSshKey
add_key user hash key = record {
  username = some user;
  passwordhash = some hash;
  sshkeybytes = some key;
}

abbrev pub add_key_message : AddSshKey → Message
add_key_message msg = record empty_message {
  server_request = some (record {
    assume_role = none;
    challenge_response = none;
    token_response = none;
    user_credentials = none;
    add_ssh_key = some msg;
  });
}

abbrev pub config_path : String
config_path = "/etc/hologram/agent.json"

-- golang.org/x/crypto/ssh: `ParseAuthorizedKey`, and `Marshal` of the key that it gives.
module _ (authorized_key : Bytes → Result Bytes) (env : Surroundings) where
  abbrev pub first_agent_key : Option (List Bytes) → String
  first_agent_key none = ""
  first_agent_key (some []) = ""
  first_agent_key (some (blob ∷ blobs)) = base64_encode blob

  unfoldable pub get_agent_ssh_key : String
  get_agent_ssh_key = first_agent_key (env.agent_keys (env.getenv "SSH_AUTH_SOCK"))

  abbrev pub encode_parsed : Result Bytes → Result String
  encode_parsed (ok blob) = ok (base64_encode blob)
  encode_parsed (err e) = err e

  abbrev pub parse_read : Result Bytes → Result String
  parse_read (ok bytes) = encode_parsed (authorized_key bytes)
  parse_read (err e) = err e

  -- `filepath.Join` of a directory that is written without a slash at its end.
  unfoldable pub load_pub_key : String → String → Result String
  load_pub_key file path = parse_read (env.read_file (path <> "/" <> file))

  abbrev pub or_later : Result String → String → String
  or_later (ok key) later = key
  or_later (err _) later = later

  -- The first file of the list that gives a key.
  unfoldable pub first_file_key : String → List String → String
  first_file_key path [] = ""
  first_file_key path (file ∷ files) = or_later (load_pub_key file path) (first_file_key path files)

  abbrev pub key_in : Result String → String
  key_in (err _) = ""
  key_in (ok dir) = first_file_key dir ("id_rsa.pub" ∷ "id_dsa.pub" ∷ [])

  unfoldable pub get_user_home_dir_ssh_key : String
  get_user_home_dir_ssh_key = key_in (env.expand "~/.ssh")

  abbrev pub or_home : String → String
  or_home key = if str_eq key "" then get_user_home_dir_ssh_key else key

  -- The agent's first key, or else the key of a file.
  unfoldable pub ssh_key : String
  ssh_key = or_home get_agent_ssh_key

  -- `loadConfig` drops the errors of the read and of encoding/json.
  abbrev pub with_host : String → Result String
  with_host host = if str_eq host "" then err "hologram server (host) is not set" else ok host

  unfoldable pub load_config : String → Result String
  load_config path = with_host (env.host_field (contents (env.read_file path)))

  -- A prompt, if there is one, and what was given.
  unfoldable pub user_name : List String × String
  user_name =
      let user = env.getenv "LDAP_USER" in
      if str_eq user "" then ("LDAP Username (not email): " ∷ [], env.typed_word) else ([], user)

  unfoldable pub password : List String × Result Bytes
  password =
      let text = env.getenv "LDAP_PASSWORD" in
      if str_eq text ""
      then ("LDAP Password: " ∷ [], env.typed_password)
      else ([], ok (text_bytes text))

  -- The password as LDAP holds it.
  unfoldable pub password_hash : Bytes → String
  password_hash bytes = "{MD5}" <> base64_encode (env.md5 bytes)

  abbrev pub answer_code : Result Message → ℕ
  answer_code (err e) = 3
  answer_code (ok response) = elim response.error [ none ↦ 0 | some text ↦ 3 ]

  abbrev pub answer_text : Result Message → String
  answer_text (err e) = "There was an error processing the command. " <> e
  answer_text (ok response) = elim response.error [
    | none ↦ "Successfully saved key!"
    | some text ↦ "Received an error from the server: " <> text <> "\n"
  ]

  -- `c.Write`, whose error is dropped, and `c.Read`.
  unfoldable pub exchange : Message → Conn → Result Message × Conn
  exchange msg c = read (write msg c).1

  abbrev pub report : List String → Result Message × Conn → Ended
  report prompts (answer, c) = record {
    printed = prompts ++ answer_text answer ∷ [];
    code = answer_code answer;
    conn = some c;
  }

  abbrev pub with_password : List String → String → String → Conn → Result Bytes → Ended
  with_password prompts key user c (err e) = record {
    printed = prompts ++ ("Cannot parse you LDAP passwor. Aborting. (" <> e <> ")\n") ∷ [];
    code = 1;
    conn = some c;
  }
  with_password prompts key user c (ok bytes) =
      report prompts (exchange (add_key_message (add_key user (password_hash bytes) key)) c)

  abbrev pub with_key : String → Conn → Ended
  with_key key c =
      if str_eq key ""
      then record {
        printed = "Cannot find your SSH key. Aborting.\n" ∷ [];
        code = 1;
        conn = some c;
      }
      else with_password (user_name.0 ++ password.0) key user_name.1 c password.1

  -- `dial` is the package remote's `NewClient`.
  module _ {W : Type 0} (dial : String → Go W (Result Conn)) where
    abbrev pub with_client : Result Conn → Go W Ended
    with_client (err e) = pure (record {
      printed = ("Error connectiong to Hologram server: " <> e <> "\n") ∷ [];
      code = 2;
      conn = none;
    })
    with_client (ok c) = pure (with_key ssh_key c)

    abbrev pub with_config : Result String → Go W Ended
    with_config (err e) = pure (record {
      printed = ("Error loading /etc/hologram/agent.json: " <> e <> "\n") ∷ [];
      code = 1;
      conn = none;
    })
    with_config (ok host) = dial host >>= with_client

    unfoldable pub main : Go W Ended
    main = with_config (load_config config_path)
