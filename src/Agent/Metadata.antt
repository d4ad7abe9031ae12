-- ===== src/Agent/Metadata.antt =====
-- agent/metadata_service.go: what the HTTP handlers write. Formatting a time and JSON are parameters.
pub mod Routes
pub mod Serving
use hologram.Prelude.{ℕ, String, Option, none, some, List, [], ◌∷◌}
use hologram.Prelude.Go.{Error, Bytes, Result, ok, err, Go, pure, panics, ◌>>=◌}
use hologram.Prelude.Base64.{text_bytes}
use hologram.Server.Types.{Time, Credentials}

-- An `http.ResponseWriter` at the end of a handler.
pub record Response : Type 0 where
  pub status : ℕ
  pub headers : List (String × String)
  pub body : Bytes

abbrev pub plain : String → Response
plain text = record { status = 200; headers = []; body = text_bytes text }

unfoldable pub enumerate_roles : Response
enumerate_roles = plain "hologram-access"

unfoldable pub get_services : Response
get_services = record {
  status = 200;
  headers = ("Server", "EC2ws") ∷ [];
  body = text_bytes "meta-data";
}

unfoldable pub get_instance_id : Response
get_instance_id = plain "i-deadbeef"

unfoldable pub get_availability_zone : Response
get_availability_zone = plain "us-west-2x"

unfoldable pub get_public_dns : Response
get_public_dns = plain "ec2-0-0-0-0.us-west-2.compute.amazonaws.com"

pub record SecurityCredentialsResponse : Type 0 where
  pub code : String
  pub last_updated : String
  pub type : String
  pub access_key_id : String
  pub secret_access_key : String
  pub token : String
  pub expiration : String

-- `source` is the `CredentialsSource`, `now` and `format` are the package time's, in UTC and RFC 3339,
-- and `marshal_json` is the package encoding/json's.
module _ {W : Type 0} (source : Go W (Result (Option Credentials))) (now : W → Time)
    (format : Time → String) (marshal_json : SecurityCredentialsResponse → Result Bytes) where
  abbrev pub write_json : Result Bytes → Go W Response
  write_json (err e) = panics
  write_json (ok body) = pure (record { status = 200; headers = []; body = body })

  abbrev pub failed : Error → Response
  failed e = record { status = 500; headers = []; body = text_bytes e }

  -- The fields are read through pointers.
  abbrev pub respond : Option String → Option String → Option String → Option Time → Go W Response
  respond (some id) (some secret) (some token) (some t) w =
      write_json
        (marshal_json (record {
          code = "Success";
          last_updated = format (now w);
          type = "AWS-HMAC";
          access_key_id = id;
          secret_access_key = secret;
          token = token;
          expiration = format t;
        }))
        w
  respond _ _ _ _ w = panics w

  abbrev pub with_creds : Result (Option Credentials) → Go W Response
  with_creds (err e) = pure (failed e)
  with_creds (ok none) = panics
  with_creds (ok (some c)) =
      respond c.access_key_id c.secret_access_key c.session_token c.expiration

  -- `getCredentials`
  unfoldable pub get_credentials : Go W Response
  get_credentials = source >>= with_creds
