-- ===== src/Agent/Metadata/Routes.antt =====
-- agent/metadata_service.go: the service over package net/http, its routes and its life. `clean` is
-- the path that package net/http makes of a request's, without "//", "." and "..".
use hologram.Prelude.{
  ℕ, String, ◌<>◌, Bool, true, false, Option, none, some, [], ◌∷◌, str_eq, starts_with,
  if◌then◌else◌,
}
use hologram.Prelude.Go.{Error, Bytes, Result, Outcome, ret, panic, Go, pure}
use hologram.Prelude.Base64.{text_bytes}
use hologram.Prelude.Text.{has_suffix}
use hologram.Prelude.Dict.{Dict, lookup}
use hologram.Server.Types.{Time, Credentials}
use hologram.Agent.Metadata.{
  Response, SecurityCredentialsResponse, enumerate_roles, get_services, get_instance_id,
  get_availability_zone, get_public_dns, get_credentials,
}

-- The handlers that `listen` registers.
pub data Handler : Type 0 where
  services roles credentials instance_id availability_zone public_dns : Handler

abbrev pub roles_path : String
roles_path = "/latest/meta-data/iam/security-credentials/"

abbrev pub credentials_path : String
credentials_path = "/latest/meta-data/iam/security-credentials/hologram-access"

-- What `http.ServeMux` does with a path.
pub data Routed : Type 0 where
  handled : Handler → Routed
  redirected : String → Routed
  not_found : Routed

-- The patterns that stand for themselves only, as `listen` registers them.
abbrev pub exact_routes : Dict Handler
exact_routes =
    ("/latest", services)
    ∷ (credentials_path, credentials)
    ∷ ("/latest/meta-data/instance-id", instance_id)
    ∷ ("/latest/meta-data/placement/availability-zone", availability_zone)
    ∷ ("/latest/meta-data/public-hostname", public_dns)
    ∷ []

-- A pattern that ends with a slash stands for all paths below it, unless a longer one matches, and the
-- path of such a pattern without its slash is redirected.
abbrev pub route_below : String → Option Handler → Routed
route_below path (some h) = handled h
route_below path none =
    if starts_with path roles_path
    then handled roles
    else if str_eq (path <> "/") roles_path
    then redirected roles_path
    else not_found

unfoldable pub route : String → Routed
route path = route_below path (lookup path exact_routes)

-- A request with another path than the clean one is redirected.
unfoldable pub route_request : (String → String) → String → Routed
route_request clean path = if str_eq (clean path) path then route path else redirected (clean path)

module _ {W : Type 0} (source : Go W (Result (Option Credentials))) (now : W → Time)
    (format : Time → String) (marshal_json : SecurityCredentialsResponse → Result Bytes) where
  abbrev pub handle : Handler → Go W Response
  handle services = pure get_services
  handle roles = pure enumerate_roles
  handle credentials = get_credentials source now format marshal_json
  handle instance_id = pure get_instance_id
  handle availability_zone = pure get_availability_zone
  handle public_dns = pure get_public_dns

  -- The body of a redirection is left out.
  abbrev pub respond_routed : Routed → Go W Response
  respond_routed (handled h) = handle h
  respond_routed (redirected path) =
      pure (record { status = 301; headers = ("Location", path) ∷ []; body = [] })
  respond_routed not_found =
      pure (record { status = 404; headers = []; body = text_bytes "404 page not found\n" })

  -- The answer to a request.
  unfoldable pub serve_request : (String → String) → String → Go W Response
  serve_request clean path = respond_routed (route_request clean path)

-- The listener of the service: the port of its address, and whether it is closed.
pub record MetadataService : Type 0 where
  pub listener_port : ℕ
  pub closed : Bool

abbrev pub new_metadata_service : ℕ → MetadataService
new_metadata_service port = record { listener_port = port; closed = false }

abbrev pub port : MetadataService → ℕ
port mds = mds.listener_port

unfoldable pub stop : MetadataService → MetadataService
stop mds = record mds { closed = true }

-- What `listen` does with the error that `http.Serve` ends with.
abbrev pub after_serve : Option Error → Outcome (Unit {0})
after_serve none = ret tt
after_serve (some e) = if has_suffix e "use of closed network connection" then ret tt else panic

-- `http.Serve` ends with an error of `Accept`, which is the listener's own, or the one below once it is
-- closed.
unfoldable pub listen : MetadataService → Error → Outcome (Unit {0})
listen mds e =
    after_serve (some (if mds.closed then "accept tcp: use of closed network connection" else e))
