-- ===== src/Tests/Metadata.antt =====
-- The theorem on the routes of agent/metadata_service.go at a concrete input.
use hologram.Prelude.{String, refl, some, [], ◌∷◌}
use hologram.Prelude.Go.{Bytes, Result, ok}
use hologram.Server.Types.{Time}
use hologram.Agent.Expiration.{get_credentials}
use hologram.Agent.Metadata.{SecurityCredentialsResponse}
use hologram.Agent.Metadata.Routes.{credentials_path, serve_request}
use hologram.Agent.Metadata.Serving.{Documented, serve_request-Documented}
use hologram.Tests.Agent.{one_o_clock, renewing, renewing-Renews, at_noon}

abbrev format : Time → String
format t = "2014-10-24T13:00:00Z"

abbrev marshal_json : SecurityCredentialsResponse → Result Bytes
marshal_json r = ok (123 ∷ 125 ∷ [])

serve_request-Documented_example : Documented one_o_clock (some renewing) format marshal_json (
    serve_request
      (get_credentials one_o_clock (some renewing))
      (λ m. one_o_clock m.world)
      format
      marshal_json
      (λ path. path)
      credentials_path
      at_noon)
serve_request-Documented_example =
    serve_request-Documented one_o_clock (some renewing) format marshal_json (λ path. path) at_noon
      renewing-Renews refl
