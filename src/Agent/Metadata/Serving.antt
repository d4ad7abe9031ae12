-- ===== src/Agent/Metadata/Serving.antt =====
-- Which credentials agent/metadata_service.go serves, and under which path.
use hologram.Prelude.{
  ◌≡◌, ◌≢◌, refl, sym, ◌⊎◌, inl, inr, String, false, Option, none, some, str_eq, Bool-cases, All,
  starts_with, ◌<>◌,
}
use hologram.Prelude.Go.{
  Bytes, Result, ok, err, Outcome, ret, panic, out_of_fuel, Go, continue, ◌>>=◌,
}
use hologram.Server.Types.{Time, Credentials}
use hologram.Prelude.Dict.{lookup, lookup_only}
use hologram.Agent.Client.{Client}
use hologram.Agent.Expiration
use hologram.Agent.Expiration.{Manager, before}
use hologram.Agent.Expiration.Freshness.{IsFresh, Given, RenewsIfAny, get_credentials-Given}
use hologram.Agent.Metadata
use hologram.Agent.Metadata.{Response, SecurityCredentialsResponse, with_creds, respond, write_json}
use hologram.Agent.Metadata.Routes.{
  exact_routes, route_below, Handler, services, roles, credentials, instance_id, availability_zone,
  public_dns, Routed, handled, redirected, not_found, credentials_path, roles_path, route,
  route_request, respond_routed, serve_request,
}

only_credentials : All (λ p. p.1 ≡ credentials → p.0 ≡ credentials_path) exact_routes
only_credentials = (λ h. cc h, (λ h. refl, (λ h. cc h, (λ h. cc h, (λ h. cc h, tt)))))

pub credentials_route : (path : String) → path ≡ credentials_path → route path ≡ handled credentials
unfolding route lookup
credentials_route path e = rw e refl

route_below_other :
    (path : String) (o : Option Handler)
    → lookup path exact_routes ≡ o
    → path ≢ credentials_path
    → route_below path o ≢ handled credentials
route_below_other path (some credentials) e other h =
    other (sym (lookup_only exact_routes credentials_path path credentials only_credentials e))
route_below_other path (some services) e other h = cc h
route_below_other path (some roles) e other h = cc h
route_below_other path (some instance_id) e other h = cc h
route_below_other path (some availability_zone) e other h = cc h
route_below_other path (some public_dns) e other h = cc h
route_below_other path none e other h = elim (Bool-cases (starts_with path roles_path)) [
  | inl a ↦ cc (rw a at h)
  | inr a ↦ elim (Bool-cases (str_eq (path <> "/") roles_path)) [
    | inl b ↦ cc (rw b at (rw a at h))
    | inr b ↦ cc (rw b at (rw a at h))
  ]
]

route_other : (path : String) → path ≢ credentials_path → route path ≢ handled credentials
unfolding route
route_other path other = route_below_other path _ refl other

module _ {W : Type 0} (now : W → Time) (client : Option (Client (Manager W)))
    (format : Time → String) (marshal_json : SecurityCredentialsResponse → Result Bytes) where
  -- The document for credentials, at the time of the answer.
  abbrev pub document : String → String → String → Time → Manager W → SecurityCredentialsResponse
  document id secret token t s = record {
    code = "Success";
    last_updated = format (now s.world);
    type = "AWS-HMAC";
    access_key_id = id;
    secret_access_key = secret;
    token = token;
    expiration = format t;
  }

  -- The answer is an error, or the document of the stored credentials, which have not expired.
  abbrev pub Documented : Outcome Response × Manager W → Type 0
  Documented (ret resp, s) =
      (resp.status ≡ 500)
      ⊎ ((c : Credentials) × (t : Time) × (id : String) × (secret : String) × (token : String)
          × (s.creds ≡ some c)
          × (c.access_key_id ≡ some id)
          × (c.secret_access_key ≡ some secret)
          × (c.session_token ≡ some token)
          × (c.expiration ≡ some t)
          × (before t (now s.world) ≡ false)
          × (marshal_json (document id secret token t s) ≡ ok resp.body))
  Documented (panic, s) = Unit
  Documented (out_of_fuel, s) = Unit

  abbrev pub source : Go (Manager W) (Result (Option Credentials))
  source = Expiration.get_credentials now client

  by_json :
      (c : Credentials) (t : Time) (id secret token : String) (s : Manager W) (r : Result Bytes)
      → s.creds ≡ some c
      → c.access_key_id ≡ some id
      → c.secret_access_key ≡ some secret
      → c.session_token ≡ some token
      → c.expiration ≡ some t
      → before t (now s.world) ≡ false
      → marshal_json (document id secret token t s) ≡ r
      → Documented (write_json source (λ m. now m.world) format marshal_json r s)
  by_json c t id secret token s (ok body) held a b d e fresh json =
      inr (c, t, id, secret, token, held, a, b, d, e, fresh, json)
  by_json c t id secret token s (err x) held a b d e fresh json = tt

  by_fields :
      (c : Credentials) (id secret token : Option String) (t : Option Time) (s : Manager W)
      → s.creds ≡ some c
      → c.access_key_id ≡ id
      → c.secret_access_key ≡ secret
      → c.session_token ≡ token
      → c.expiration ≡ t
      → IsFresh now s
      → Documented (respond source (λ m. now m.world) format marshal_json id secret token t s)
  by_fields c (some id) (some secret) (some token) (some t) s held a b d e
        (c', t', held', e', fresh) =
      let same : t' ≡ t = cc (held, held', e, e') in
      by_json c t id secret token s _ held a b d e (rw same at fresh) refl
  by_fields c none secret token t s held a b d e fresh = tt
  by_fields c (some id) none token t s held a b d e fresh = tt
  by_fields c (some id) (some secret) none t s held a b d e fresh = tt
  by_fields c (some id) (some secret) (some token) none s held a b d e fresh = tt

  by_creds :
      (run : Outcome (Result (Option Credentials)) × Manager W)
      → Given now run
      → Documented (continue run.0 (with_creds source (λ m. now m.world) format marshal_json) run.1)
  by_creds (ret (ok (some c)), s) (same, fresh) =
      by_fields c _ _ _ _ s (sym same) refl refl refl refl fresh
  by_creds (ret (ok none), s) given = tt
  by_creds (ret (err e), s) given = inl refl
  by_creds (panic, s) given = tt
  by_creds (out_of_fuel, s) given = tt

  other_handled :
      (r : Routed) (s : Manager W)
      → r ≢ handled credentials
      → (respond_routed source (λ m. now m.world) format marshal_json r s).1 ≡ s
  other_handled (handled credentials) s h = absurd (h refl)
  other_handled (handled services) s h = refl
  other_handled (handled roles) s h = refl
  other_handled (handled instance_id) s h = refl
  other_handled (handled availability_zone) s h = refl
  other_handled (handled public_dns) s h = refl
  other_handled (redirected path) s h = refl
  other_handled not_found s h = refl

  route_request_other :
      (clean : String → String) (path : String)
      → path ≢ credentials_path
      → route_request clean path ≢ handled credentials
  unfolding route_request
  route_request_other clean path other h = elim (Bool-cases (str_eq (clean path) path)) [
    | inl e ↦ route_other path other (rw e at h)
    | inr e ↦ cc (rw e at h)
  ]

  credentials_routed :
      (clean : String → String)
      → clean credentials_path ≡ credentials_path
      → route_request clean credentials_path ≡ handled credentials
  unfolding route_request
  credentials_routed clean c = rw c (credentials_route credentials_path refl)

  -- If the client renews the credentials whenever it reports no error, the service answers a request for
  -- the credentials with an error, with a panic, or with the document of those that the manager holds
  -- then, which have not expired.
  pub serve_request-Documented :
      (clean : String → String) (s : Manager W)
      → RenewsIfAny now client
      → clean credentials_path ≡ credentials_path
      → Documented
          (serve_request source (λ m. now m.world) format marshal_json clean credentials_path s)
  unfolding serve_request Metadata.get_credentials ◌>>=◌
  serve_request-Documented clean s renews c =
      rw (credentials_routed clean c) (by_creds _ (get_credentials-Given now client renews s))

  -- A request for any other path leaves the credentials alone.
  pub serve_request_other :
      (clean : String → String) (path : String) (s : Manager W)
      → path ≢ credentials_path
      → (serve_request source (λ m. now m.world) format marshal_json clean path s).1 ≡ s
  unfolding serve_request
  serve_request_other clean path s other =
      other_handled (route_request clean path) s (route_request_other clean path other)
