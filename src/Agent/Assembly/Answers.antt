-- ===== src/Agent/Assembly/Answers.antt =====
-- The answers of the metadata service while the agent runs.
use hologram.Prelude.{
  ◌≡◌, ◌≢◌, refl, ◌⊎◌, inl, inr, String, false, Option, none, some, All, str_eq, str_eq_iff,
  Bool-cases, arith,
}
use hologram.Prelude.Go.{Bytes, Result, ok, err, Outcome, ret, panic, out_of_fuel, Go}
use hologram.Prelude.Keeps.{Ensures, Keeps, Any, Ensures-Any, Keeps-pure, Keeps-panics, Keeps-bind}
use hologram.Server.Types.{Time, Credentials}
use hologram.Agent.Client.{Client}
use hologram.Agent.Expiration
use hologram.Agent.Expiration.{Manager, beside}
use hologram.Agent.Metadata
use hologram.Agent.Metadata.{Response, SecurityCredentialsResponse, respond, write_json, with_creds}
use hologram.Agent.Metadata.Routes.{
  services, roles, credentials, instance_id, availability_zone, public_dns, Routed, handled,
  redirected, not_found, credentials_path, route_request, respond_routed, serve_request,
}
use hologram.Agent.Metadata.Serving.{credentials_route}
use hologram.Agent.Assembly.{Web, Arrival, connection, request, Running, after_request, handle}
use hologram.Agent.Assembly.Stored.{
  Holds, beside-Keeps, StoresGood, Given, get_credentials-Keeps, run_connection-Holds,
}

module _ {U : Type 0} (Good : String → Credentials → Type 0) (web : Web U) where
  -- The document of good credentials, in the form of encoding/json.
  abbrev pub IsDocument : Bytes → Type 0
  IsDocument body =
      (role : String) × (c : Credentials) × (u : U) × (id : String) × (secret : String)
      × (token : String) × (t : Time) × Good role c
      × (c.access_key_id ≡ some id)
      × (c.secret_access_key ≡ some secret)
      × (c.session_token ≡ some token)
      × (c.expiration ≡ some t)
      × (web.marshal_json (record {
        code = "Success";
        last_updated = web.format (web.now u);
        type = "AWS-HMAC";
        access_key_id = id;
        secret_access_key = secret;
        token = token;
        expiration = web.format t;
      })
          ≡ ok body)

  -- An answer with credentials is the document of good ones.
  abbrev pub IsFaithful : Response → Type 0
  IsFaithful resp = (resp.status ≢ 200) ⊎ IsDocument resp.body

  abbrev pub Answered : String × Response → Type 0
  Answered (path, resp) = (path ≢ credentials_path) ⊎ IsFaithful resp

  module _ (client : Client (Manager U)) (good : StoresGood Good client) where
    abbrev source : Go (Manager U) (Result (Option Credentials))
    source = Expiration.get_credentials (λ u. web.now u) (some client)

    write_json-Keeps :
        (r : Result Bytes) (m : Manager U)
        → Holds Good m
        → ((body : Bytes) → r ≡ ok body → IsDocument body)
        → Holds Good (write_json source (λ m. web.now m.world) web.format web.marshal_json r m).1
          × Ensures IsFaithful
              (write_json source (λ m. web.now m.world) web.format web.marshal_json r m).0
    write_json-Keeps (err e) m h d = (h, tt)
    write_json-Keeps (ok body) m h d = (h, inr (d body refl))

    respond-Keeps :
        (role : String) (c : Credentials) (id secret token : Option String) (t : Option Time)
        → Good role c
        → c.access_key_id ≡ id
        → c.secret_access_key ≡ secret
        → c.session_token ≡ token
        → c.expiration ≡ t
        → Keeps
            (Holds Good)
            IsFaithful
            (respond source (λ m. web.now m.world) web.format web.marshal_json id secret token t)
    respond-Keeps role c (some id) (some secret) (some token) (some t) g a b d e = record {
      at = λ m h.
          write_json-Keeps _ m h
            (λ body json. (role, c, m.world, id, secret, token, t, g, a, b, d, e, json));
    }
    respond-Keeps role c none secret token t g a b d e = Keeps-panics
    respond-Keeps role c (some id) none token t g a b d e = Keeps-panics
    respond-Keeps role c (some id) (some secret) none t g a b d e = Keeps-panics
    respond-Keeps role c (some id) (some secret) (some token) none g a b d e = Keeps-panics

    with_creds-Keeps :
        (r : Result (Option Credentials))
        → Given Good r
        → Keeps
            (Holds Good)
            IsFaithful
            (with_creds source (λ m. web.now m.world) web.format web.marshal_json r)
    with_creds-Keeps (err e) g = Keeps-pure _ (inl (λ h. absurd (omega (arith, h))))
    with_creds-Keeps (ok none) g = Keeps-panics
    with_creds-Keeps (ok (some c)) g = respond-Keeps g.0 c _ _ _ _ g.1 refl refl refl refl

    credentials-Keeps :
        Keeps
          (Holds Good)
          IsFaithful
          (Metadata.get_credentials source (λ m. web.now m.world) web.format web.marshal_json)
    unfolding Metadata.get_credentials
    credentials-Keeps =
        Keeps-bind (get_credentials-Keeps Good client good (λ u. web.now u))
          (λ r g. with_creds-Keeps r g)

    respond_routed-Keeps :
        (r : Routed)
        → Keeps
            (Holds Good)
            Any
            (respond_routed source (λ m. web.now m.world) web.format web.marshal_json r)
    respond_routed-Keeps (handled credentials) = record {
      at = λ m h. ((credentials-Keeps.at m h).0, Ensures-Any _);
    }
    respond_routed-Keeps (handled services) = Keeps-pure _ tt
    respond_routed-Keeps (handled roles) = Keeps-pure _ tt
    respond_routed-Keeps (handled instance_id) = Keeps-pure _ tt
    respond_routed-Keeps (handled availability_zone) = Keeps-pure _ tt
    respond_routed-Keeps (handled public_dns) = Keeps-pure _ tt
    respond_routed-Keeps (redirected path) = Keeps-pure _ tt
    respond_routed-Keeps not_found = Keeps-pure _ tt

    abbrev served : String → Go (Manager U) Response
    served path =
        serve_request source (λ m. web.now m.world) web.format web.marshal_json web.clean path

    served-Holds : (path : String) (m : Manager U) → Holds Good m → Holds Good (served path m).1
    unfolding serve_request
    served-Holds path m h = ((respond_routed-Keeps (route_request web.clean path)).at m h).0

    credentials-Faithful :
        (m : Manager U) → Holds Good m → Ensures IsFaithful (served credentials_path m).0
    unfolding serve_request route_request
    credentials-Faithful m h =
        elim (Bool-cases (str_eq (web.clean credentials_path) credentials_path)) [
          | inl e ↦
              rw e (rw (credentials_route credentials_path refl) ((credentials-Keeps.at m h).1))
          | inr e ↦ rw e (inl (λ h. absurd (omega (arith, h))))
        ]

    Answered-other :
        (path : String) (o : Outcome Response)
        → path ≢ credentials_path
        → Ensures (λ resp. Answered (path, resp)) o
    Answered-other path (ret resp) other = inl other
    Answered-other path panic other = tt
    Answered-other path out_of_fuel other = tt

    Answered-same :
        (path : String) (o : Outcome Response)
        → Ensures IsFaithful o
        → Ensures (λ resp. Answered (path, resp)) o
    Answered-same path (ret resp) f = inr f
    Answered-same path panic f = tt
    Answered-same path out_of_fuel f = tt

    not_same : (path : String) → str_eq path credentials_path ≡ false → path ≢ credentials_path
    not_same path h e = absurd (cc (h, (str_eq_iff path credentials_path).1 e))

    served-Answered :
        (path : String) (m : Manager U)
        → Holds Good m
        → Ensures (λ resp. Answered (path, resp)) (served path m).0
    served-Answered path m h = elim (Bool-cases (str_eq path credentials_path)) [
      | inr e ↦ Answered-other path _ (not_same path e)
      | inl e ↦
          let same : path ≡ credentials_path = (str_eq_iff _ _).0 e in
          Answered-same path _ (rw same (credentials-Faithful m h))
    ]

    -- The credentials kept are good ones, and so are those of all answers given.
    abbrev pub Sound : Running U → Type 0
    Sound s = Holds Good s.manager × All Answered s.answers

    after_request-Sound :
        (set_sock : String → Option Bytes → Go U (Unit {0})) (path : String)
        (x : Outcome Response × Manager U) (s : Running U)
        → Holds Good x.1
        → Ensures (λ resp. Answered (path, resp)) x.0
        → All Answered s.answers
        → Sound (after_request set_sock client web path x s).1
    after_request-Sound set_sock path (ret resp, m) s h a all = (h, (a, all))
    after_request-Sound set_sock path (panic, m) s h a all = (h, all)
    after_request-Sound set_sock path (out_of_fuel, m) s h a all = (h, all)

    pub handle-Sound :
        (set_sock : String → Option Bytes → Go U (Unit {0})) (a : Arrival)
        → Keeps Sound Any (handle set_sock client web a)
    unfolding handle
    handle-Sound set_sock (connection conn) = record {
      at = λ s h. (
        (
          run_connection-Holds Good client good (λ sock key. beside (set_sock sock key))
              (λ sock key. beside-Keeps Good (set_sock sock key))
              (record { conn = conn; world = s.manager }) h.0,
          h.1,
        ),
        Ensures-Any _,
      );
    }
    handle-Sound set_sock (request path) = record {
      at = λ s h. (
        after_request-Sound set_sock path (served path s.manager) s
            (served-Holds path s.manager h.0) (served-Answered path s.manager h.0) h.1,
        Ensures-Any _,
      );
    }
