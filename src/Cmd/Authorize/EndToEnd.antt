-- ===== src/Cmd/Authorize/EndToEnd.antt =====
-- cmd/hologram-authorize/main.go against the handler of server/server.go.
use hologram.Prelude.{
  ℕ, ◌≡◌, ◌≢◌, refl, ap, String, false, Option, none, some, List, [], ◌∷◌, ◌++◌, map, str_eq,
  str_eq_iff, Bool-cases, inl, inr,
}
use hologram.Prelude.Go.{Bytes, Result, ok, ret, Go, ◌>>=◌}
use hologram.Protocol.Requests
use hologram.Protocol.Requests.{AddSshKey}
use hologram.Protocol.ServerRequest
use hologram.Protocol.Message
use hologram.Protocol.Message.{Message}
use hologram.Protocol.Connection.{Conn, read, write}
use hologram.Server.Types.{Entry, LdapError, entries}
use hologram.Server.Handler.State.{
  Settings, State, Services, error_message, success_message, write_error,
}
use hologram.Server.Handler.Requests.{
  handle_add_ssh_key, handle_server_request, check_password, add_key as add_to_entry, user_search,
  key_addition, has_key as lists_key,
}
use hologram.Server.Handler.Loop.{handle_message, handle_connection, run_connection}
use hologram.Cmd.Cli.EndToEnd.{fresh}
use hologram.Cmd.Authorize.{
  Surroundings, add_key, add_key_message, load_config, config_path, ssh_key, user_name, password,
  password_hash, exchange, main,
}

-- What the server answers, by the result of its `Modify`.
abbrev pub server_answer : Option LdapError → Message
server_answer none = success_message
server_answer (some e) = error_message "Error saving ssh key"

abbrev pub saved_text : Option LdapError → String
saved_text none = "Successfully saved key!"
saved_text (some e) = "Received an error from the server: Error saving ssh key\n"

abbrev pub saved_code : Option LdapError → ℕ
saved_code none = 0
saved_code (some e) = 3

module _ {Key W : Type 0} (settings : Settings) (services : Services Key W) (msg : AddSshKey)
    (entry : Entry) (rest : List Entry) where
  -- LDAP finds the entry, with the password of the request and without its key, and `o` is what the
  -- `Modify` that adds the key returns.
  pub record Adds (o : Option LdapError) (w w' : W) : Type 0 where
    pub searched : W
    pub found :
        services.ldap_server.search (user_search settings services msg) w
        ≡ (ret (entries (entry ∷ rest)), searched)
    pub pass : entry.attribute_value "userPassword" ≡ Requests.get_passwordhash (some msg)
    pub new :
        lists_key (Requests.get_sshkeybytes (some msg)) (entry.attribute_values settings.ssh_attr)
        ≡ false
    pub modified :
        services.ldap_server.modify (key_addition settings services entry msg) searched
        ≡ (ret o, w')

module _ {Key W : Type 0} (settings : Settings) (services : Services Key W) (drawn : ℕ)
    (counters : List String) where
  abbrev pub server_state : Message → W → State W
  server_state msg w = record {
    conn = fresh (ok msg ∷ []);
    drawn = drawn;
    counters = counters;
    world = w;
  }

  -- The server's side, after it has been given the message.
  unfoldable pub after_server : Message → W → State W
  after_server msg w = (run_connection settings services (server_state msg w)).1

  module _ (msg : AddSshKey) (entry : Entry) (rest : List Entry) where
    handler-Adds :
        (o : Option LdapError) {w' : W} (s : State W)
        → s.conn ≡ fresh []
        → Adds settings services msg entry rest o s.world w'
        → handle_add_ssh_key settings services msg s ≡ (
          ret tt,
          record {
            conn = record (fresh []) { sent = server_answer o ∷ [] };
            drawn = s.drawn;
            counters = s.counters ++ "messages.addSSHKeyMsg" ∷ [];
            world = w';
          },
        )
    unfolding handle_add_ssh_key check_password add_to_entry write_error ◌>>=◌ write
    handler-Adds none s c h =
        rw h.found (rw ((str_eq_iff _ _).1 h.pass) (rw h.new (rw h.modified (rw c refl))))
    handler-Adds (some e) s c h =
        rw h.found (rw ((str_eq_iff _ _).1 h.pass) (rw h.new (rw h.modified (rw c refl))))

    server_runs :
        (o : Option LdapError) {w w' : W}
        → Adds settings services msg entry rest o w w'
        → run_connection settings services (server_state (add_key_message msg) w) ≡ (
          ret tt,
          record {
            conn = record (fresh []) { sent = server_answer o ∷ [] };
            drawn = drawn;
            counters = counters ++ "messages.addSSHKeyMsg" ∷ [];
            world = w';
          },
        )
    unfolding handle_connection handle_message handle_server_request ◌>>=◌ read Message.get_ping
        Message.get_server_request ServerRequest.get_assume_role ServerRequest.get_user_credentials
        ServerRequest.get_add_ssh_key
    server_runs o {w} h =
        rw
          (handler-Adds o
            (record { conn = fresh []; drawn = drawn; counters = counters; world = w }) refl h)
          refl

    server-Adds :
        (o : Option LdapError) {w w' : W}
        → Adds settings services msg entry rest o w w'
        → after_server (add_key_message msg) w ≡ record {
          conn = record (fresh []) { sent = server_answer o ∷ [] };
          drawn = drawn;
          counters = counters ++ "messages.addSSHKeyMsg" ∷ [];
          world = w';
        }
    unfolding after_server
    server-Adds o h = ap (λ x. x.1) (server_runs o h)

keyed : (key : String) → key ≢ "" → str_eq key "" ≡ false
keyed key h = elim (Bool-cases (str_eq key "")) [
  | inl same ↦ absurd (h ((str_eq_iff key "").0 same))
  | inr other ↦ other
]

module _ (authorized_key : Bytes → Result Bytes) (env : Surroundings) where
  -- The request that the program makes, with the password that it was given.
  abbrev pub save_request : Bytes → AddSshKey
  save_request bytes =
      add_key (user_name authorized_key env).1 (password_hash authorized_key env bytes)
        (ssh_key authorized_key env)

  abbrev pub prompts : List String
  prompts = (user_name authorized_key env).0 ++ (password authorized_key env).0

  module _ {V : Type 0} (dial : String → Go V (Result Conn)) where
    -- The program has a server, a key and a password.
    pub record Ready (host : String) (bytes : Bytes) : Type 0 where
      pub configured : load_config authorized_key env config_path ≡ ok host
      pub has_key : ssh_key authorized_key env ≢ ""
      pub given : (password authorized_key env).1 ≡ ok bytes

    main_reports :
        (o : Option LdapError) (host : String) (bytes : Bytes) (v : V) {v' : V}
        → Ready host bytes
        → dial host v ≡ (ret (ok (fresh (ok (server_answer o) ∷ []))), v')
        → main authorized_key env dial v ≡ (
          ret (record {
            printed = prompts ++ saved_text o ∷ [];
            code = saved_code o;
            conn = some (record (fresh []) { sent = add_key_message (save_request bytes) ∷ [] });
          }),
          v',
        )
    unfolding main exchange ◌>>=◌ read write
    main_reports none host bytes v h d =
        rw h.configured (rw d (rw (keyed _ h.has_key) (rw h.given refl)))
    main_reports (some e) host bytes v h d =
        rw h.configured (rw d (rw (keyed _ h.has_key) (rw h.given refl)))

    module _ {Key W : Type 0} (settings : Settings) (services : Services Key W) where
      -- The program against the server: where it reads what the server's handler writes when it is given
      -- the program's request, LDAP finds the user with the password that was typed and without the key,
      -- the server leaves LDAP as the one `Modify` does that adds the key to this entry, and the
      -- program, which has sent just this request, reports success with code 0 exactly if that
      -- `Modify` returned no error, and otherwise the server's error with code 3.
      pub main-saves :
          (drawn : ℕ) (counters : List String) (entry : Entry) (rest : List Entry)
          (o : Option LdapError) (host : String) (bytes : Bytes) (v : V) {v' : V} {w w' : W}
          → Ready host bytes
          → Adds settings services (save_request bytes) entry rest o w w'
          → dial host v ≡ (
            ret (
                ok (
                  fresh (
                    map ok
                      (after_server settings services drawn counters
                        (add_key_message (save_request bytes))
                        w).conn.sent))),
            v',
          )
          → ((after_server settings services drawn counters
                (add_key_message (save_request bytes))
                w).world
              ≡ w')
            × (main authorized_key env dial v ≡ (
              ret (record {
                printed = prompts ++ saved_text o ∷ [];
                code = saved_code o;
                conn =
                    some (record (fresh []) { sent = add_key_message (save_request bytes) ∷ [] });
              }),
              v',
            ))
      main-saves drawn counters entry rest o host bytes v h adds d =
          let run =
            server-Adds settings services drawn counters (save_request bytes) entry rest o adds in
          rw run (refl, main_reports o host bytes v h (rw run at d))
