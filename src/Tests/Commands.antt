-- ===== src/Tests/Commands.antt =====
-- The theorems on the small programs under cmd/ and on transport/ at concrete inputs.
use hologram.Prelude.{ℕ, ◌≡◌, refl, String, suc, zero, some, none, [], ◌∷◌, map, Option, arith}
use hologram.Prelude.Go.{Bytes, Result, Error, ok, ret, Go}
use hologram.Protocol.Connection.{Conn}
use hologram.Agent.Client.{Client}
use hologram.Cmd.Cli.{Surroundings, Formats, use_role, assume_request, converse}
use hologram.Cmd.Cli.EndToEnd.{fresh, after_agent, use_message, use_role-agent}
use hologram.Cmd.Boot
use hologram.Cmd.Boot.Waiting.{main-runs}

-- hologram use admin, where the agent's client gets credentials for every role.
abbrev pub surroundings : Surroundings
surroundings = record {
  getenv = λ name. "/tmp/agent.sock";
  expand = λ path. ok "/home/alice/.ssh";
  read_file = λ path. ok (1 ∷ []);
  beside_error = λ e. none;
}

abbrev pub formats : Formats
formats = record { show_message = λ m. "message"; show_response = λ r. "response"; errorf = λ t. t }

abbrev granting : Client ℕ
granting = record {
  assume_role = λ role w. (ret none, suc w);
  get_user_credentials = λ w. (ret none, w);
}

abbrev ignore_sock : String → Option Bytes → Go ℕ (Unit {0})
ignore_sock sock key w = (ret tt, w)

abbrev dial_agent : Go ℕ (Result Conn)
dial_agent v = (
  ret (
      ok (
        fresh
          (map ok (after_agent surroundings formats "admin" ignore_sock granting 0).conn.sent))),
  v,
)

use_role-agent_example :
    ((after_agent surroundings formats "admin" ignore_sock granting 0).world ≡ 1)
    × ((converse surroundings formats dial_agent (assume_request "admin") (record {
      conn =
          fresh
            (map ok (after_agent surroundings formats "admin" ignore_sock granting 0).conn.sent);
      world = 7;
    })).1.conn.sent
        ≡ use_message surroundings formats "admin" ∷ [])
    × (use_role surroundings formats dial_agent "admin" 7 ≡ (ret none, 7))
use_role-agent_example =
    use_role-agent surroundings formats "admin" dial_agent ignore_sock granting none 7 7 refl refl
      refl

-- hologram-boot, where the server can be reached from the second attempt on.
abbrev reachable : ℕ → Option Error
reachable zero = some "connection refused"
reachable (suc w) = none

abbrev boot_environment : Boot.Environment ℕ
boot_environment = record {
  read_file = λ path. ok (1 ∷ []);
  host_of = λ bytes. ok "hologram:3100";
  dial = λ host w. (ret (reachable w), suc w);
  run_me = λ w. (ret none, w);
}

main-runs_example : Boot.main boot_environment 5 0 ≡ (ret 0, 2)
main-runs_example =
    main-runs boot_environment "hologram:3100" (1 ∷ []) 1 5 0 none (omega arith) refl refl
      ("connection refused", 1, refl, refl) refl refl
