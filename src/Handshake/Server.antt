-- ===== src/Handshake/Server.antt =====
-- The server's side of a session: its loop accepts the first signature that is not refused.
use hologram.Prelude.{
  ℕ, zero, suc, ◌+◌, ◌<◌, ◌≡◌, refl, Option, String, false, List, [], ◌∷◌, map, length, arith,
}
use hologram.Prelude.Go.{Bytes, Result, ok, ret, Go, ◌>>=◌}
use hologram.Protocol.Message
use hologram.Protocol.Message.{Message}
use hologram.Protocol.ServerRequest
use hologram.Protocol.Requests
use hologram.Protocol.Connection.{Conn, read, write}
use hologram.Server.Types.{Signature, User}
use hologram.Server.Handler.State.{State, Services}
use hologram.Server.Handler.Challenge.{
  new_challenge, answer_verdict, check_answer, check_request, check_response, challenge_round,
  ssh_challenge,
}
use hologram.Handshake.{client_says, sent_by_server, drawn_after, Plays}

-- A connection on which every write succeeds.
abbrev pub conn_with : List (Result Message) → List Message → Conn
conn_with incoming sent = record {
  incoming = incoming;
  write_results = [];
  sent = sent;
  closed = false;
}

abbrev pub at_server :
    {W : Type 0} → List (Result Message) → List Message → ℕ → List String → W → State W
at_server incoming sent drawn counters w = record {
  conn = conn_with incoming sent;
  drawn = drawn;
  counters = counters;
  world = w;
}

module _ {Key V W : Type 0} (services : Services Key W)
    (sign : Bytes → ℕ → Go V (Result (Option Signature))) (last : Signature) (user : User Key)
    (v' : V) (w' : W) where
  abbrev pub Agrees : List Signature → ℕ → ℕ → V → W → Type 0
  Agrees = Plays services.rand_int sign (services.user_cache.authenticate "derp") last user v' w'

  pub ssh_challenge-passes :
      (sigs : List Signature) (skip drawn fuel : ℕ) (v : V) (w : W) (sent : List Message)
      (counters : List String)
      → length sigs < fuel
      → Agrees sigs skip drawn v w
      → ssh_challenge services fuel
          (at_server (map ok (client_says sigs last)) sent drawn counters w)
        ≡ (
          ret (ok user),
          at_server []
              (sent_by_server services.rand_int sent sigs drawn)
              (drawn_after services.rand_int sigs drawn)
              counters
              w',
        )
  unfolding ssh_challenge challenge_round new_challenge check_response check_request check_answer
      answer_verdict ◌>>=◌ write read Message.get_server_request
      ServerRequest.get_challenge_response Requests.get_format Requests.get_signature
  ssh_challenge-passes sigs skip drawn zero v w sent counters lt plays = absurd (omega arith)
  ssh_challenge-passes [] skip drawn (suc fuel) v w sent counters lt (s, a) = rw a refl
  ssh_challenge-passes (sig ∷ sigs) skip drawn (suc fuel) v w sent counters lt
        (v1, w1, s, a, plays) =
      rw a (ssh_challenge-passes sigs (skip + 1) _ fuel v1 w1 _ counters (omega arith) plays)
