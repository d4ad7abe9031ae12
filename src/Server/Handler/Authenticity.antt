-- ===== src/Server/Handler/Authenticity.antt =====
-- `SSHChallenge` of server/server.go returns a user only for a signature of a challenge that was drawn
-- for this connection and sent on it.
use hologram.Prelude.{
  ℕ, zero, suc, ◌+◌, ◌≤◌, ◌≡◌, refl, ap, ◌∙◌, Option, none, some, List, [], ◌∷◌, ◌++◌, arith,
}
use hologram.Prelude.Go.{
  Error, Bytes, Result, ok, err, Outcome, ret, panic, out_of_fuel, continue, ◌>>=◌,
}
use hologram.Prelude.Keeps.{Keeps, Any, Keeps-pure, Keeps-bind, Ensures-Any}
use hologram.Protocol.Message.{Message}
use hologram.Protocol.Requests.{SshChallengeResponse}
use hologram.Protocol.ServerRequest.{ServerRequest}
use hologram.Protocol.Connection.{Conn, read, write}
use hologram.Server.Types.{Signature, User}
use hologram.Server.Handler.State.{State, Services, challenge_message, failure_message}
use hologram.Server.Handler.Challenge.{
  random_bytes, challenge_size, new_challenge, answer_verdict, check_answer, check_request,
  check_response, challenge_round, ssh_challenge, after_failure, after_challenge, after_round,
  signature_of,
}

read-sent : (c : Conn) → (read c).1.sent ≡ c.sent
unfolding read
read-sent c = ground arith

write-sent : (m : Message) (c : Conn) → (write m c).0 ≡ none → (write m c).1.sent ≡ c.sent ++ m ∷ []
unfolding write
write-sent m c h = ground arith

module _ {Key W : Type 0} (services : Services Key W) (user : User Key) where
  -- What a user that is returned in state `t`, from a loop begun in state `s`, rests on.
  pub record Verified (s t : State W) : Type 0 where
    pub index : ℕ
    pub signature : Signature
    pub world : W
    pub before : List Message
    pub fresh : s.drawn ≤ index
    pub drawn : index + challenge_size ≤ t.drawn
    pub challenged :
        t.conn.sent
        ≡ before ++ challenge_message (random_bytes services.rand_int challenge_size index) ∷ []
    pub accepted :
        (services.user_cache.authenticate "derp"
          (random_bytes services.rand_int challenge_size index)
          signature
          world).0
        ≡ ret (ok (some user))

  -- The signature that was accepted, by a step that has not changed the connection.
  abbrev Accepted : Bytes → State W → State W → Type 0
  Accepted challenge s t =
      (sig : Signature) × (t.conn ≡ s.conn)
      × (t.drawn ≡ s.drawn)
      × ((services.user_cache.authenticate "derp" challenge sig s.world).0 ≡ ret (ok (some user)))

  after_failure_user :
      (e : Option Error) (s : State W) → (after_failure services e s).0 ≡ ret (ok (some user)) → ⊥
  after_failure_user none s h = cc
  after_failure_user (some e) s h = cc

  verdict_user :
      (o : Outcome (Result (Option (User Key)))) (s : State W)
      → (continue o (answer_verdict services) s).0 ≡ ret (ok (some user))
      → (o ≡ ret (ok (some user))) × ((continue o (answer_verdict services) s).1 ≡ s)
  unfolding answer_verdict ◌>>=◌
  verdict_user (ret (ok (some u))) s h = (h, refl)
  verdict_user (ret (ok none)) s h =
      absurd (after_failure_user (write failure_message s.conn).0 _ h)
  verdict_user (ret (err e)) s h = cc
  verdict_user panic s h = cc
  verdict_user out_of_fuel s h = cc

  answer_user :
      (challenge : Bytes) (o : Option SshChallengeResponse) (s : State W)
      → (check_answer services challenge o s).0 ≡ ret (ok (some user))
      → Accepted challenge s (check_answer services challenge o s).1
  unfolding check_answer ◌>>=◌
  answer_user challenge none s h = cc
  answer_user challenge (some cr) s h =
      let v = verdict_user _ _ h in
      (signature_of cr, ap (λ (t : State W). t.conn) v.1, ap (λ (t : State W). t.drawn) v.1, v.0)

  request_user :
      (challenge : Bytes) (o : Option ServerRequest) (s : State W)
      → (check_request services challenge o s).0 ≡ ret (ok (some user))
      → Accepted challenge s (check_request services challenge o s).1
  unfolding check_request
  request_user challenge none s h = cc
  request_user challenge (some r) s h = answer_user challenge _ s h

  response_user :
      (challenge : Bytes) (r : Result Message) (s : State W)
      → (check_response services challenge r s).0 ≡ ret (ok (some user))
      → Accepted challenge s (check_response services challenge r s).1
  unfolding check_response
  response_user challenge (err e) s h = cc
  response_user challenge (ok msg) s h = request_user challenge _ s h

  -- The part of a round behind the write of the challenge.
  after_challenge_user :
      (index : ℕ) (e : Option Error) (s t : State W)
      → t.drawn ≡ index + challenge_size
      → s.drawn ≤ index
      → (before : List Message)
      → (e ≡ none
          → t.conn.sent
            ≡ before
              ++ challenge_message (random_bytes services.rand_int challenge_size index) ∷ [])
      → let x =
          after_challenge services (random_bytes services.rand_int challenge_size index) e t in
        x.0 ≡ ret (ok (some user)) → Verified s x.1
  unfolding ◌>>=◌
  after_challenge_user index (some e) s t d f before sent h = cc
  after_challenge_user index none s t d f before sent h =
      let c = random_bytes services.rand_int challenge_size index in
      let u = record t { conn = (read t.conn).1 } in
      let a = response_user c (read t.conn).0 u h in
      record {
        index = index;
        signature = a.0;
        world = t.world;
        before = before;
        fresh = f;
        drawn = omega (arith, a.2);
        challenged = ap (λ (c : Conn). c.sent) a.1 ∙ read-sent t.conn ∙ sent refl;
        accepted = a.3;
      }

  round_user :
      (s : State W)
      → (challenge_round services s).0 ≡ ret (ok (some user))
      → Verified s (challenge_round services s).1
  unfolding challenge_round new_challenge ◌>>=◌
  round_user s h =
      let m = challenge_message (random_bytes services.rand_int challenge_size s.drawn) in
      after_challenge_user s.drawn (write m s.conn).0 s
        (record s { conn = (write m s.conn).1; drawn = s.drawn + challenge_size }) refl
        (omega arith) s.conn.sent (write-sent m s.conn) h

  abbrev Drew : ℕ → State W → Type 0
  Drew n s = n ≤ s.drawn

  verdict-Drew :
      (n : ℕ) (r : Result (Option (User Key))) → Keeps (Drew n) Any (answer_verdict services r)
  unfolding answer_verdict
  verdict-Drew n (err e) = Keeps-pure _ tt
  verdict-Drew n (ok (some u)) = Keeps-pure _ tt
  verdict-Drew n (ok none) =
      Keeps-bind {Q = Any} (record { at = λ s h. (h, tt) })
        (elim [ some e ↦ λ _. Keeps-pure _ tt | none ↦ λ _. Keeps-pure _ tt ])

  answer-Drew :
      (n : ℕ) (challenge : Bytes) (o : Option SshChallengeResponse)
      → Keeps (Drew n) Any (check_answer services challenge o)
  unfolding check_answer
  answer-Drew n challenge none = Keeps-pure _ tt
  answer-Drew n challenge (some cr) =
      Keeps-bind {Q = Any} (record { at = λ s h. (h, Ensures-Any _) }) λ v _. verdict-Drew n v

  response-Drew :
      (n : ℕ) (challenge : Bytes) (r : Result Message)
      → Keeps (Drew n) Any (check_response services challenge r)
  unfolding check_response check_request
  response-Drew n challenge (err e) = Keeps-pure _ tt
  response-Drew n challenge (ok msg) = request _
    where
      request : (o : Option ServerRequest) → Keeps (Drew n) Any (check_request services challenge o)
      request none = Keeps-pure _ tt
      request (some r) = answer-Drew n challenge _

  round-Drew : (n : ℕ) → Keeps (Drew n) Any (challenge_round services)
  unfolding challenge_round new_challenge
  round-Drew n =
      Keeps-bind {Q = Any} (record { at = λ s h. (omega arith, tt) })
        λ challenge _.
          Keeps-bind {Q = Any} (record { at = λ s h. (h, tt) })
            (elim [
              | some e ↦ λ _. Keeps-pure _ tt
              | none ↦ λ _.
                  Keeps-bind {Q = Any} (record { at = λ s h. (h, tt) })
                    λ r _. response-Drew n challenge r
            ])

  Verified-later : {s s' t : State W} → s.drawn ≤ s'.drawn → Verified s' t → Verified s t
  Verified-later le v = record {
    index = v.index;
    signature = v.signature;
    world = v.world;
    before = v.before;
    fresh = omega (arith, v.fresh);
    drawn = v.drawn;
    challenged = v.challenged;
    accepted = v.accepted;
  }

  after_round_user :
      (fuel : ℕ) (o : Outcome (Result (Option (User Key)))) (s s' : State W)
      → s.drawn ≤ s'.drawn
      → (o ≡ ret (ok (some user)) → Verified s s')
      → ((ssh_challenge services fuel s').0 ≡ ret (ok user)
          → Verified s' (ssh_challenge services fuel s').1)
      → let x = continue o (after_round services (ssh_challenge services fuel)) s' in
        x.0 ≡ ret (ok user) → Verified s x.1
  after_round_user fuel (ret (ok (some u))) s s' le v again h = v (ground arith)
  after_round_user fuel (ret (ok none)) s s' le v again h = Verified-later le (again h)
  after_round_user fuel (ret (err e)) s s' le v again h = cc
  after_round_user fuel panic s s' le v again h = cc
  after_round_user fuel out_of_fuel s s' le v again h = cc

  -- If the loop returns a user, then the cache has accepted for that user a signature of the 64 bytes
  -- of a challenge which was drawn after the loop began, and which is the last message sent.
  pub ssh_challenge-Verified :
      (fuel : ℕ) (s : State W)
      → (ssh_challenge services fuel s).0 ≡ ret (ok user)
      → Verified s (ssh_challenge services fuel s).1
  unfolding ssh_challenge ◌>>=◌
  ssh_challenge-Verified zero s h = cc
  ssh_challenge-Verified (suc fuel) s h =
      let s' = (challenge_round services s).1 in
      after_round_user fuel (challenge_round services s).0 s s'
        ((round-Drew s.drawn).at s (omega arith)).0 (round_user s) (ssh_challenge-Verified fuel s')
        h
