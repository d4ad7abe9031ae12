-- ===== src/Protocol/Wire/Channels/Failing.antt =====
-- `Channelize` (protocol/wire.go) on a connection that is closed or has failed: the reading goroutine
-- does not end.
use mathlib.Core.List.{append_assoc, append-nil}
use hologram.Prelude.{Option, ℕ, zero, suc, ◌≡◌, refl, sym, ap, ◌∙◌, List, [], ◌∷◌, ◌++◌}
use hologram.Prelude.Go.{Error, Bytes, Result, ok, err}
use hologram.Protocol.Message.{Message}
use hologram.Protocol.Wire.Filling.{pending}
use hologram.Protocol.Wire.Reading.{read_spec, read_message-Meets}
use hologram.Protocol.Wire.Channels.{Channels, reading, receive_next}

-- The same error, `n` times.
abbrev pub repeated : ℕ → Error → List Error
repeated zero e = []
repeated (suc n) e = e ∷ repeated n e

-- Two steps of the goroutine: `Read`, and the send of its error.
module _ (marshal : Message → Result Bytes) (unmarshal : Bytes → Message × Option Error) where
  abbrev pub rounds : ℕ → Channels → Channels
  rounds zero c = c
  rounds (suc n) c = rounds n (receive_next marshal unmarshal (receive_next marshal unmarshal c))

  -- What stands after the goroutine has gone round with nothing left to read.
  record Goes (errors : List Error) (c d : Channels) : Type 0 where
    ready : d.receiving ≡ reading
    drained : pending d.reader ≡ []
    failure : d.reader.failure ≡ c.reader.failure
    reported : d.errors ≡ c.errors ++ errors
    delivered : d.received ≡ c.received

  one_round-Goes :
      (c : Channels)
      → c.receiving ≡ reading
      → pending c.reader ≡ []
      → Goes
          (c.reader.failure ∷ [])
          c
          (receive_next marshal unmarshal (receive_next marshal unmarshal c))
  unfolding receive_next
  one_round-Goes c at done =
      let m = read_message-Meets (λ x. ok (unmarshal x)) c.reader in
      let spec : read_spec (λ x. ok (unmarshal x)) (pending c.reader) c.reader.failure
          ≡ (err c.reader.failure, []) =
        rw done refl in
      rw (at, m.result, spec)
        (record {
          ready = refl;
          drained = m.left ∙ ap (λ x. x.1) spec;
          failure = m.same;
          reported = refl;
          delivered = refl;
        })

  -- On a connection that has ended, the reading goroutine goes round for ever: each round delivers
  -- nothing, sends the error of the connection once more, and is ready for the next.
  pub rounds-repeated :
      (n : ℕ) (c : Channels)
      → c.receiving ≡ reading
      → pending c.reader ≡ []
      → ((rounds n c).errors ≡ c.errors ++ repeated n c.reader.failure)
        × ((rounds n c).received ≡ c.received)
        × ((rounds n c).receiving ≡ reading)
  rounds-repeated zero c at done = (sym (append-nil c.errors), refl, at)
  rounds-repeated (suc n) c at done =
      let g = one_round-Goes c at done in
      let d = receive_next marshal unmarshal (receive_next marshal unmarshal c) in
      let rest = rounds-repeated n d g.ready g.drained in
      (
        rest.0 ∙ rw (g.reported, g.failure, append_assoc c.errors) refl,
        rest.1 ∙ g.delivered,
        rest.2,
      )
