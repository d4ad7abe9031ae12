-- ===== src/Protocol/Wire/Channels/Ends.antt =====
-- What the writing goroutine of `Channelize` (protocol/wire.go) puts on the wire, and the two ends of a
-- connection together.
use mathlib.Core.List.{append_assoc, append-nil, map-append}
use hologram.Prelude.{
  ◌≡◌, refl, sym, ap, ◌∙◌, Option, List, [], ◌∷◌, ◌++◌, length, All, All-append, arith,
  length-append, ◌↔◌,
}
use hologram.Prelude.Go.{Error, Bytes, Result, ok, err, Outcome, ret, panic, out_of_fuel}
use hologram.Protocol.Message.{Message}
use hologram.Protocol.Wire.Framing.{encode_header, length-encode_header}
use hologram.Protocol.Wire.{header_of, after_marshal, write_message}
use hologram.Protocol.Wire.Stream.{Reader, Writer}
use hologram.Protocol.Wire.Filling.{pending}
use hologram.Protocol.Wire.Writing.{frame, write_buffer_free}
use hologram.Protocol.Wire.RoundTrip.{fresh_writer}
use hologram.Protocol.Wire.Channels.{
  Channels, channelize, receive_next, receive_from, after_read_outcome, reading, reporting,
  delivering, crashed, Receiving, send_next, complain, Step, receives, sends, complains, Reach,
  here, next,
}
use hologram.Protocol.Wire.Channels.Order.{frames, in_hand, IsSmall, messages, Reach-Follows}

module _ (marshal : Message → Result Bytes) (unmarshal : Bytes → Message × Option Error) where
  abbrev pub body_of : Result Bytes → List Bytes
  body_of (ok b) = b ∷ []
  body_of (err e) = []

  -- The bodies of the messages that marshal, in order.
  abbrev pub bodies_of : List Message → List Bytes
  bodies_of [] = []
  bodies_of (m ∷ ms) = body_of (marshal m) ++ bodies_of ms

  frames-append : (bs cs : List Bytes) → frames (bs ++ cs) ≡ frames bs ++ frames cs
  frames-append [] cs = refl
  frames-append (b ∷ bs) cs = rw (frames-append bs cs, append_assoc (frame b)) refl

  bodies_of-append : (ms ns : List Message) → bodies_of (ms ++ ns) ≡ bodies_of ms ++ bodies_of ns
  bodies_of-append [] ns = refl
  bodies_of-append (m ∷ ms) ns =
      rw (bodies_of-append ms ns, append_assoc (body_of (marshal m))) refl

  after_marshal_free :
      (x : Result Bytes) (written : Bytes)
      → (after_marshal marshal x (record { written = written; results = [] })).1
        ≡ record { written = written ++ frames (body_of x); results = [] }
  after_marshal_free (ok b) written = rw (write_buffer_free b written, append-nil (frame b)) refl
  after_marshal_free (err e) written = rw (append-nil written) refl

  write_message_free :
      (m : Message) (written : Bytes)
      → (write_message marshal m (record { written = written; results = [] })).1
        ≡ record { written = written ++ frames (body_of (marshal m)); results = [] }
  unfolding write_message
  write_message_free m written = after_marshal_free (marshal m) written

  -- Everything sent that marshals is on the wire, in order, and the connection has had no fault.
  abbrev pub IsWritten : Channels → Type 0
  IsWritten c = c.writer ≡ record { written = frames (bodies_of c.sent); results = [] }

  send_next-IsWritten :
      (c : Channels) (m : Message) → IsWritten c → IsWritten (send_next marshal unmarshal m c)
  unfolding send_next
  send_next-IsWritten c m h = rw (
    h,
    write_message_free m (frames (bodies_of c.sent)),
    bodies_of-append c.sent (m ∷ []),
    frames-append (bodies_of c.sent) (body_of (marshal m) ++ []),
    append-nil (body_of (marshal m)),
  )

  after_read_outcome_writer :
      (x : Outcome (Result (Message × Option Error)) × Reader) (c : Channels)
      → ((after_read_outcome x c).writer ≡ c.writer) × ((after_read_outcome x c).sent ≡ c.sent)
  after_read_outcome_writer (ret x, r) c = (refl, refl)
  after_read_outcome_writer (panic, r) c = (refl, refl)
  after_read_outcome_writer (out_of_fuel, r) c = (refl, refl)

  -- The reading goroutine leaves the writer and what was sent alone.
  receive_from_writer :
      (v : Receiving) (c : Channels)
      → ((receive_from marshal unmarshal v c).writer ≡ c.writer)
        × ((receive_from marshal unmarshal v c).sent ≡ c.sent)
  receive_from_writer reading c = after_read_outcome_writer _ c
  receive_from_writer (reporting e m) c = (refl, refl)
  receive_from_writer (delivering m) c = (refl, refl)
  receive_from_writer crashed c = (refl, refl)

  Step-IsWritten : {c d : Channels} → Step marshal unmarshal c d → IsWritten c → IsWritten d
  unfolding receive_next complain
  Step-IsWritten (receives c) h =
      rw ((receive_from_writer c.receiving c).0, (receive_from_writer c.receiving c).1) h
  Step-IsWritten (sends c m e) h = send_next-IsWritten c m h
  Step-IsWritten (complains c e p) h = h

  pub Reach-IsWritten :
      (r : Reader) {c : Channels}
      → Reach marshal unmarshal (channelize r fresh_writer) c
      → IsWritten c
  unfolding channelize
  Reach-IsWritten r here = refl
  Reach-IsWritten r (next run step) = Step-IsWritten step (Reach-IsWritten r run)

  -- `unmarshal` takes back what `marshal` made of the message, and it is small enough for `Read`.
  abbrev pub IsCarried : Message → Type 0
  IsCarried m = (b : Bytes) → marshal m ≡ ok b → IsSmall b × ((unmarshal b).0 ≡ m)

  abbrev pub if_marshalled : Message → Result Bytes → List Message
  if_marshalled m (ok b) = m ∷ []
  if_marshalled m (err e) = []

  -- The messages that marshal: `Write` returns the error of the others and sends nothing.
  abbrev pub marshalled : List Message → List Message
  marshalled [] = []
  marshalled (m ∷ ms) = if_marshalled m (marshal m) ++ marshalled ms

  body_of-carried :
      (m : Message) (x : Result Bytes)
      → ((b : Bytes) → x ≡ ok b → IsSmall b × ((unmarshal b).0 ≡ m))
      → All IsSmall (body_of x) × (messages unmarshal (body_of x) ≡ if_marshalled m x)
  body_of-carried m (ok b) h = (((h b refl).0, _), ap (λ y. y ∷ []) (h b refl).1)
  body_of-carried m (err e) h = (_, refl)

  bodies_of-carried :
      (ms : List Message)
      → All IsCarried ms
      → All IsSmall (bodies_of ms) × (messages unmarshal (bodies_of ms) ≡ marshalled ms)
  bodies_of-carried [] h = (_, refl)
  bodies_of-carried (m ∷ ms) h =
      let one = body_of-carried m (marshal m) h.0 in
      let more = bodies_of-carried ms h.1 in
      (
        All-append IsSmall (body_of (marshal m)) (bodies_of ms) one.0 more.0,
        map-append (λ b. (unmarshal b).0) (body_of (marshal m)) (bodies_of ms)
            ∙ rw (one.1, more.1) refl,
      )

  frames_empty : (bs : List Bytes) → frames bs ≡ [] → bs ≡ []
  frames_empty [] h = refl
  frames_empty (b ∷ bs) h = absurd (
      omega (
        arith,
        ap length h,
        length-append (frame b) (frames bs),
        length-append (encode_header (header_of b)) b,
        length-encode_header (header_of b),
      ))

  messages_empty : (bs : List Bytes) → messages unmarshal bs ≡ [] → bs ≡ []
  messages_empty [] h = refl
  messages_empty (b ∷ bs) h = absurd (omega (arith, ap length h))

  -- Two ends that each run the goroutines of `Channelize`, in any interleaving, on a connection that
  -- carries to the second what the first has written without a fault: if each message sent that marshals
  -- has a body of at most 1 MiB, from which unmarshalling gets it back, then the messages that the second
  -- end has delivered, with the one it has in hand, are the first of those that were sent and marshal, in
  -- their order, and they are all of them just if nothing is left on the stream.
  pub channelize-delivers :
      (from to : Reader) (w : Writer) {c d : Channels}
      → Reach marshal unmarshal (channelize from fresh_writer) c
      → All IsCarried c.sent
      → pending to ≡ c.writer.written
      → Reach marshal unmarshal (channelize to w) d
      → (rest : List Message) × ((d.received ++ in_hand d.receiving) ++ rest ≡ marshalled c.sent)
        × ((rest ≡ []) ↔ (pending d.reader ≡ []))
  channelize-delivers from to w {c} {d} run carried link run' =
      let written = Reach-IsWritten from run in
      let (small, same) = bodies_of-carried c.sent carried in
      let bytes : pending to ≡ frames (bodies_of c.sent) = link ∙ ap (λ v. v.written) written in
      let f = Reach-Follows unmarshal marshal (bodies_of c.sent) to w bytes small run' in
      (
        messages unmarshal f.rest,
        f.all ∙ same,
        (
          λ none. f.left ∙ ap frames (messages_empty f.rest none),
          λ done. ap (messages unmarshal) (frames_empty f.rest (sym f.left ∙ done)),
        ),
      )
