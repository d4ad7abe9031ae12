-- ===== src/Protocol/Wire/Channels/Order.antt =====
-- The messages of a channel of `Channelize` (protocol/wire.go) come out in the order in which they
-- went in on the other side, under every interleaving of the goroutines.
use mathlib.Core.Path.{subst}
use mathlib.Core.List.{append_assoc, append-nil}
use hologram.Prelude.{
  ◌≤◌, ◌≡◌, refl, ap, ◌∙◌, Option, none, some, List, [], ◌∷◌, ◌++◌, map, length, All,
}
use hologram.Prelude.Go.{Error, Bytes, Result, ok, err}
use hologram.Protocol.Message.{Message}
use hologram.Protocol.Wire.{maximum_message_size, header_error}
use hologram.Protocol.Wire.Stream.{Reader, Writer}
use hologram.Protocol.Wire.Filling.{pending}
use hologram.Protocol.Wire.Reading.{read_spec, read_message-Meets}
use hologram.Protocol.Wire.Writing.{frame}
use hologram.Protocol.Wire.RoundTrip.{read_spec-frame, body_spec-frame}
use hologram.Protocol.Wire.Channels.{
  Receiving, reading, reporting, delivering, crashed, Channels, channelize, receive_next,
  receive_from, send_next, complain, Step, receives, sends, complains, Reach, here, next,
  after_read,
}

-- The frames of the bodies, one behind the other.
abbrev pub frames : List Bytes → Bytes
frames [] = []
frames (b ∷ bs) = frame b ++ frames bs

-- The message that the reading goroutine has read and not yet delivered.
abbrev pub in_hand : Receiving → List Message
in_hand reading = []
in_hand (reporting e none) = []
in_hand (reporting e (some m)) = m ∷ []
in_hand (delivering m) = m ∷ []
in_hand crashed = []

abbrev pub IsSmall : Bytes → Type 0
IsSmall b = length b ≤ maximum_message_size

module _ (unmarshal : Bytes → Message × Option Error) where
  abbrev pub messages : List Bytes → List Message
  messages = map (λ b. (unmarshal b).0)

  -- The goroutine has taken the messages of the first bodies, in order, and the frames of `rest` are
  -- still on the stream.
  pub record Follows (bodies : List Bytes) (c : Channels) : Type 0 where
    pub rest : List Bytes
    pub small : All IsSmall rest
    pub left : pending c.reader ≡ frames rest
    pub all : (c.received ++ in_hand c.receiving) ++ messages rest ≡ messages bodies

  read_spec_next :
      (b : Bytes) (bs : List Bytes) (e : Error)
      → IsSmall b
      → read_spec (λ x. ok (unmarshal x)) (frames (b ∷ bs)) e ≡ (ok (unmarshal b), frames bs)
  read_spec_next b bs e small =
      read_spec-frame (λ x. ok (unmarshal x)) b (frames bs) e
      ∙ body_spec-frame (λ x. ok (unmarshal x)) b (frames bs) e small

  in_hand-after_read : (m : Message) (e : Option Error) → in_hand (after_read (some m, e)) ≡ m ∷ []
  in_hand-after_read m none = refl
  in_hand-after_read m (some e) = refl

  read_next-Follows :
      (marshal : Message → Result Bytes) (bodies rest : List Bytes) (c : Channels)
      → All IsSmall rest
      → pending c.reader ≡ frames rest
      → (c.received ++ []) ++ messages rest ≡ messages bodies
      → Follows bodies (receive_from marshal unmarshal reading c)
  read_next-Follows marshal bodies [] c small left all =
      let m = read_message-Meets (λ x. ok (unmarshal x)) c.reader in
      let spec : read_spec (λ x. ok (unmarshal x)) (pending c.reader) c.reader.failure
          ≡ (err (header_error [] c.reader.failure), []) =
        rw left refl in
      let ran = m.result in
      rw (ran, spec)
        (record { rest = []; small = small; left = m.left ∙ ap (λ x. x.1) spec; all = all })
  read_next-Follows marshal bodies (b ∷ bs) c small left all =
      let m = read_message-Meets (λ x. ok (unmarshal x)) c.reader in
      let spec : read_spec (λ x. ok (unmarshal x)) (pending c.reader) c.reader.failure
          ≡ (ok (unmarshal b), frames bs) =
        rw left (read_spec_next b bs c.reader.failure small.0) in
      rw (m.result, spec)
        (record {
          rest = bs;
          small = small.1;
          left = m.left ∙ ap (λ x. x.1) spec;
          all =
              rw (in_hand-after_read (unmarshal b).0 (unmarshal b).1, append_assoc c.received)
                (rw (← append-nil c.received) all);
        })

  all_at :
      {v : Receiving} (bodies rest : List Bytes) (c : Channels)
      → c.receiving ≡ v
      → (c.received ++ in_hand c.receiving) ++ messages rest ≡ messages bodies
      → (c.received ++ in_hand v) ++ messages rest ≡ messages bodies
  all_at bodies rest c h all =
      subst (λ v. (c.received ++ in_hand v) ++ messages rest ≡ messages bodies) h all

  receive_from-Follows :
      (marshal : Message → Result Bytes) (bodies : List Bytes) (v : Receiving) (c : Channels)
      → c.receiving ≡ v
      → Follows bodies c
      → Follows bodies (receive_from marshal unmarshal v c)
  receive_from-Follows marshal bodies reading c h f =
      read_next-Follows marshal bodies f.rest c f.small f.left (all_at bodies f.rest c h f.all)
  receive_from-Follows marshal bodies (reporting e none) c h f = record {
    rest = f.rest;
    small = f.small;
    left = f.left;
    all = all_at bodies f.rest c h f.all;
  }
  receive_from-Follows marshal bodies (reporting e (some m)) c h f = record {
    rest = f.rest;
    small = f.small;
    left = f.left;
    all = all_at bodies f.rest c h f.all;
  }
  receive_from-Follows marshal bodies (delivering m) c h f = record {
    rest = f.rest;
    small = f.small;
    left = f.left;
    all = rw append-nil (all_at bodies f.rest c h f.all);
  }
  receive_from-Follows marshal bodies crashed c h f = f

  Step-Follows :
      (marshal : Message → Result Bytes) (bodies : List Bytes) {c d : Channels}
      → Step marshal unmarshal c d
      → Follows bodies c
      → Follows bodies d
  unfolding receive_next send_next complain
  Step-Follows marshal bodies (receives c) f =
      receive_from-Follows marshal bodies c.receiving c refl f
  Step-Follows marshal bodies (sends c m h) f = record {
    rest = f.rest;
    small = f.small;
    left = f.left;
    all = f.all;
  }
  Step-Follows marshal bodies (complains c e h) f = record {
    rest = f.rest;
    small = f.small;
    left = f.left;
    all = f.all;
  }

  -- If the stream holds the frames of bodies of at most 1 MiB each, then whatever the goroutines have
  -- done, the messages delivered are those of the first bodies, in order, none lost and none twice, and
  -- the reading goroutine has at most one more in hand.
  pub Reach-Follows :
      (marshal : Message → Result Bytes) (bodies : List Bytes) (r : Reader) (w : Writer)
      {c : Channels}
      → pending r ≡ frames bodies
      → All IsSmall bodies
      → Reach marshal unmarshal (channelize r w) c
      → Follows bodies c
  unfolding channelize
  Reach-Follows marshal bodies r w p small here = record {
    rest = bodies;
    small = small;
    left = p;
    all = refl;
  }
  Reach-Follows marshal bodies r w p small (next run step) =
      Step-Follows marshal bodies step (Reach-Follows marshal bodies r w p small run)
