-- ===== src/Server/Handler/Halting/Rules.antt =====
-- Code over a connection that ends, and what it takes off the connection: one rule for each way to
-- build such code.
use hologram.Prelude.{ℕ, ◌+◌, ◌≤◌, ◌≡◌, ◌≢◌, refl, String, Bool, true, false, length, arith}
use hologram.Prelude.Go.{
  Result, ok, err, Outcome, ret, panic, out_of_fuel, Go, pure, panics, continue, ◌>>=◌,
}
use hologram.Prelude.{if◌then◌else◌}
use hologram.Protocol.Message.{Message}
use hologram.Protocol.Connection.{Conn, read, write, close}
use hologram.Server.Handler.State.{State, receive, send, hang_up, counter, outside}

-- The number of messages that are still to come.
abbrev pub waiting : {W : Type 0} → State W → ℕ
waiting s = length s.conn.incoming

-- The code has not run out of fuel, and has taken `cost a` messages at least if it returned `a`.
abbrev pub EndsAt : {A W : Type 0} → (A → ℕ) → ℕ → Outcome A → State W → Type 0
EndsAt cost n (ret a) s = waiting s + cost a ≤ n
EndsAt cost n panic s = waiting s ≤ n
EndsAt cost n out_of_fuel s = ⊥

pub record Halts {A W : Type 0} (cost : A → ℕ) (m : Go (State W) A) : Type 0 where
  pub at : (s : State W) → EndsAt cost (waiting s) (m s).0 (m s).1

-- Code that need not take any message.
abbrev pub free : {A : Type 0} → A → ℕ
free a = 0

module _ {A W : Type 0} {cost : A → ℕ} where
  pub Halts-pure : (a : A) → cost a ≡ 0 → Halts {W = W} cost (pure a)
  Halts-pure a e = record { at = λ s. omega arith }

  pub Halts-panics : Halts {W = W} cost panics
  Halts-panics = record { at = λ s. omega arith }

  pub Halts-if :
      (b : Bool) {m n : Go (State W) A}
      → Halts cost m
      → Halts cost n
      → Halts cost (if b then m else n)
  Halts-if true hm hn = hm
  Halts-if false hm hn = hn

module _ {B W : Type 0} where
  pub EndsAt-weaken :
      (c d : B → ℕ) (k n n' : ℕ) (o : Outcome B) (s : State W)
      → ((b : B) → d b ≤ c b + k)
      → n' + k ≤ n
      → EndsAt c n' o s
      → EndsAt d n o s
  EndsAt-weaken c d k n n' (ret b) s le h e = let g = le b in omega arith
  EndsAt-weaken c d k n n' panic s le h e = omega arith
  EndsAt-weaken c d k n n' out_of_fuel s le h e = e

module _ {A B W : Type 0} where
  -- The rest of the code starts with what the first part has left.
  pub EndsAt-continue :
      (c : A → ℕ) (d : B → ℕ) (n : ℕ) (o : Outcome A) (f : A → Go (State W) B) (s : State W)
      → EndsAt c n o s
      → ((a : A) → waiting s + c a ≤ n → EndsAt d n (f a s).0 (f a s).1)
      → EndsAt d n (continue o f s).0 (continue o f s).1
  EndsAt-continue c d n (ret a) f s h k = k a h
  EndsAt-continue c d n panic f s h k = h
  EndsAt-continue c d n out_of_fuel f s h k = absurd h

  -- The same for a block, from a state in which at most `n` messages wait.
  pub EndsAt-bind :
      (c : A → ℕ) (d : B → ℕ) (n : ℕ) (m : Go (State W) A) (f : A → Go (State W) B) (s : State W)
      → EndsAt c n (m s).0 (m s).1
      → ((a : A) → waiting (m s).1 + c a ≤ n → EndsAt d n (f a (m s).1).0 (f a (m s).1).1)
      → EndsAt d n ((m >>= f) s).0 ((m >>= f) s).1
  unfolding ◌>>=◌
  EndsAt-bind c d n m f s h k = EndsAt-continue c d n (m s).0 f (m s).1 h k

  -- The cost of the whole is at most that of the parts.
  pub Halts-bind_cost :
      {m : Go (State W) A} {f : A → Go (State W) B} {c : A → ℕ} {e : B → ℕ} (d : A → B → ℕ)
      → ((a : A) (b : B) → e b ≤ d a b + c a)
      → Halts c m
      → ((a : A) → Halts (d a) (f a))
      → Halts e (m >>= f)
  unfolding ◌>>=◌
  Halts-bind_cost {m} {f} {c} {e} d le hm hf = record {
    at = λ s. EndsAt-continue c e (waiting s) (m s).0 f (m s).1 (hm.at s) λ a h.
        EndsAt-weaken (d a) e (c a) (waiting s) (waiting (m s).1) (f a (m s).1).0 (f a (m s).1).1
          (le a) h ((hf a).at (m s).1);
  }

  pub Halts-bind :
      {m : Go (State W) A} {f : A → Go (State W) B}
      → Halts free m
      → ((a : A) → Halts free (f a))
      → Halts free (m >>= f)
  Halts-bind hm hf = Halts-bind_cost (λ _. free) (λ a b. omega arith) hm hf

-- A message that has come was taken off the connection.
abbrev pub message_cost : Result Message → ℕ
message_cost (ok m) = 1
message_cost (err e) = 0

length-read : (c : Conn) → length (read c).1.incoming + message_cost (read c).0 ≤ length c.incoming
unfolding read
length-read c = ground arith

length-write : (m : Message) (c : Conn) → length (write m c).1.incoming ≤ length c.incoming
unfolding write
length-write m c = ground arith

module _ {W : Type 0} where
  pub Halts-receive : Halts {W = W} message_cost receive
  Halts-receive = record { at = λ s. length-read s.conn }

  pub Halts-send : (m : Message) → Halts {W = W} free (send m)
  Halts-send m = record { at = λ s. omega (arith, length-write m s.conn) }

  pub Halts-hang_up : Halts {W = W} free hang_up
  unfolding close
  Halts-hang_up = record { at = λ s. omega arith }

  pub Halts-counter : (name : String) → Halts {W = W} free (counter name)
  Halts-counter name = record { at = λ s. omega arith }

  EndsAt-outside :
      {A : Type 0} (o : Outcome A) (s : State W) → o ≢ out_of_fuel → EndsAt free (waiting s) o s
  EndsAt-outside (ret a) s h = omega arith
  EndsAt-outside panic s h = omega arith
  EndsAt-outside out_of_fuel s h = h refl

  pub Halts-outside :
      {A : Type 0} (m : Go W A) → ((w : W) → (m w).0 ≢ out_of_fuel) → Halts free (outside m)
  Halts-outside m h = record {
    at = λ s. EndsAt-outside (m s.world).0 (record s { world = (m s.world).1 }) (h s.world);
  }
