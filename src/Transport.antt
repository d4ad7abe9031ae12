-- ===== src/Transport.antt =====
-- transport/local and transport/remote: listening for connections and opening them. Package net's
-- sockets, package crypto/tls and the generated assets are parameters.
pub mod Listening
use hologram.Prelude.{
  ℕ, zero, suc, String, Bool, true, false, Option, none, some, List, [], ◌∷◌, ◌++◌, if◌then◌else◌,
}
use hologram.Prelude.Go.{Error, Bytes, Result, ok, err, Outcome, ret, out_of_fuel, Go, pure, ◌>>=◌}

-- A `net.Listener`: what its calls of `Accept` return while it is open, and whether it is closed.
pub record Listener (C : Type 0) : Type 0 where
  pub accepts : List (Result C)
  pub closed : Bool

-- What `Accept` returns on a closed listener, and once no more connections come.
abbrev pub err_closed : Error
err_closed = "use of closed network connection"

module _ {C : Type 0} where
  abbrev pub next_accept : List (Result C) → Listener C → Result C × Listener C
  next_accept [] l = (err "no connection", l)
  next_accept (r ∷ rest) l = (r, record l { accepts = rest })

  unfoldable pub accept : Listener C → Result C × Listener C
  accept l = if l.closed then (err err_closed, l) else next_accept l.accepts l

-- A server over the connections that it has handed to goroutines with its handler, in this order.
pub record Server (C : Type 0) : Type 0 where
  pub s : Listener C
  pub handed : List C

module _ {C : Type 0} where
  -- One round of `listen`.
  abbrev pub hand_off : Result C × Listener C → Server C → Server C
  hand_off (err e, l) us = record us { s = l }
  hand_off (ok conn, l) us = record { s = l; handed = us.handed ++ conn ∷ [] }

  unfoldable pub listen_once : Server C → Server C
  listen_once us = hand_off (accept us.s) us

  -- `listen`: the loop has no exit.
  unfoldable pub listen : ℕ → Go (Server C) (Unit {0})
  listen zero us = (out_of_fuel, us)
  listen (suc rounds) us = listen rounds (listen_once us)

  -- `Close`
  unfoldable pub close : Server C → Server C
  close us = record us { s = record us.s { closed = true } }

  abbrev pub server_on : Result (Listener C) → Result (Server C)
  server_on (err e) = err e
  server_on (ok l) = ok (record { s = l; handed = [] })

-- package local's `NewServer` and `NewClient`, over `net.Listen` and `net.Dial` of a UNIX socket
module _ {C : Type 0} where
  unfoldable pub new_local_server : (String → Result (Listener C)) → String → Result (Server C)
  new_local_server net_listen address = server_on (net_listen address)

  unfoldable pub new_local_client :
      {W : Type 0} → (String → Go W (Result C)) → String → Go W (Result C)
  new_local_client net_dial address = net_dial address

-- crypto/tls with its certificates, and go-bindata's `Asset`.
pub record Tls (C W Certificate : Type 0) : Type 0 where
  pub asset : String → Result Bytes
  pub x509_key_pair : Bytes → Bytes → Result Certificate
  pub listen : String → Certificate → Result (Listener C)
  pub dial : Bytes → String → Go W (Result C)

module _ {C W Certificate : Type 0} (tls : Tls C W Certificate) where
  abbrev pub with_certificate : String → Result Certificate → Result (Server C)
  with_certificate address (err e) = err e
  with_certificate address (ok cert) = server_on (tls.listen address cert)

  abbrev pub with_assets : String → Result Bytes → Result Bytes → Result (Server C)
  with_assets address (err e) key = err e
  with_assets address (ok cert) (err e) = err e
  with_assets address (ok cert) (ok key) = with_certificate address (tls.x509_key_pair cert key)

  -- package remote's `NewServer`
  unfoldable pub new_server : String → Result (Server C)
  new_server address =
      with_assets address (tls.asset "self-signed.cert") (tls.asset "self-signed.key")

  abbrev pub with_ca : String → Result Bytes → Go W (Result C)
  with_ca address (err e) = pure (err e)
  with_ca address (ok ca) = tls.dial ca address

  -- package remote's `NewClient`
  unfoldable pub new_client : String → Go W (Result C)
  new_client address = with_ca address (tls.asset "self-signed-ca.cert")
