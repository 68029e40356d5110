-- ===== src/Server.antt =====
-- `NewServer`, `Start` and what `Shutdown` stores, of server.go; the other methods are in Running.
pub mod Running
pub mod Stopped
use signalg.Base.{
  ◌≡◌, ◌^◌, subst, Bool, true, false, is_empty, List, [], ◌∷◌, Bytes, Option, none, some,
}
use signalg.Base.Int.{pos, lt_int}
use signalg.Errors.{
  Error, Result, ok, err, ◌>>=◌, ◌>>◌, missing_addr, >>-eq-ok, >>=-eq-ok, ok-injective, Checked,
  nil_error,
}
use signalg.Protocol.Validate.{reject}
use signalg.Text.{trim_space}
use signalg.Handler.Path.{IsClean}
use signalg.Handler.Create.{
  Options, Created, create_handler, IsUsable, passed, create_handler-IsUsable,
}

-- The fields of a `*Server`: the address that it listens at, its handler, its listener once it has
-- started, and `shutdownErr` once `shutdownOnce` has run, as the errors that it joins.
pub record Server (Listener : Type 0) : Type 0 where
  pub addr : Bytes
  pub handler : Created
  pub listener : Option Listener
  pub shutdown_err : Option (List Error)

-- `errors.Join`: the errors that are not nil.
abbrev pub join : Checked → Checked → List Error
join (ok u) (ok v) = []
join (ok u) (err e) = e ∷ []
join (err d) (ok v) = d ∷ []
join (err d) (err e) = d ∷ e ∷ []

module _ {Listener : Type 0} where
  -- `NewServer`.
  unfoldable pub new_server : (Bytes → Bytes) → Bool → Bytes → Options → Result (Server Listener)
  unfolding create_handler
  new_server clean has_factory addr o = do
    let trimmed = trim_space addr
    reject (is_empty trimmed) missing_addr
    handler ← create_handler clean has_factory o
    ok (record { addr = trimmed; handler = handler; listener = none; shutdown_err = none })

  -- `Start`, with what `net.Listen` returns for the address, under `mu`.
  unfoldable pub start : (Bytes → Result Listener) → Server Listener → Server Listener × Checked
  start listen s = elim s.listener [
    | some l ↦ (s, nil_error)
    | none ↦ elim (listen s.addr) [
      | err e ↦ (s, err e)
      | ok l ↦ (record s { listener = some l }, nil_error)
    ]
  ]

  -- `Shutdown`, with what `Shutdown` of the handler and of the HTTP server return if they are called.
  unfoldable pub server_shutdown :
      Checked → Checked → Server Listener → Server Listener × List Error
  server_shutdown handler_err server_err s = elim s.shutdown_err [
    | some stored ↦ (s, stored)
    | none ↦ (
      record s { shutdown_err = some (join handler_err server_err) },
      join handler_err server_err,
    )
  ]

module _ {Listener : Type 0} (clean : Bytes → Bytes) (has_factory : Bool) (o : Options)
    (laws : IsClean clean) (short : lt_int o.numbers.ping_interval (pos (2 ^ 60)) ≡ true) where
  -- Whatever options `NewServer` accepts, with a ping interval of less than 2^60 nanoseconds, and
  -- with what is documented of `path.Clean`: there is a factory and an address to listen at; the
  -- handler's path is rooted and clean, its codec is known and its payload limit positive, its
  -- sends have a worker, its send queue has room and its write timeout is positive; and it starts
  -- the heartbeat exactly if the ping interval is positive.
  pub new_server-IsUsable :
      (addr : Bytes) (s : Server Listener)
      → new_server clean has_factory addr o ≡ ok s
      → (has_factory ≡ true) × (is_empty s.addr ≡ false) × IsUsable clean s.handler
  unfolding new_server
  new_server-IsUsable addr s e =
      let (r, f) = >>-eq-ok (reject (is_empty (trim_space addr)) missing_addr) _ e in
      let (made, c, g) = >>=-eq-ok (create_handler clean has_factory o) _ f in
      let (factory, usable) = create_handler-IsUsable clean has_factory o laws short made c in
      subst
        (λ (x : Server Listener).
          (has_factory ≡ true) × (is_empty x.addr ≡ false) × IsUsable clean x.handler)
        (ok-injective g) (factory, passed (is_empty (trim_space addr)) missing_addr r, usable)
