-- ===== src/Handler/Create.antt =====
-- `NewHandler` of server.go, and the handler that it makes.
use signalg.Base.{ℕ, ◌≡◌, ◌^◌, refl, subst, Bool, true, false, not, Bytes, some, arith}
use signalg.Base.Int.{ℤ, pos, lt_int}
use signalg.Errors.{
  Error, Result, ok, ◌>>=◌, ◌>>◌, nil_hub_factory, >>-eq-ok, >>=-eq-ok, ok-injective, nil_error,
}
use signalg.Protocol.Types.{BodyCodec, ProtocolConfig, normalize_max_payload_size}
use signalg.Protocol.Codec.{new_protocol_config, new_body_codec}
use signalg.Protocol.Validate.{reject}
use signalg.Batch.Tally.{normalize_send_concurrency}
use signalg.Handler.Config.{
  Config, normalize_config, normalize_config-IsReady, IsReady, heartbeat_enabled,
}
use signalg.Handler.Path.{normalize_path, is_rooted, IsClean, normalize_path-is_rooted}

-- What the caller of `NewHandler` configures beside the numbers of `Config`.
pub record Options : Type 0 where
  pub path : Bytes
  pub serialization : ℕ
  pub send_concurrency : ℤ
  pub numbers : Config

-- What `NewHandler` makes of them; `heartbeats` says whether it starts the heartbeat loop.
pub record Created : Type 0 where
  pub path : Bytes
  pub protocol : ProtocolConfig
  pub send_concurrency : ℤ
  pub numbers : Config
  pub heartbeats : Bool

-- `NewHandler`; the second argument says whether there is a factory.
unfoldable pub create_handler : (Bytes → Bytes) → Bool → Options → Result Created
unfolding new_protocol_config normalize_config heartbeat_enabled
create_handler clean has_factory o = do
  reject (not has_factory) nil_hub_factory
  protocol ← new_protocol_config o.serialization o.numbers.max_payload_size
  ok (record {
    path = normalize_path clean o.path;
    protocol = protocol;
    send_concurrency = normalize_send_concurrency o.send_concurrency;
    numbers = normalize_config o.numbers;
    heartbeats = heartbeat_enabled (normalize_config o.numbers);
  })

-- A handler that can run: its path can be asked for, its codec is known and its payload limit
-- positive, and its sends have a worker.
pub record IsUsable (clean : Bytes → Bytes) (h : Created) : Type 0 where
  pub rooted : is_rooted h.path ≡ true
  pub clean_path : clean h.path ≡ h.path
  pub codec : (c : BodyCodec) × (h.protocol.codec ≡ some c)
  pub limit : lt_int (pos 0) h.protocol.max_payload_size ≡ true
  pub concurrency : lt_int (pos 0) h.send_concurrency ≡ true
  pub numbers : IsReady h.numbers
  pub heartbeats : h.heartbeats ≡ lt_int (pos 0) h.numbers.ping_interval

pub passed : (b : Bool) (e : Error) → reject b e ≡ nil_error → b ≡ false
passed true e h = cc
passed false e h = refl

positive_limit : (n : ℤ) → lt_int (pos 0) (normalize_max_payload_size n) ≡ true
unfolding normalize_max_payload_size
positive_limit n = ground arith

positive_concurrency : (n : ℤ) → lt_int (pos 0) (normalize_send_concurrency n) ≡ true
unfolding normalize_send_concurrency
positive_concurrency n = ground arith

-- The protocol of a handler.
has_codec :
    (s : ℕ) (max : ℤ) (p : ProtocolConfig)
    → new_protocol_config s max ≡ ok p
    → ((c : BodyCodec) × (p.codec ≡ some c)) × (lt_int (pos 0) p.max_payload_size ≡ true)
unfolding new_protocol_config
has_codec s max p h =
    let (c, e, f) = >>=-eq-ok (new_body_codec s) _ h in
    let same = ok-injective f in
    subst
      (λ (x : ProtocolConfig).
        ((c : BodyCodec) × (x.codec ≡ some c)) × (lt_int (pos 0) x.max_payload_size ≡ true))
      same ((c, refl), positive_limit max)

module _ (clean : Bytes → Bytes) (has_factory : Bool) (o : Options) (laws : IsClean clean)
    (short : lt_int o.numbers.ping_interval (pos (2 ^ 60)) ≡ true) where
  pub create_handler-IsUsable :
      (h : Created)
      → create_handler clean has_factory o ≡ ok h
      → (has_factory ≡ true) × IsUsable clean h
  unfolding create_handler
  create_handler-IsUsable h e =
      let (r, f) = >>-eq-ok (reject (not has_factory) nil_hub_factory) _ e in
      let (p, c, g) =
        >>=-eq-ok (new_protocol_config o.serialization o.numbers.max_payload_size) _ f in
      let (codec, limit) = has_codec o.serialization o.numbers.max_payload_size p c in
      let (rooted, fixed) = normalize_path-is_rooted clean laws o.path in
      let ready = normalize_config-IsReady o.numbers short in
      (
        ground (arith, passed (not has_factory) nil_hub_factory r),
        subst (IsUsable clean) (ok-injective g) (record {
          rooted = rooted;
          clean_path = fixed;
          codec = codec;
          limit = limit;
          concurrency = positive_concurrency o.send_concurrency;
          numbers = ready;
          heartbeats = ready.heartbeat;
        }),
      )
