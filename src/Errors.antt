-- ===== src/Errors.antt =====
-- The errors of the package, and Go's (value, error) results.
-- An error is the sentinel that `errors.Is` finds under the `%w` wrapping; its text is left out.
use signalg.Base.{ℕ, ◌≡◌, refl, ◌⊎◌, inl, inr, Bool, true, false}

pub data Error : Type 0 where
  -- protocol.go
  invalid_frame unsupported_codec unexpected_codec payload_too_large invalid_message_type : Error
  unsupported_body_value invalid_method_name invalid_invocation_id invalid_frame_kind : Error
  -- server.go
  missing_addr nil_hub_factory nil_hub handler_shutting_down connection_not_found : Error
  invalid_group slow_consumer : Error
  -- dispatcher.go
  method_not_found nil_dispatcher_target : Error
  -- `errors.New("signalg: nil websocket connection")` of connection.go
  nil_websocket : Error
  -- `ctx.Err()` of a context that is done
  canceled deadline_exceeded : Error
  -- an error that other code returns, by a number of its own
  external : ℕ → Error
  -- no error that a function returns: the call panics
  panicked : Error

abbrev pub is_panic : Error → Bool
is_panic panicked = true
is_panic _ = false

pub data Result {ℓ} (Value : Type ℓ) : Type ℓ where
  err : Error → Result Value
  ok : Value → Result Value

-- A function that returns only an `error`: `ok tt` is nil.
abbrev pub Checked : Type 0
Checked = Result (Unit {0})

-- `if err != nil { return err }` behind a call, with and without a value.
infixl 5 ◌>>=◌ ◌>>◌
abbrev pub ◌>>=◌ {ℓ κ} : {X : Type ℓ} {Y : Type κ} → Result X → (X → Result Y) → Result Y
err e >>= next = err e
ok x >>= next = next x

abbrev pub ◌>>◌ {ℓ} : {Y : Type ℓ} → Checked → Result Y → Result Y
check >> rest = check >>= λ _. rest

abbrev pub nil_error : Checked
nil_error = ok tt

-- Inversion of a check that passes, and of a successful bind.
pub >>-eq-ok {ℓ} :
    {B : Type ℓ} (m : Checked) (k : Result B) {b : B}
    → (m >> k) ≡ ok b
    → (m ≡ nil_error) × (k ≡ ok b)
>>-eq-ok (ok tt) k h = (refl, h)
>>-eq-ok (err e) k h = cc

pub >>=-eq-ok {ℓ κ} :
    {X : Type ℓ} {Y : Type κ} (call : Result X) (next : X → Result Y) {y : Y}
    → call >>= next ≡ ok y
    → (x : X) × (call ≡ ok x) × (next x ≡ ok y)
>>=-eq-ok (err e) next h = cc
>>=-eq-ok (ok x) next h = (x, refl, h)

pub ok-injective {ℓ} : {A : Type ℓ} {a b : A} → ok a ≡ ok b → a ≡ b
ok-injective h = cc

pub Checked-cases : (m : Checked) → (m ≡ nil_error) ⊎ ((e : Error) × (m ≡ err e))
Checked-cases (ok tt) = inl refl
Checked-cases (err e) = inr (e, refl)

pub Result-cases {ℓ} :
    {A : Type ℓ} (m : Result A) → ((a : A) × (m ≡ ok a)) ⊎ ((e : Error) × (m ≡ err e))
Result-cases (ok a) = inl (a, refl)
Result-cases (err e) = inr (e, refl)
