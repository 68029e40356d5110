-- ===== src/Hertz.antt =====
-- hertz/handler.go: a handler for the Hertz framework, made of one for net/http.
use signalg.Base.{◌≡◌, refl, ap, Bool, Bytes, Option, none, some}
use signalg.Errors.{Error, Result, ok, err, ◌>>=◌, Checked, nil_error}
use signalg.Handler.Create.{Options, Created, create_handler}
use signalg.Handler.Drained.{shutdown_once}

-- `ManagedHandler`; the Hertz function may be nil, and so may the handler.
pub record ManagedHandler (HandlerFunc : Type 0) : Type 0 where
  pub handler : Option Created
  pub handler_func : Option HandlerFunc

-- What a call that may panic comes to.
pub data Panic : Type 0 where
  raised : Error → Panic
  nil_dereference : Panic

pub data Outcome (A : Type 0) : Type 0 where
  returns : A → Outcome A
  panics : Panic → Outcome A

-- `panic(err)` where there is an error.
abbrev must : {A : Type 0} → Result A → Outcome A
must (ok a) = returns a
must (err e) = panics (raised e)

module _ {HandlerFunc : Type 0} where
  -- `HandlerFunc`.
  unfoldable handler_func_of : Option (ManagedHandler HandlerFunc) → Option HandlerFunc
  handler_func_of none = none
  handler_func_of (some h) = h.handler_func

  -- `SignalGHandler`.
  unfoldable signal_g_handler : Option (ManagedHandler HandlerFunc) → Option Created
  signal_g_handler none = none
  signal_g_handler (some h) = h.handler

  -- `Handle`, with the call of the Hertz function.
  unfoldable handle :
      {A : Type 0} → (HandlerFunc → A) → Option (ManagedHandler HandlerFunc) → Outcome A
  handle call none = panics nil_dereference
  handle call (some h) = elim h.handler_func [
    | some f ↦ returns (call f)
    | none ↦ panics nil_dereference
  ]

  -- `Shutdown`, with what `shutdown` of the handler returns if it runs, on the error that an
  -- earlier call of the handler's `Shutdown` has stored.
  unfoldable managed_shutdown :
      Checked → Option (ManagedHandler HandlerFunc) → Option Checked → Option Checked × Checked
  unfolding shutdown_once
  managed_shutdown run none stored = (stored, nil_error)
  managed_shutdown run (some h) stored = elim h.handler [
    | none ↦ (stored, nil_error)
    | some c ↦ shutdown_once run stored
  ]

-- `adapt` is `adaptor.HertzHandler`.
module _ {HandlerFunc : Type 0} (adapt : Created → HandlerFunc) (clean : Bytes → Bytes) where
  -- `newManagedHandler`.
  abbrev new_managed_handler : Created → ManagedHandler HandlerFunc
  new_managed_handler c = record { handler = some c; handler_func = some (adapt c) }

  -- `NewHandler`.
  unfoldable new_hertz_handler : Bool → Options → Result (ManagedHandler HandlerFunc)
  unfolding create_handler
  new_hertz_handler has_factory o = do
    handler ← create_handler clean has_factory o
    ok (new_managed_handler handler)

  -- `MustNewHandler`.
  unfoldable must_new_handler : Bool → Options → Outcome (ManagedHandler HandlerFunc)
  unfolding new_hertz_handler
  must_new_handler has_factory o = must (new_hertz_handler has_factory o)

  -- `Handler`.
  unfoldable hertz_handler : Bool → Options → Result (Option HandlerFunc)
  unfolding new_hertz_handler handler_func_of
  hertz_handler has_factory o = do
    handler ← new_hertz_handler has_factory o
    ok (handler_func_of (some handler))

  -- `MustHandler`.
  unfoldable must_handler : Bool → Options → Outcome (Option HandlerFunc)
  unfolding hertz_handler
  must_handler has_factory o = must (hertz_handler has_factory o)

  -- What the four constructors come to where `NewHandler` of the package returns `made`: they all
  -- fail with its error, or they all succeed, with the same adapted handler, whose shutdown is that
  -- of the handler underneath.
  abbrev IsMade : {A : Type 0} → (HandlerFunc → A) → Bool → Options → Result Created → Type 0
  IsMade call has_factory o (err e) =
      (new_hertz_handler has_factory o ≡ err e)
      × (must_new_handler has_factory o ≡ panics (raised e))
      × (hertz_handler has_factory o ≡ err e)
      × (must_handler has_factory o ≡ panics (raised e))
  IsMade call has_factory o (ok made) =
      (h : ManagedHandler HandlerFunc) × (new_hertz_handler has_factory o ≡ ok h)
      × (must_new_handler has_factory o ≡ returns h)
      × (hertz_handler has_factory o ≡ ok (handler_func_of (some h)))
      × (must_handler has_factory o ≡ returns (handler_func_of (some h)))
      × (signal_g_handler (some h) ≡ some made)
      × (handle call (some h) ≡ returns (call (adapt made)))
      × ((run : Checked) (stored : Option Checked)
          → managed_shutdown run (some h) stored ≡ shutdown_once run stored)

  create_handler-IsMade :
      {A : Type 0} (call : HandlerFunc → A) (has_factory : Bool) (o : Options)
      (made : Result Created)
      → create_handler clean has_factory o ≡ made
      → IsMade call has_factory o made
  unfolding new_hertz_handler must_new_handler hertz_handler must_handler handle managed_shutdown
      signal_g_handler handler_func_of
  create_handler-IsMade call has_factory o (err e) m =
      let make = λ (r : Result Created). (r >>= λ c. ok (new_managed_handler c)) in
      let take = λ (r : Result Created). (make r >>= λ h. ok (handler_func_of (some h))) in
      (ap make m, ap (λ r. must (make r)) m, ap take m, ap (λ r. must (take r)) m)
  create_handler-IsMade call has_factory o (ok c) m =
      let make = λ (r : Result Created). (r >>= λ c. ok (new_managed_handler c)) in
      let take = λ (r : Result Created). (make r >>= λ h. ok (handler_func_of (some h))) in
      (
        new_managed_handler c,
        ap make m,
        ap (λ r. must (make r)) m,
        ap take m,
        ap (λ r. must (take r)) m,
        refl,
        refl,
        λ run stored. refl,
      )

  -- The four constructors agree with the package's `NewHandler`, and with one another.
  constructors-IsMade :
      {A : Type 0} (call : HandlerFunc → A) (has_factory : Bool) (o : Options)
      → IsMade call has_factory o (create_handler clean has_factory o)
  constructors-IsMade call has_factory o =
      create_handler-IsMade call has_factory o (create_handler clean has_factory o) refl
