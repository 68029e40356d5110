-- ===== src/Dispatcher/Dispatch.antt =====
-- `dispatch` and `isNilValue` of dispatcher.go.
use signalg.Base.{ℕ, Bool, true, false, not, Option, none, some, if◌then◌else◌}
use signalg.Base.Assoc.{lookup}
use signalg.Errors.{Error, Result, ok, err, method_not_found, panicked}
use signalg.Protocol.Types.{Message}
use signalg.Protocol.Codec.{Encoders, message_decode}
use signalg.Dispatcher.Reflect.{Reflection, ReflectKind, ReflectValue, other}
use signalg.Dispatcher.Routes.{HubRoute, HubDispatcher}

-- Whether `reflect.Value.IsNil` takes values of a kind. Of the kinds that `isNilValue` does not name
-- it takes only `unsafe.Pointer`, whose types have no methods.
abbrev pub has_nil : ReflectKind → Bool
has_nil other = false
has_nil _ = true

unfoldable pub is_nil_value : {Value : Type 0} → ReflectValue Value → Bool
is_nil_value v = elim v.kind [ other ↦ false | _ ↦ v.is_nil ]

-- What a method has done and returned: its results, the second of a type that implements `error`.
abbrev pub Results : Type 0 → Type 0 → Type 0
Results World Value = World × ReflectValue Value × ReflectValue Error

-- `IsNil` of the second result panics where its type has no nil.
unfoldable pub returned :
    {World Value : Type 0} → Results World Value → World × Result (Option Value)
unfolding is_nil_value
returned (w, value, error) =
    if not (has_nil error.kind)
    then (w, err panicked)
    else if not error.is_nil
    then (w, err error.value)
    else (w, ok (if is_nil_value value then none else some value.value))

-- `call` is what the functions of the hub's methods do; `none` is a nil dispatcher, and a nil
-- result. `World` is all the state that a hub's method can change.
module _ {World : Type 0} (enc : Encoders) (lib : Reflection enc.Value)
    (call : ℕ → enc.Value → World → Results World enc.Value) where
  -- Behind the look-up of the route.
  unfoldable pub dispatch_route :
      Message → Option (HubRoute lib) → World → World × Result (Option enc.Value)
  unfolding returned
  dispatch_route msg none w = (w, err method_not_found)
  dispatch_route msg (some route) w = elim (message_decode enc msg (lib.new_value route.req_type)) [
    | err e ↦ (w, err e)
    | ok req ↦ returned (call route.method req w)
  ]

  unfoldable pub dispatch :
      Option (HubDispatcher lib) → Message → World → World × Result (Option enc.Value)
  unfolding dispatch_route
  dispatch none msg w = (w, err method_not_found)
  dispatch (some d) msg w = dispatch_route msg (lookup msg.method d.routes) w
