-- ===== src/Dispatcher/Failures.antt =====
-- When `dispatch` of dispatcher.go fails before it has called the hub.
use signalg.Base.{ℕ, ◌≡◌, ◌⊎◌, Option, none, some}
use signalg.Errors.{Error, Result, ok, err, method_not_found}
use signalg.Protocol.Types.{Message}
use signalg.Protocol.Codec.{Encoders, message_decode}
use signalg.Dispatcher.Reflect.{Reflection}
use signalg.Dispatcher.Routes.{HubRoute}
use signalg.Dispatcher.Dispatch.{Results, returned}

module _ {World : Type 0} (enc : Encoders) (lib : Reflection enc.Value)
    (call : ℕ → enc.Value → World → Results World enc.Value) where
  -- What a message comes to, by the route to its method: without one, and where the payload does not
  -- decode to the method's request, nothing is called.
  abbrev pub Dispatched :
      Message → World → Option (HubRoute lib) → World × Result (Option enc.Value) → Type 0
  Dispatched msg w none p = p ≡ (w, err method_not_found)
  Dispatched msg w (some route) p =
      ((req : enc.Value) × (message_decode enc msg (lib.new_value route.req_type) ≡ ok req)
        × (p ≡ returned (call route.method req w)))
      ⊎ ((e : Error) × (message_decode enc msg (lib.new_value route.req_type) ≡ err e)
          × (p ≡ (w, err e)))
