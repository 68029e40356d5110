-- ===== src/Session/Added.antt =====
-- The calls that handling messages adds to those of a session.
use signalg.Base.{◌≡◌, refl, sym, ap, ◌∙◌, Bool, true, false, List, [], ◌∷◌, ◌++◌, All}
use mathlib.Core.List.{append_assoc, append-nil}
use signalg.Protocol.Types.{Message}
use signalg.Session.World.{
  Action, connected, disconnected, responds, closes_now, closes_with, pinged, received, dispatches,
}

-- A call that handling messages makes.
abbrev pub is_traffic : Action → Bool
is_traffic (closes_with code) = true
is_traffic (received msg) = true
is_traffic (dispatches msg) = true
is_traffic pinged = true
is_traffic _ = false

-- The messages that are handed to `OnMessage` or to the dispatcher.
abbrev pub heard : List Action → List Message
heard [] = []
heard (received msg ∷ xs) = msg ∷ heard xs
heard (dispatches msg ∷ xs) = msg ∷ heard xs
heard (_ ∷ xs) = heard xs

heard-append : (xs ys : List Action) → heard (xs ++ ys) ≡ heard xs ++ heard ys
heard-append [] ys = refl
heard-append (received msg ∷ xs) ys = ap (◌∷◌ msg) (heard-append xs ys)
heard-append (dispatches msg ∷ xs) ys = ap (◌∷◌ msg) (heard-append xs ys)
heard-append (responds n ∷ xs) ys = heard-append xs ys
heard-append (closes_now ∷ xs) ys = heard-append xs ys
heard-append (closes_with n ∷ xs) ys = heard-append xs ys
heard-append (connected ∷ xs) ys = heard-append xs ys
heard-append (pinged ∷ xs) ys = heard-append xs ys
heard-append (disconnected e ∷ xs) ys = heard-append xs ys

traffic-append :
    (xs ys : List Action)
    → All (λ a. is_traffic a ≡ true) xs
    → All (λ a. is_traffic a ≡ true) ys
    → All (λ a. is_traffic a ≡ true) (xs ++ ys)
traffic-append [] ys h k = k
traffic-append (a ∷ xs) ys h k = (h.0, traffic-append xs ys h.1 k)

-- Calls were added that only handle messages, and they hand some messages on.
pub record Added (before after : List Action) (msgs : List Message) : Type 0 where
  pub calls : List Action
  pub made : after ≡ before ++ calls
  pub traffic : All (λ a. is_traffic a ≡ true) calls
  pub messages : heard calls ≡ msgs

pub Added-same : (before : List Action) → Added before before []
Added-same before = record {
  calls = [];
  made = sym (append-nil before);
  traffic = tt;
  messages = refl;
}

pub Added-one :
    (before : List Action) (a : Action)
    → is_traffic a ≡ true
    → Added before (before ++ (a ∷ [])) (heard (a ∷ []))
Added-one before a t = record { calls = a ∷ []; made = refl; traffic = (t, tt); messages = refl }

pub Added-trans :
    {a b c : List Action} {ms ns : List Message}
    → Added a b ms
    → Added b c ns
    → Added a c (ms ++ ns)
Added-trans {a} {b} {c} {ms} {ns} x y = record {
  calls = x.calls ++ y.calls;
  made = y.made ∙ ap (λ l. l ++ y.calls) x.made ∙ append_assoc a x.calls y.calls;
  traffic = traffic-append x.calls y.calls x.traffic y.traffic;
  messages = rw (heard-append x.calls y.calls, x.messages, y.messages) refl;
}
