-- ===== src/Session/Heard.antt =====
-- Which messages the read loop of server.go hands on, and in which order.
use signalg.Base.{
  ◌≡◌, refl, sym, ap, subst, ◌∙◌, ◌⊎◌, inl, inr, if◌then◌else◌, Bool-cases, Option-cases, List, [],
  ◌∷◌, ◌++◌, Option, none, some,
}
use signalg.Errors.{
  Error, Result, ok, err, Checked, Result-cases, nil_error, handler_shutting_down,
  invalid_message_type,
}
use signalg.Protocol.Types.{ProtocolConfig, Message}
use signalg.Protocol.Decode.{config_decode_frame}
use signalg.Registry.Types.{Conn}
use signalg.Dispatcher.Routes.{HubDispatcher}
use signalg.Dispatcher.Cache.{Cache, dispatcher_for, dispatcher_for-ok}
use signalg.Session.World.{Packages, World, Hub, Incoming, Run}
use signalg.Session.Reading.{
  handle_message, read_message, read_messages, read_dispatched, read_for, read_loop, close_run,
}
use signalg.Session.Added.{Added, Added-same, Added-one, Added-trans}
use signalg.Session.Handed.{for_hub, Handed, handle_message-Handed}

-- The same error, of a result of another type.
errors :
    {A B : Type 0} {e f : Error} → Path (Result A) (err e) (err f) → Path (Result B) (err e) (err f)
errors {A} {B} {e} {f} h = let same : e ≡ f = cc h in ap (λ x. err x) same

module _ (lib : Packages) (protocol : Option ProtocolConfig) (peer : Conn) (hub : Hub lib)
    (d : Option (HubDispatcher lib.reflection)) where
  -- What a websocket message is read to: a message, or the error for one that is no binary message,
  -- that cannot be read to its end, or whose frame does not decode.
  abbrev pub decoded : Incoming lib → Result Message
  decoded i =
      if i.binary
      then elim i.body [ err e ↦ err e | ok frame ↦ config_decode_frame protocol frame ]
      else err invalid_message_type

  -- What handling a message comes to, behind what the rest of the program has done until it came.
  abbrev pub handled : Incoming lib → Message → Run lib → Run lib × Checked
  handled i msg run =
      handle_message lib peer hub d i msg (record run { world = i.others run.world })

  -- What the loop hands on of the messages that arrive from a state on, and the error that ends it.
  -- It goes on exactly where a message decodes and handling it returns nil. Handling one that fails
  -- has handed it on unless the connection admits no operation any more.
  pub data Hears (last : Error)
      : List (Incoming lib) → Run lib → List Message → Error → Type 0 where
    at_end : {run : Run lib} → Hears last [] run [] last
    goes_on :
        {i : Incoming lib} {is : List (Incoming lib)} {run : Run lib} {ms : List Message}
        {e : Error} (msg : Message)
        → decoded i ≡ ok msg
        → (handled i msg run).1 ≡ nil_error
        → Hears last is (handled i msg run).0 ms e
        → Hears last (i ∷ is) run (for_hub msg ++ ms) e
    undecoded :
        {i : Incoming lib} {is : List (Incoming lib)} {run : Run lib} {e : Error}
        → decoded i ≡ err e
        → Hears last (i ∷ is) run [] e
    fails :
        {i : Incoming lib} {is : List (Incoming lib)} {run : Run lib} {e : Error} (msg : Message)
        → decoded i ≡ ok msg
        → (handled i msg run).1 ≡ err e
        → Hears last (i ∷ is) run (for_hub msg) e
    not_begun :
        {i : Incoming lib} {is : List (Incoming lib)} {run : Run lib} (msg : Message)
        → decoded i ≡ ok msg
        → (handled i msg run).1 ≡ err handler_shutting_down
        → Hears last (i ∷ is) run [] handler_shutting_down

  -- A websocket message that does not decode ends the loop, and the hub hears nothing of it.
  read_message-undecoded :
      (i : Incoming lib) (run : Run lib) (e : Error)
      → decoded i ≡ err e
      → ((read_message lib protocol peer hub d i run).1 ≡ err e)
        × Added run.actions (read_message lib protocol peer hub d i run).0.actions []
  unfolding read_message close_run
  read_message-undecoded i run e h = elim (Bool-cases i.binary) [
    | inr b ↦
        let same : err invalid_message_type ≡ err e = rw b at h in
        rw (b, read_message) (errors same, Added-one run.actions _ refl)
    | inl b ↦ elim (Result-cases i.body) [
      | inr (x, f) ↦
          let same : err x ≡ err e = rw (b, f) at h in
          rw (b, f, read_message) (errors same, Added-same run.actions)
      | inl (frame, f) ↦
          let g : config_decode_frame protocol frame ≡ err e = rw (b, f) at h in
          rw (b, f, g, read_message) (refl, Added-one run.actions _ refl)
    ]
  ]

  read_message-decoded :
      (i : Incoming lib) (run : Run lib) (msg : Message)
      → decoded i ≡ ok msg
      → read_message lib protocol peer hub d i run ≡ handled i msg run
  unfolding read_message close_run
  read_message-decoded i run msg h = elim (Bool-cases i.binary) [
    | inr b ↦ let bad : err invalid_message_type ≡ ok msg = rw b at h in cc bad
    | inl b ↦ elim (Result-cases i.body) [
      | inr (x, f) ↦ let bad : err x ≡ ok msg = rw (b, f) at h in cc bad
      | inl (frame, f) ↦
          let g : config_decode_frame protocol frame ≡ ok msg = rw (b, f) at h in
          rw (b, f, g, read_message) refl
    ]
  ]

  -- What the loop comes to from a state on.
  abbrev Outcome : List (Incoming lib) → Error → Run lib → Run lib × Error → Type 0
  Outcome is last run (after, e) =
      (ms : List Message) × Added run.actions after.actions ms × Hears last is run ms e

  -- How the loop goes on behind a message.
  abbrev continued : List (Incoming lib) → Error → Run lib × Checked → Run lib × Error
  continued is last p = elim p.1 [
    | err e ↦ (p.0, e)
    | ok u ↦ read_messages lib protocol peer hub d is last p.0
  ]

  continued-Hears :
      (i : Incoming lib) (is : List (Incoming lib)) (last : Error) (run : Run lib) (msg : Message)
      → decoded i ≡ ok msg
      → ((after : Run lib)
          → Outcome is last after (read_messages lib protocol peer hub d is last after))
      → (p : Run lib × Checked) → handled i msg run ≡ p
      → Handed lib peer hub d run.actions (for_hub msg) p
      → Outcome (i ∷ is) last run (continued is last p)
  continued-Hears i is last run msg m rest (after, err e) h (inl (a, x)) =
      let same : e ≡ handler_shutting_down = cc x in
      (
        [],
        a,
        subst (Hears last (i ∷ is) run []) (sym same)
            (not_begun msg m (ap (λ (p : Run lib × Checked). p.1) h ∙ x)),
      )
  continued-Hears i is last run msg m rest (after, err e) h (inr a) =
      (for_hub msg, a, fails msg m (ap (λ (p : Run lib × Checked). p.1) h))
  continued-Hears i is last run msg m rest (after, ok tt) h (inl (a, x)) = cc x
  continued-Hears i is last run msg m rest (after, ok tt) h (inr a) =
      let (ms, b, hears) = rest after in
      (
        for_hub msg ++ ms,
        Added-trans a b,
        goes_on msg m (ap (λ (p : Run lib × Checked). p.1) h) (
            subst (λ r. Hears last is r ms (read_messages lib protocol peer hub d is last after).1)
              (sym (ap (λ (p : Run lib × Checked). p.0) h)) hears),
      )

  read_messages-continued :
      (i : Incoming lib) (is : List (Incoming lib)) (last : Error) (run : Run lib)
      (p : Run lib × Checked)
      → read_message lib protocol peer hub d i run ≡ p
      → read_messages lib protocol peer hub d (i ∷ is) last run ≡ continued is last p
  unfolding read_messages
  read_messages-continued i is last run p h = ap (continued is last) h

  read_messages-Hears :
      (is : List (Incoming lib)) (last : Error) (run : Run lib)
      → Outcome is last run (read_messages lib protocol peer hub d is last run)
  unfolding read_messages
  read_messages-Hears [] last run = ([], Added-same run.actions, at_end)
  read_messages-Hears (i ∷ is) last run = elim (Result-cases (decoded i)) [
    | inr (e, m) ↦
        let (r, a) = read_message-undecoded i run e m in rw (r, read_messages) ([], a, undecoded m)
    | inl (msg, m) ↦
        subst (Outcome (i ∷ is) last run)
          (sym (read_messages-continued i is last run _ (read_message-decoded i run msg m)))
          (continued-Hears i is last run msg m (read_messages-Hears is last) (handled i msg run)
            refl
            (handle_message-Handed lib peer hub d i msg
              (record run { world = i.others run.world })))
  ]

module _ (lib : Packages) (protocol : Option ProtocolConfig) (peer : Conn) (hub : Hub lib) where
  -- What the loop works with: no dispatcher if the hub receives messages, or the one that
  -- `dispatcherFor` finds or builds.
  abbrev pub StartsWith : Run lib → Option (HubDispatcher lib.reflection) → Run lib → Type 0
  StartsWith run d start =
      ((f : Message → World lib → World lib × Checked) × (hub.on_message ≡ some f)
        × (d ≡ none)
        × (start ≡ run))
      ⊎ ((x : HubDispatcher lib.reflection) × (cache : Cache lib.reflection) × (hub.on_message
            ≡ none)
          × (dispatcher_for lib.reflection (some hub.hub_type) run.world.cache run.world.cache
              ≡ (cache, ok x))
          × (d ≡ some x)
          × (start ≡ record run { world = record run.world { cache = cache } }))

  StartsWith-actions :
      (run : Run lib) (d : Option (HubDispatcher lib.reflection)) (start : Run lib)
      → StartsWith run d start
      → start.actions ≡ run.actions
  StartsWith-actions run d start (inl (f, m, n, e)) = ap (λ (r : Run lib). r.actions) e
  StartsWith-actions run d start (inr (x, cache, m, n, k, e)) = ap (λ (r : Run lib). r.actions) e

  loops :
      (is : List (Incoming lib)) (last : Error) (run : Run lib)
      → (d : Option (HubDispatcher lib.reflection)) × (start : Run lib) × StartsWith run d start
        × (read_loop lib protocol peer hub is last run
            ≡ read_messages lib protocol peer hub d is last start)
  unfolding read_loop read_for read_dispatched
  loops is last run = elim (Option-cases hub.on_message) [
    | inr (f, m) ↦
        (none, run, inl (f, m, refl, refl), ap (read_for lib protocol peer hub is last run) m)
    | inl m ↦
        let (d, cache, e) =
          dispatcher_for-ok lib.reflection hub.hub_type run.world.cache run.world.cache in
        let dispatched : read_loop lib protocol peer hub is last run
            ≡ read_dispatched lib protocol peer hub is last run (
                dispatcher_for lib.reflection (some hub.hub_type) run.world.cache run.world.cache) =
          ap (read_for lib protocol peer hub is last run) m in
        (
          some d,
          record run { world = record run.world { cache = cache } },
          inr (d, cache, m, e, refl, refl),
          dispatched ∙ ap (read_dispatched lib protocol peer hub is last run) e,
        )
  ]

  -- Whatever messages arrive, and whatever the hub does: `readLoop` reads them in the order in
  -- which they arrive, and goes on exactly as long as each is a binary message that decodes and
  -- handling it returns nil. Each of these that is no ping and no pong is handed on to the hub
  -- once. It returns the error of `Reader` at the end, of the first message that does not decode,
  -- which is not handed on, or of the first whose handling fails, which is handed on unless that
  -- fails with `ErrHandlerShuttingDown`; and it makes no calls but those that handle messages.
  pub read_loop-Hears :
      (is : List (Incoming lib)) (last : Error) (run : Run lib)
      → (ms : List Message) × (d : Option (HubDispatcher lib.reflection)) × (start : Run lib)
        × StartsWith run d start
        × Added run.actions (read_loop lib protocol peer hub is last run).0.actions ms
        × Hears lib protocol peer hub d last is start ms
            (read_loop lib protocol peer hub is last run).1
  read_loop-Hears is last run =
      let (d, start, with, e) = loops is last run in
      let same = StartsWith-actions run d start with in
      let (ms, a, h) = read_messages-Hears lib protocol peer hub d is last start in
      (
        ms,
        d,
        start,
        with,
        subst (λ x. Added x (read_loop lib protocol peer hub is last run).0.actions ms) same
            (subst (λ (x : Run lib × Error). Added start.actions x.0.actions ms) (sym e) a),
        subst (λ (x : Run lib × Error). Hears lib protocol peer hub d last is start ms x.1) (sym e)
            h,
      )
