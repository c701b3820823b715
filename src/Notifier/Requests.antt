-- ===== src/Notifier/Requests.antt =====
-- What each request's handler is made of.
use guicpp.Base.{ℕ, suc, ◌≡◌, refl, List, [], ◌∷◌, Bool, true, false, Has, inl, inr}
use guicpp.Values.{Pointer, Value, object, null}
use guicpp.Outcome.{ok}
use guicpp.Scope.State.{Store, Event, constructed}
use guicpp.Injector.{Injector}
use guicpp.Injector.Ended.{Logs}
use guicpp.Notifier.Wiring.{get_server, get_handlers, real_sms_sender, simple_http_server}
use guicpp.Notifier.Wired.{
  compiler, server_table, before_sender, with_sender, made, server_events, handler_event, sms_event,
  email_event, logger_event, later_events, first_events, sender_at, make, first_handler,
  later_handler, get_server-eq-ok, server_event, dispatcher_event,
}

module _ (contacts sender : Pointer) where
  -- The log has the handler at `v`, made for the request: a SmsNotifier with the contact list and the
  -- sender for high priority, an EmailNotifier with the contact list and the one EmailSender for low,
  -- and a Logger for the same request.
  abbrev pub IsHandler : Pointer → Value → List Event → Type 0
  IsHandler request v es =
      (n : ℕ) × (high : ℕ) × (low : ℕ) × (log : ℕ) × (v ≡ made n)
      × Has (handler_event contacts request n high low log) es
      × Has (sms_event contacts high sender) es
      × Has (email_event contacts low) es
      × Has (logger_event contacts request log) es

  -- A handler for each request.
  abbrev pub AreHandlers : List Pointer → List Value → List Event → Type 0
  AreHandlers [] [] es = Unit
  AreHandlers (r ∷ rs) (v ∷ vs) es = IsHandler r v es × AreHandlers rs vs es
  AreHandlers _ _ es = ⊥

  IsHandler-Logs :
      (r : Pointer) (v : Value) (es fs : List Event)
      → Logs es fs
      → IsHandler r v es
      → IsHandler r v fs
  IsHandler-Logs r v es fs more (n, high, low, log, e, a, b, c, d) =
      (n, high, low, log, e, more _ a, more _ b, more _ c, more _ d)

  later-IsHandler :
      (b : Bool) (n : ℕ) (r : Pointer) (es : List Event)
      → IsHandler r (made (suc (suc (suc n)))) (later_events contacts b n sender r es)
  later-IsHandler true n r es = (
    _,
    _,
    _,
    _,
    refl,
    inl refl,
    inr (inr (inr (inr (inl refl)))),
    inr (inr (inl refl)),
    inr (inl refl),
  )
  later-IsHandler false n r es = (
    _,
    _,
    _,
    _,
    refl,
    inl refl,
    inr (inl refl),
    inr (inr (inl refl)),
    inr (inr (inr (inr (inl refl)))),
  )

  later-Logs :
      (b : Bool) (n : ℕ) (r : Pointer) (es : List Event)
      → Logs es (later_events contacts b n sender r es)
  later-Logs true n r es e h = inr (inr (inr (inr (inr h))))
  later-Logs false n r es e h = inr (inr (inr (inr (inr h))))

  module _ (b : Bool) (port : ℕ) where
    get_handlers-next :
        (r : Pointer) (rs : List Pointer) (s t u : Store) (v : Value) (vs : List Value)
        → make contacts port b r s ≡ ok (v, t)
        → get_handlers (compiler b) (server_table port contacts) rs t ≡ ok (vs, u)
        → get_handlers (compiler b) (server_table port contacts) (r ∷ rs) s ≡ ok (v ∷ vs, u)
    unfolding get_handlers
    get_handlers-next r rs s t u v vs h k = rw (h) (rw (k) refl)

    -- With the sender there, all requests are served.
    later_handlers :
        (rs : List Pointer) (n : ℕ) (es : List Event)
        → (vs : List Value) × (t : Store) × (get_handlers
              (compiler b)
              (server_table port contacts)
              rs
              (with_sender n sender es)
            ≡ ok (vs, t))
          × AreHandlers rs vs t.events
          × Logs es t.events
    unfolding get_handlers
    later_handlers [] n es = ([], with_sender n sender es, refl, tt, λ e h. h)
    later_handlers (r ∷ rs) n es =
        let fs = later_events contacts b n sender r es in
        let (vs, t, runs, all, logs) = later_handlers rs (suc (suc (suc (suc n)))) fs in
        (
          made (suc (suc (suc n))) ∷ vs,
          t,
          get_handlers-next r rs (with_sender n sender es)
              (with_sender (suc (suc (suc (suc n)))) sender fs) t (made (suc (suc (suc n)))) vs
              (later_handler contacts port b n sender es r) runs,
          (IsHandler-Logs r _ fs t.events logs (later-IsHandler b n r es), all),
          λ e h. logs e (later-Logs b n r es e h),
        )

first-IsHandler :
    (contacts : Pointer) (b : Bool) (n : ℕ) (r : Pointer) (es : List Event)
    → IsHandler contacts
        (sender_at contacts b n)
        r
        (made (suc (suc (suc (suc n)))))
        (first_events contacts b n r es)
first-IsHandler contacts true n r es =
    later-IsHandler contacts (object n) true (suc n) r (constructed n real_sms_sender [] ∷ es)
first-IsHandler contacts false n r es = (
  _,
  _,
  _,
  _,
  refl,
  inl refl,
  inr (inl refl),
  inr (inr (inr (inl refl))),
  inr (inr (inr (inr (inr (inl refl))))),
)

-- The log has the server at `v`, made with a SimpleHttpServer, with a dispatcher that has a factory of
-- request handlers, and with the port.
abbrev pub IsServer : ℕ → Value → List Event → Type 0
IsServer port v es =
    (h : ℕ) × (d : ℕ) × (v ≡ made 2)
    × Has (server_event port h d) es
    × Has (dispatcher_event d) es
    × Has (constructed h simple_http_server []) es

server_events-IsServer : (b : Bool) (port : ℕ) → IsServer port (made 2) (server_events b port)
server_events-IsServer true port = (0, 1, refl, inl refl, inr (inl refl), inr (inr (inl refl)))
server_events-IsServer false port = (1, 0, refl, inl refl, inr (inr (inl refl)), inr (inl refl))

-- The sender is a RealSmsSender that was made, if there was a request.
abbrev pub IsSender : List Pointer → Pointer → List Event → Type 0
IsSender [] p es = Unit
IsSender (r ∷ rs) p es = (m : ℕ) × (p ≡ object m) × Has (constructed m real_sms_sender []) es

first-IsSender :
    (contacts : Pointer) (b : Bool) (r : Pointer) (es : List Event)
    → IsSender (r ∷ []) (sender_at contacts b 3) (first_events contacts b 3 r es)
first-IsSender contacts true r es = (3, refl, inr (inr (inr (inr (inr (inl refl))))))
first-IsSender contacts false r es = (5, refl, inr (inr (inl refl)))

-- The handlers of the requests that a server receives, the first of which makes the sender.
all_handlers :
    (b : Bool) (port : ℕ) (contacts : Pointer) (rs : List Pointer)
    → (vs : List Value) × (t : Store) × (get_handlers
          (compiler b)
          (server_table port contacts)
          rs
          (before_sender 3 (server_events b port))
        ≡ ok (vs, t))
      × (sender : Pointer) × IsSender rs sender t.events
      × AreHandlers contacts sender rs vs t.events
unfolding get_handlers
all_handlers b port contacts [] = ([], before_sender 3 (server_events b port), refl, null, tt, tt)
all_handlers b port contacts (r ∷ rs) =
    let p = sender_at contacts b 3 in
    let fs = first_events contacts b 3 r (server_events b port) in
    let (vs, t, runs, all, logs) = later_handlers contacts p b port rs 8 fs in
    (
      made 7 ∷ vs,
      t,
      get_handlers-next contacts p b port r rs (before_sender 3 (server_events b port))
          (with_sender 8 p fs) t (made 7) vs
          (first_handler contacts port b 3 (server_events b port) r) runs,
      p,
      sent b fs t.events logs (first-IsSender contacts b r (server_events b port)),
      (
        IsHandler-Logs contacts p r (made 7) fs t.events logs
            (first-IsHandler contacts b 3 r (server_events b port)),
        all,
      ),
    )
  where
    sent :
        (b : Bool) (es fs : List Event)
        → Logs es fs
        → (m : ℕ) × (sender_at contacts b 3 ≡ object m) × Has (constructed m real_sms_sender []) es
        → (m : ℕ) × (sender_at contacts b 3 ≡ object m) × Has (constructed m real_sms_sender []) fs
    sent b es fs more (m, e, h) = (m, e, more _ h)

-- For a compiler with RTTI that passes on the value where InvokeGet has no return statement, for
-- either order of the evaluation of arguments, and for every port, contact list and list of
-- requests: CreateInjector with NotifyServerModule and Get<NotifyServer*> return, and the server
-- was made with a SimpleHttpServer, a dispatcher with a factory of request handlers, and the port.
-- Then the factory's Get returns for each request a handler that was made with that request, a
-- SmsNotifier for high priority, an EmailNotifier for low priority and a Logger of that request;
-- all notifiers have the contact list, all SmsNotifiers one RealSmsSender, and all EmailNotifiers
-- the one EmailSender.
pub get_handlers_lem :
    (b : Bool) (port : ℕ) (contacts : Pointer) (rs : List Pointer)
    → (i : Injector) × (v : Value) × (get_server (compiler b) port contacts ≡ ok (i, v))
      × IsServer port v i.store.events
      × (vs : List Value) × (t : Store) × (get_handlers (compiler b) i.table rs i.store
          ≡ ok (vs, t))
      × (sender : Pointer) × IsSender rs sender t.events
      × AreHandlers contacts sender rs vs t.events
get_handlers_lem b port contacts rs =
    let (vs, t, runs, sender, is_made, all) = all_handlers b port contacts rs in
    (
      record { table = server_table port contacts; store = before_sender 3 (server_events b port) },
      made 2,
      get_server-eq-ok b port contacts,
      server_events-IsServer b port,
      vs,
      t,
      runs,
      sender,
      is_made,
      all,
    )
