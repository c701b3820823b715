-- ===== src/Notifier/Serves.antt =====
-- The server with the notifier behind it.
use mathlib.Core.List.{append_assoc, append-nil}
use guicpp.Base.{
  ℕ, ◌<◌, ◌≡◌, refl, sym, ap, ◌∙◌, List, [], ◌∷◌, ◌++◌, length, All, Bool, true, false, Option,
  some,
}
use guicpp.Outcome.{ok}
use guicpp.CString.{Bytes}
use guicpp.CString.StringMap.{StringMap}
use guicpp.ContactList.{ContactInfo}
use guicpp.HttpServer.{HttpRequest}
use guicpp.HttpServer.Live.{page, reply, replies, start_server_lem}
use guicpp.HttpServer.Serves.{reading, idle}
use guicpp.HttpServer.Server.{
  buffer_size, Connection, ListenSocket, World, Server, new_server, start_server,
}
use guicpp.Notifier.{Sent, Outbox, dispatch}
use guicpp.Notifier.Handles.{messages, handle_request_lem}

module _ (contacts : StringMap ContactInfo) where
  -- What one connection sends: nothing, if its request cannot be read.
  unfoldable pub read_messages : Bool × HttpRequest → List Sent
  read_messages (true, r) = messages contacts r
  read_messages (false, r) = []

  unfoldable pub bytes_messages : Bytes → List Sent
  bytes_messages [] = []
  bytes_messages (c ∷ cs) = read_messages (reading (c ∷ cs))

  unfoldable pub all_messages : List Connection → List Sent
  all_messages [] = []
  all_messages (c ∷ cs) = bytes_messages c.received ++ all_messages cs

  page-sent :
      (q : Bool × HttpRequest) (out : Outbox)
      → (page (dispatch contacts) q out).1.sent ≡ out.sent ++ read_messages q
  unfolding page dispatch read_messages
  page-sent (true, r) out =
      (handle_request_lem contacts (record { request = r; sent = out.sent; logged = out.logged })).1
  page-sent (false, r) out = sym (append-nil out.sent)

  reply-sent :
      (fd : ℕ) (xs : Bytes) (w : World Outbox)
      → (reply (dispatch contacts) fd xs w).dispatcher.sent ≡ w.dispatcher.sent ++ bytes_messages xs
  unfolding reply bytes_messages
  reply-sent fd [] w = sym (append-nil w.dispatcher.sent)
  reply-sent fd (c ∷ cs) w = page-sent (reading (c ∷ cs)) w.dispatcher

  replies-sent :
      (cs : List Connection) (w : World Outbox)
      → (replies (dispatch contacts) cs w).dispatcher.sent ≡ w.dispatcher.sent ++ all_messages cs
  unfolding replies all_messages
  replies-sent [] w = sym (append-nil w.dispatcher.sent)
  replies-sent (c ∷ cs) w =
      let next = reply (dispatch contacts) c.fd c.received w in
      replies-sent cs next
      ∙ ap (◌++ (all_messages cs)) (reply-sent c.fd c.received w)
      ∙ append_assoc w.dispatcher.sent (bytes_messages c.received) (all_messages cs)

  -- Under the conditions of HttpServer.Live.start_server_lem, with NotifyRequestDispatcher as the
  -- dispatcher, StartServer does not stop, and the messages sent are those that the connections
  -- ask for, each by its own bytes, in the order of the connections.
  pub start_server-messages :
      (write : ℕ → Bytes → Option ℕ) (l : ListenSocket) (cs : List Connection)
      → ((fd : ℕ) (bytes : Bytes) → write fd bytes ≡ some (length bytes))
      → 0 < l.sockfd
      → l.reuses ≡ true
      → l.binds ≡ true
      → All (λ (c : Connection). 0 < c.fd) cs
      → All (λ (c : Connection). length c.received < buffer_size) cs
      → (t : Server Outbox) × (start_server
            (λ r d. ok (dispatch contacts r d))
            write
            l
            cs
            (new_server (record { sent = []; logged = [] }))
          ≡ ok (tt, t))
        × (t.stop ≡ false)
        × (t.world.dispatcher.sent ≡ all_messages cs)
  start_server-messages write l cs takes_all socket reuses binds opened short =
      let start : Outbox = record { sent = []; logged = [] } in
      let w : World Outbox = record { written = []; dispatcher = start } in
      (
        idle (replies (dispatch contacts) cs w),
        start_server_lem (dispatch contacts) write takes_all l cs start socket reuses binds opened
            short,
        refl,
        replies-sent cs w,
      )
