-- ===== src/Notifier.antt =====
-- examples/notifier/notifier_frontend (NotifyRequestHandler, NotifyRequestDispatcher, Logger) and
-- examples/notifier/messengers (SmsNotifier, EmailNotifier). The senders print what they are given;
-- the model keeps it in a list, and so with what Logger prints.
pub mod Wiring
pub mod Wired
pub mod Requests
pub mod Handles
pub mod Serves
use guicpp.Base.{List, [], ◌∷◌, ◌++◌, Bool, true, false, Option, none, some, if◌then◌else◌, same}
use guicpp.CString.{Bytes, codes}
use guicpp.CString.StringMap.{StringMap, text_discrete}
use guicpp.ContactList.{ContactInfo, get_contact}
use guicpp.HttpServer.{HttpRequest, get_cgi_arg, append_output, to_string}

-- A call of SmsSender::SendSMS or EmailSender::SendEmail: the address and the message.
pub data Sent : Type 0 where
  sms email : Bytes → Bytes → Sent

-- Notifier::Notify: whether it succeeds, and what was sent so far.
abbrev pub Notifier : Type 0
Notifier = Bytes → Bytes → List Sent → Bool × List Sent

-- SmsNotifier::Notify
unfoldable pub notify_sms : StringMap ContactInfo → Notifier
notify_sms contacts nickname message sent = elim (get_contact nickname contacts) [
  | none ↦ (false, sent)
  | some c ↦ (true, sent ++ sms c.mobile_number message ∷ [])
]

-- EmailNotifier::Notify
unfoldable pub notify_email : StringMap ContactInfo → Notifier
notify_email contacts nickname message sent = elim (get_contact nickname contacts) [
  | none ↦ (false, sent)
  | some c ↦ (true, sent ++ email c.email_id message ∷ [])
]

-- What NotifyRequestHandler::Handle changes: the request, what is sent and what is printed.
pub record Handling : Type 0 where
  pub request : HttpRequest
  pub sent : List Sent
  pub logged : List Bytes

-- Logger::Log
unfoldable pub log : Bytes → Handling → Handling
log s h = record h {
  logged = h.logged ++ (s ++ (codes " [Request: " ++ (to_string h.request ++ codes "]"))) ∷ [];
}

-- request_->AppendOutput
unfoldable pub append : Bytes → Handling → Handling
append str h = record h { request = append_output str h.request }

-- GetCgiArg: empty where the argument is missing.
unfoldable pub cgi_arg : HttpRequest → Bytes → Bytes
cgi_arg request arg = elim (get_cgi_arg arg request) [ none ↦ [] | some v ↦ v ]

-- The literals of the page.
pub page_head : Bytes
page_head = codes "<html><head><title>Notification Sender</title></head><body>"

pub sent_to : Bytes
sent_to = codes "<span style='color:blue'>Message Sent to "

pub not_found_for : Bytes
not_found_for = codes "<span style='color:red'>Contact information not found for "

pub end_span : Bytes
end_span = codes "</span>"

pub form_head : Bytes
form_head = codes "<br /><form action='/'>"

-- kInputNickName, kInputMessage, kInputPriority and kSubmit
pub input_nick_name : Bytes
input_nick_name = codes "Nick name: <input type='text' name='nickname' /><br />"

pub input_message : Bytes
input_message = codes "Message: <input type='text' name='message' /><br />"

pub input_priority : Bytes
input_priority =
    codes
      "<select name='priority'><option value='low'>Low</option><option value='high'>High</option></select> <br />"

pub submit : Bytes
submit = codes "<input type='submit' value='Submit' /> </form>"

pub page_end : Bytes
page_end = codes "</form></body></html>"

-- The form at the end of the page.
unfoldable pub write_form : Handling → Handling
unfolding append
write_form h = append page_end (
    append submit
      (append input_priority (append input_message (append input_nick_name (append form_head h)))))

-- The page and the log once the notifier has returned.
unfoldable pub report : Bytes → Bool → Handling → Handling
unfolding log append
report nickname true h =
    append (sent_to ++ (nickname ++ end_span)) (log (codes "Notification Sent successfully") h)
report nickname false h =
    append (not_found_for ++ (nickname ++ end_span)) (log (codes "Sending Notification failed") h)

module _ (high low : Notifier) where
  -- The notifier of the priority that the request asks for.
  unfoldable pub notifier_for : HttpRequest → Notifier
  notifier_for r =
      if same text_discrete (cgi_arg r (codes "priority")) (codes "high") then high else low

  -- The call of the notifier for a nickname.
  unfoldable pub notify : Bytes → Handling → Handling
  notify nickname h =
      let logged = log (codes "Sending Notification") h in
      let (status, sent) =
        notifier_for logged.request nickname (cgi_arg logged.request (codes "message"))
          logged.sent in
      report nickname status (record logged { sent = sent })

  -- NotifyRequestHandler::Handle
  unfoldable pub handle_request : Handling → Handling
  handle_request h =
      let started = append page_head (log (codes "NotifyRequestHandler::Handle() start") h) in
      let nickname = cgi_arg started.request (codes "nickname") in
      let notified = if same text_discrete nickname [] then started else notify nickname started in
      log (codes "NotifyRequestHandler::Handle() end") (write_form notified)

-- What the requests before left behind.
pub record Outbox : Type 0 where
  pub sent : List Sent
  pub logged : List Bytes

-- NotifyRequestDispatcher::Dispatch, with the handler that NotifyServerModule's bindings give the
-- factory: SmsNotifier for high priority, EmailNotifier for low, and the one ContactList.
unfoldable pub dispatch : StringMap ContactInfo → HttpRequest → Outbox → HttpRequest × Outbox
dispatch contacts request out =
    let h =
      handle_request (notify_sms contacts) (notify_email contacts)
        (record { request = request; sent = out.sent; logged = out.logged }) in
    (h.request, record { sent = h.sent; logged = h.logged })
