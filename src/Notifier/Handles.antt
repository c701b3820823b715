-- ===== src/Notifier/Handles.antt =====
-- What one request sends, and the page it gets.
use mathlib.Core.List.{append_assoc, append-nil}
use guicpp.Base.{
  ◌≡◌, refl, ap, ◌∙◌, List, [], ◌∷◌, ◌++◌, true, false, Bool-cases, Option, none, some,
  Option-cases, if◌then◌else◌, same, inl, inr, arith,
}
use guicpp.CString.{Bytes, codes}
use guicpp.CString.StringMap.{StringMap, text_discrete}
use guicpp.ContactList.{ContactInfo, get_contact}
use guicpp.HttpServer.{HttpRequest, get_cgi_arg, append_output}
use guicpp.Notifier.{
  Notifier, Sent, sms, email, notify_sms, notify_email, Handling, log, append, cgi_arg, page_head,
  sent_to, not_found_for, end_span, form_head, input_nick_name, input_message, input_priority,
  submit, page_end, report, notifier_for, notify, write_form, handle_request,
}

-- The form.
abbrev pub form_page : Bytes
form_page =
    form_head ++ (input_nick_name ++ (input_message ++ (input_priority ++ (submit ++ page_end))))

-- The contact that a request names.
unfoldable pub recipient : StringMap ContactInfo → HttpRequest → Option ContactInfo
recipient contacts r =
    if same text_discrete (cgi_arg r (codes "nickname")) []
    then none
    else get_contact (cgi_arg r (codes "nickname")) contacts

-- The message to a contact, by the priority that the request asks for.
unfoldable pub message_to : ContactInfo → HttpRequest → Sent
message_to c r =
    if same text_discrete (cgi_arg r (codes "priority")) (codes "high")
    then sms c.mobile_number (cgi_arg r (codes "message"))
    else email c.email_id (cgi_arg r (codes "message"))

-- What a request sends, given the contact it names.
unfoldable pub sent_for : Option ContactInfo → HttpRequest → List Sent
sent_for none r = []
sent_for (some c) r = message_to c r ∷ []

unfoldable pub messages : StringMap ContactInfo → HttpRequest → List Sent
messages contacts r = sent_for (recipient contacts r) r

-- What the page says about the notification, given that contact.
unfoldable pub status_for : Option ContactInfo → Bytes → Bytes
status_for none k = not_found_for ++ (k ++ end_span)
status_for (some c) k = sent_to ++ (k ++ end_span)

unfoldable pub status : StringMap ContactInfo → HttpRequest → Bytes
status contacts r =
    if same text_discrete (cgi_arg r (codes "nickname")) []
    then []
    else status_for (recipient contacts r) (cgi_arg r (codes "nickname"))

-- The page that a request gets.
unfoldable pub page_for : StringMap ContactInfo → HttpRequest → Bytes
page_for contacts r = page_head ++ (status contacts r ++ form_page)

write_form_lem :
    (h : Handling)
    → write_form h
      ≡ record h { request = record h.request { output = h.request.output ++ form_page } }
unfolding write_form append append_output
write_form_lem h = simp (append_assoc) refl

module _ (contacts : StringMap ContactInfo) where
  abbrev high : Notifier
  high = notify_sms contacts

  abbrev low : Notifier
  low = notify_email contacts

  notifier-none :
      (r : HttpRequest) (k m : Bytes) (sent : List Sent)
      → get_contact k contacts ≡ none
      → notifier_for high low r k m sent ≡ (false, sent)
  unfolding notifier_for notify_sms notify_email
  notifier-none r k m sent e = ground (arith, e)

  notifier-some :
      (r : HttpRequest) (k : Bytes) (sent : List Sent) (c : ContactInfo)
      → get_contact k contacts ≡ some c
      → notifier_for high low r k (cgi_arg r (codes "message")) sent
        ≡ (true, sent ++ message_to c r ∷ [])
  unfolding notifier_for notify_sms notify_email message_to
  notifier-some r k sent c e = ground (arith, e)

  notify-none :
      (k : Bytes) (h : Handling)
      → get_contact k contacts ≡ none
      → notify high low k h ≡ report k false (log (codes "Sending Notification") h)
  unfolding notify log
  notify-none k h e =
      rw (notifier-none h.request k (cgi_arg h.request (codes "message")) h.sent e) refl

  notify-some :
      (k : Bytes) (h : Handling) (c : ContactInfo)
      → get_contact k contacts ≡ some c
      → notify high low k h
        ≡ report k true (record (log (codes "Sending Notification") h) {
          sent = h.sent ++ message_to c h.request ∷ [];
        })
  unfolding notify log
  notify-some k h c e = rw (notifier-some h.request k h.sent c e) refl

  cgi_arg-append_output :
      (str : Bytes) (r : HttpRequest) (k : Bytes) → cgi_arg (append_output str r) k ≡ cgi_arg r k
  unfolding cgi_arg get_cgi_arg append_output
  cgi_arg-append_output str r k = refl

  message_to-append_output :
      (c : ContactInfo) (str : Bytes) (r : HttpRequest)
      → message_to c (append_output str r) ≡ message_to c r
  unfolding message_to cgi_arg get_cgi_arg append_output
  message_to-append_output c str r = refl

  -- Handle, once the nickname is known.
  handle_named : Bytes → Handling → Handling
  handle_named k x = if same text_discrete k [] then x else notify high low k x

  handle_request-handle_named :
      (h : Handling)
      → handle_request high low h
        ≡ log (codes "NotifyRequestHandler::Handle() end") (
            write_form (
              handle_named
                (cgi_arg h.request (codes "nickname"))
                (append page_head (log (codes "NotifyRequestHandler::Handle() start") h))))
  unfolding handle_request handle_named append log
  handle_request-handle_named h =
      rw (cgi_arg-append_output page_head h.request (codes "nickname")) refl

  handle_named_lem :
      (s : Bytes) (h : Handling)
      → ((handle_named (cgi_arg h.request (codes "nickname")) (append page_head (log s h))).request
          ≡ record h.request {
            output = h.request.output ++ (page_head ++ status contacts h.request);
          })
        × ((handle_named (cgi_arg h.request (codes "nickname")) (append page_head (log s h))).sent
            ≡ h.sent ++ messages contacts h.request)
  unfolding handle_named status messages recipient report append log append_output sent_for
      status_for
  handle_named_lem s h =
      let k = cgi_arg h.request (codes "nickname") in
      let x = append page_head (log s h) in
      elim (Bool-cases (same text_discrete k [])) [
        | inl n ↦ (rw (n) (simp (append-nil) refl), rw n (simp (append-nil) refl))
        | inr n ↦ elim (Option-cases (get_contact k contacts)) [
          | inl e ↦ (
            rw (n, e, notify-none k x e) (simp (append_assoc) refl),
            rw (n, e, notify-none k x e) (simp (append-nil) refl),
          )
          | inr (c, e) ↦ (
            rw (n, e, notify-some k x c e) (simp (append_assoc) refl),
            rw (n, e, notify-some k x c e, message_to-append_output c page_head h.request) refl,
          )
        ]
      ]

  request-log : (s : Bytes) (y : Handling) → (log s y).request ≡ y.request
  unfolding log
  request-log s y = refl

  sent-log : (s : Bytes) (y : Handling) → (log s y).sent ≡ y.sent
  unfolding log
  sent-log s y = refl

  -- With SmsNotifier for high and EmailNotifier for low priority, Handle appends to the output of
  -- its request the page with what became of the notification and leaves the arguments, and it
  -- sends one message to the contact that a nickname names, by SMS if the priority is high and by
  -- email otherwise, or none where there is no nickname or no such contact.
  pub handle_request_lem :
      (h : Handling)
      → ((handle_request high low h).request
          ≡ record h.request { output = h.request.output ++ page_for contacts h.request })
        × ((handle_request high low h).sent ≡ h.sent ++ messages contacts h.request)
  unfolding page_for
  handle_request_lem h =
      let k = cgi_arg h.request (codes "nickname") in
      let x = append page_head (log (codes "NotifyRequestHandler::Handle() start") h) in
      let y = handle_named k x in
      let last = codes "NotifyRequestHandler::Handle() end" in
      let (r, s) = handle_named_lem (codes "NotifyRequestHandler::Handle() start") h in
      let joined =
        append_assoc h.request.output (page_head ++ status contacts h.request) form_page
        ∙ ap (h.request.output ++◌)
            (append_assoc page_head (status contacts h.request) form_page) in
      (
        ap (λ (z : Handling). z.request) (handle_request-handle_named h)
            ∙ request-log last (write_form y)
            ∙ ap (λ (z : Handling). z.request) (write_form_lem y)
            ∙ ap (λ (q : HttpRequest). record q { output = q.output ++ form_page }) r
            ∙ ap (λ o. record h.request { output = o }) joined,
        ap (λ (z : Handling). z.sent) (handle_request-handle_named h)
            ∙ sent-log last (write_form y)
            ∙ ap (λ (z : Handling). z.sent) (write_form_lem y)
            ∙ s,
      )
