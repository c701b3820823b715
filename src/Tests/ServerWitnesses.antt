-- ===== src/Tests/ServerWitnesses.antt =====
-- The theorems of the example server, its request parser and the contact file at concrete inputs.
use guicpp.Base.{
  ℕ, ◌<◌, ◌≡◌, refl, List, [], ◌∷◌, ◌++◌, All, length, Bool, true, false, Option, none, some, arith,
}
use guicpp.Outcome.{ok}
use guicpp.CString.{Bytes, codes}
use guicpp.CString.Split.{split}
use guicpp.CString.StringMap.{StringMap}
use guicpp.HttpServer.{HttpRequest, new_request, Parsing, read_http_request, get_cgi_arg}
use guicpp.HttpServer.Bounds.{read_http_request-returns}
use guicpp.HttpServer.Form.{
  form_request, store_fields, last_value, read_http_request-form_request,
  get_cgi_arg-read_http_request,
}
use guicpp.HttpServer.Live.{replies, start_server_lem}
use guicpp.HttpServer.Reads.{read_http_request_lem}
use guicpp.HttpServer.Serves.{idle, answers, serve-answers}
use guicpp.HttpServer.Server.{
  buffer_size, Connection, ListenSocket, World, Server, new_server, on_world, serve, start_server,
}
use guicpp.HttpServer.Syntax.{parse, store_all}
use guicpp.ContactList.{ContactInfo, parse_csv, get_contact, line_room}
use guicpp.ContactList.Lines.{newline}
use guicpp.ContactList.Loads.{parse_csv_lem, get_contact-parse_csv}
use guicpp.ContactList.Syntax.{usable, store_lines, last_contact}
use guicpp.Values.{Value, Pointer, user_object}
use guicpp.Injector.{Injector}
use guicpp.Scope.State.{Store}
use guicpp.Notifier.Wiring.{get_server, get_handlers}
use guicpp.Notifier.Wired.{compiler}
use guicpp.Notifier.Requests.{IsServer, IsSender, AreHandlers, get_handlers_lem}
use guicpp.Notifier.{Outbox, notify_sms, notify_email, handle_request, dispatch}
use guicpp.Notifier.Handles.{messages, page_for, handle_request_lem}
use guicpp.Notifier.Serves.{all_messages, start_server-messages}

abbrev get_text : Bytes
get_text = codes "GET /?nickname=tom&priority=high HTTP/1.0\r\n\r\n"

abbrev post_text : Bytes
post_text = codes "POST / HTTP/1.0\r\n\r\na=b&c"

-- A dispatcher that counts the requests, and a write that takes everything.
abbrev count : HttpRequest → ℕ → HttpRequest × ℕ
count r n = (r, ℕ.suc n)

abbrev write_all_of : ℕ → Bytes → Option ℕ
write_all_of fd bytes = some (length bytes)

abbrev two : List Connection
two =
    record { fd = 4; received = get_text }
    ∷ record { fd = 5; received = post_text }
    ∷ record { fd = 6; received = [] }
    ∷ []

two_short : All (λ (c : Connection). length c.received < buffer_size) two
unfolding buffer_size
two_short = omega arith

two_open : All (λ (c : Connection). 0 < c.fd) two
two_open = omega arith

abbrev listening : ListenSocket
listening = record { sockfd = 3; reuses = true; binds = true }

abbrev nothing_written : World ℕ
nothing_written = record { written = []; dispatcher = 0 }

serve-answers_example :
    serve (λ r n. ok (count r n)) write_all_of two (idle nothing_written)
    ≡ on_world (answers (λ r n. ok (count r n)) write_all_of two) (idle nothing_written)
serve-answers_example =
    serve-answers (λ r n. ok (count r n)) write_all_of two nothing_written two_short

start_server_example :
    start_server (λ r n. ok (count r n)) write_all_of listening two (new_server 0)
    ≡ ok (tt, idle (replies count two nothing_written))
start_server_example =
    start_server_lem count write_all_of (λ fd bytes. refl) listening two 0 (omega arith) refl refl
      two_open two_short

read_http_request_example :
    (buff : Bytes) × (read_http_request
        (record { buff = post_text ++ 0 ∷ []; request = new_request })
      ≡ ok (
        (parse post_text).0,
        record {
          buff = buff;
          request = record { output = []; cgi_args_map = store_all (parse post_text).1 [] };
        },
      ))
read_http_request_example = read_http_request_lem post_text [] new_request (omega arith)

returns_example :
    (accepted : Bool) × (t : Parsing) × (read_http_request
        (record { buff = get_text ++ 0 ∷ post_text; request = new_request })
      ≡ ok (accepted, t))
    × (length t.buff ≡ length (get_text ++ 0 ∷ post_text))
returns_example = read_http_request-returns get_text post_text new_request

abbrev fields : List (Bytes × Bytes)
fields = (codes "p", codes "x=y") ∷ []

form_request_example :
    (buff : Bytes) × (read_http_request (record {
      buff = form_request ((codes "n", codes "tom") ∷ fields) (codes "HTTP/1.0\r\n") ++ 0 ∷ [];
      request = new_request;
    })
      ≡ ok (
        true,
        record {
          buff = buff;
          request = record {
            output = [];
            cgi_args_map = store_fields ((codes "n", codes "tom") ∷ fields) [];
          };
        },
      ))
form_request_example =
    read_http_request-form_request (codes "n", codes "tom") fields (codes "HTTP/1.0\r\n") []
      new_request
      (((refl, tt), (refl, (refl, (refl, tt)))), (((refl, tt), (refl, (refl, (refl, tt)))), tt))
      (omega arith)

get_cgi_arg_example :
    (t : Parsing) × (read_http_request (record {
      buff = form_request ((codes "n", codes "tom") ∷ fields) (codes "HTTP/1.0\r\n") ++ 0 ∷ [];
      request = new_request;
    })
      ≡ ok (true, t))
    × (get_cgi_arg (codes "p") t.request
        ≡ last_value
            (codes "p")
            ((codes "n", codes "tom") ∷ fields)
            (get_cgi_arg (codes "p") new_request))
get_cgi_arg_example =
    get_cgi_arg-read_http_request (codes "n", codes "tom") fields (codes "HTTP/1.0\r\n") []
      new_request
      (((refl, tt), (refl, (refl, (refl, tt)))), (((refl, tt), (refl, (refl, (refl, tt)))), tt))
      (omega arith) (codes "p")

abbrev contact_file : Bytes
contact_file = codes "tom,Tom The Cat,tomcat@gmail.com,+91\njerry,Jerry"

abbrev loaded : StringMap ContactInfo
loaded = store_lines (usable line_room (split newline contact_file)) []

parse_csv_example : parse_csv contact_file (b'x' ∷ []) ≡ ok loaded
parse_csv_example = parse_csv_lem contact_file (b'x' ∷ [])

csv_loaded : parse_csv contact_file [] ≡ ok loaded
csv_loaded = parse_csv_lem contact_file []

get_contact_example :
    get_contact (codes "tom") loaded
    ≡ last_contact (codes "tom") (usable line_room (split newline contact_file)) none
get_contact_example = get_contact-parse_csv (codes "tom") contact_file [] loaded csv_loaded

abbrev asking : HttpRequest
asking = record {
  output = [];
  cgi_args_map = (codes "nickname", codes "tom") ∷ (codes "priority", codes "high") ∷ [];
}

handle_request_example :
    ((handle_request
        (notify_sms loaded)
        (notify_email loaded)
        (record { request = asking; sent = []; logged = [] })).request
      ≡ record asking { output = page_for loaded asking })
    × ((handle_request
          (notify_sms loaded)
          (notify_email loaded)
          (record { request = asking; sent = []; logged = [] })).sent
        ≡ messages loaded asking)
handle_request_example =
    handle_request_lem loaded (record { request = asking; sent = []; logged = [] })

start_server-messages_example :
    (t : Server Outbox) × (start_server
        (λ r d. ok (dispatch loaded r d))
        write_all_of
        listening
        two
        (new_server (record { sent = []; logged = [] }))
      ≡ ok (tt, t))
    × (t.stop ≡ false)
    × (t.world.dispatcher.sent ≡ all_messages loaded two)
start_server-messages_example =
    start_server-messages loaded write_all_of listening two (λ fd bytes. refl) (omega arith) refl
      refl two_open two_short

get_handlers_lem_example :
    (i : Injector) × (v : Value) × (get_server (compiler true) 80 (user_object 5) ≡ ok (i, v))
    × IsServer 80 v i.store.events
    × (vs : List Value) × (t : Store) × (get_handlers
          (compiler true)
          i.table
          (user_object 7 ∷ user_object 8 ∷ [])
          i.store
        ≡ ok (vs, t))
    × (sender : Pointer) × IsSender (user_object 7 ∷ user_object 8 ∷ []) sender t.events
    × AreHandlers (user_object 5) sender (user_object 7 ∷ user_object 8 ∷ []) vs t.events
get_handlers_lem_example =
    get_handlers_lem true 80 (user_object 5) (user_object 7 ∷ user_object 8 ∷ [])
