-- ===== src/HttpServer/Server.antt =====
-- SimpleHttpServer of examples/notifier/http_server/implementation/server.cc. The system calls are
-- parameters: what accept and read deliver is a list of connections, and `write` says how many bytes
-- a write takes. Dispatcher::Dispatch is a parameter too, with a state of its own.
use guicpp.Base.{
  ℕ, List, [], ◌∷◌, ◌++◌, length, replicate, Bool, true, false, Option, none, some, ltb, ◌==◌,
  if◌then◌else◌,
}
use guicpp.Outcome.{ok, Action, pure, ◌>>=◌, ◌>>◌, check, and_then}
use guicpp.CString.{Bytes, codes, drop, c_string}
use guicpp.HttpServer.{HttpRequest, new_request, read_http_request}

-- kBufferSize
unfoldable pub buffer_size : ℕ
buffer_size = 10000

-- kHttpHeader
unfoldable pub http_header : Bytes
http_header = codes "HTTP/1.0 200 OK\r\nContent-Type: text/html\r\nConnection: keep-alive\r\n\r\n"

unfoldable pub parse_error : Bytes
parse_error = codes "<h1>Parse Error!</h1>"

-- `wsize == output.length()`, where -1 is `none`.
abbrev pub took_all : Option ℕ → Bytes → Bool
took_all none bytes = false
took_all (some n) bytes = n == length bytes

-- What accept and read give: a descriptor, 0 for none, and the bytes, none where read returns 0 or
-- an error.
pub record Connection : Type 0 where
  pub fd : ℕ
  pub received : Bytes

-- What socket, setsockopt and bind give: a descriptor, 0 for none, and whether they succeed.
pub record ListenSocket : Type 0 where
  pub sockfd : ℕ
  pub reuses : Bool
  pub binds : Bool

-- What lies outside the server: the bytes written to each descriptor, in order, and the state of the
-- dispatcher.
pub record World (D : Type 0) : Type 0 where
  pub written : List (ℕ × Bytes)
  pub dispatcher : D

-- SimpleHttpServer
pub record Server (D : Type 0) : Type 0 where
  pub buffer : Bytes
  pub stop : Bool
  pub world : World D

module _ {D : Type 0} where
  -- SimpleHttpServer::SimpleHttpServer and Init
  unfoldable pub new_server : D → Server D
  unfolding buffer_size
  new_server d = record {
    buffer = replicate buffer_size 0;
    stop = false;
    world = record { written = []; dispatcher = d };
  }

  abbrev pub on_world : {A : Type 0} → Action (World D) A → Action (Server D) A
  on_world m s = and_then (m s.world) (λ r. ok (r.0, record s { world = r.1 }))

  -- read(newsockfd, buffer_, kBufferSize-1)
  unfoldable pub receive : Bytes → Action (Server D) (Unit {0})
  receive bytes s = ok (tt, record s { buffer = bytes ++ drop (length bytes) s.buffer })

  -- `<< buffer_` and ReadHttpRequest(buffer_, &request)
  unfoldable pub read_buffer : Action (Server D) (Bool × HttpRequest)
  read_buffer s = and_then (c_string s.buffer 0) λ _.
      and_then (read_http_request (record { buff = s.buffer; request = new_request }))
        λ r. ok ((r.0, r.1.request), record s { buffer = r.1.buff })

  -- memset(buffer_, '\0', rsize)
  unfoldable pub clear : ℕ → Action (Server D) (Unit {0})
  clear n s = ok (tt, record s { buffer = replicate n 0 ++ drop n s.buffer })

  module _ (dispatch : HttpRequest → Action D HttpRequest) (write : ℕ → Bytes → Option ℕ) where
    -- write(outfd, ...) and its SIMPLE_CHECK
    unfoldable pub write_all : ℕ → Bytes → Action (World D) (Unit {0})
    write_all fd bytes w =
        check (took_all (write fd bytes) bytes)
          (record w { written = w.written ++ (fd, bytes) ∷ [] })

    -- SimpleHttpServer::WriteOutput
    unfoldable pub write_output : ℕ → Bytes → Action (World D) (Unit {0})
    unfolding write_all http_header
    write_output fd [] = write_all fd http_header
    write_output fd (c ∷ output) = write_all fd http_header >> write_all fd (c ∷ output)

    -- dispatcher_->Dispatch(&request)
    unfoldable pub dispatch_request : HttpRequest → Action (World D) HttpRequest
    dispatch_request r w =
        and_then (dispatch r w.dispatcher) (λ x. ok (x.0, record w { dispatcher = x.1 }))

    -- The two branches behind ReadHttpRequest.
    unfoldable pub respond : ℕ → Bool × HttpRequest → Action (World D) (Unit {0})
    unfolding dispatch_request write_output parse_error
    respond fd (true, request) = dispatch_request request >>= λ r. write_output fd r.output
    respond fd (false, request) = write_output fd parse_error

    -- What the loop does with the bytes that were read.
    unfoldable pub serve_bytes : ℕ → Bytes → Action (Server D) (Unit {0})
    unfolding receive clear
    serve_bytes fd [] = pure tt
    serve_bytes fd (c ∷ cs) = do
      receive (c ∷ cs)
      q ← read_buffer
      on_world (respond fd q)
      clear (length (c ∷ cs))

    -- One round of the loop of StartServer.
    unfoldable pub serve_connection : Connection → Action (Server D) (Unit {0})
    unfolding serve_bytes
    serve_connection c = do check (ltb 0 c.fd); serve_bytes c.fd c.received

    -- The loop, while the connections last; then it waits in accept.
    unfoldable pub serve : List Connection → Action (Server D) (Unit {0})
    unfolding serve_connection
    serve [] = pure tt
    serve (c ∷ cs) =
        let next = serve_connection c >> serve cs in λ s. if s.stop then ok (tt, s) else next s

    -- SimpleHttpServer::StartServer
    unfoldable pub start_server : ListenSocket → List Connection → Action (Server D) (Unit {0})
    unfolding serve
    start_server l cs = do check (ltb 0 l.sockfd); check l.reuses; check l.binds; serve cs
