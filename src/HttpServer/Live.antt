-- ===== src/HttpServer/Live.antt =====
-- Every connection gets its answer, and the server goes on to wait.
use mathlib.Core.List.{append_assoc}
use guicpp.Base.{
  ℕ, ◌<◌, ◌≡◌, refl, List, [], ◌∷◌, ◌++◌, length, All, Bool, true, false, Option, some, ltb, ◌==◌,
  arith,
}
use guicpp.Outcome.{ok, Action}
use guicpp.CString.{Bytes}
use guicpp.HttpServer.{HttpRequest}
use guicpp.HttpServer.Server.{
  buffer_size, http_header, parse_error, Connection, ListenSocket, World, new_server, write_all,
  write_output, dispatch_request, respond, start_server,
}
use guicpp.HttpServer.Serves.{reading, idle, answer_bytes, answer, answers, serve-answers}

-- The writes of one answer.
unfoldable pub pieces : ℕ → Bytes → List (ℕ × Bytes)
unfolding http_header
pieces fd [] = (fd, http_header) ∷ []
pieces fd (c ∷ output) = (fd, http_header) ∷ (fd, c ∷ output) ∷ []

module _ {D : Type 0} (handler : HttpRequest → D → HttpRequest × D) where
  -- The page for a request, and the state of the dispatcher after it.
  unfoldable pub page : Bool × HttpRequest → D → Bytes × D
  unfolding parse_error
  page (true, request) d = ((handler request d).0.output, (handler request d).1)
  page (false, request) d = (parse_error, d)

  unfoldable pub reply : ℕ → Bytes → World D → World D
  unfolding pieces page reading
  reply fd [] w = w
  reply fd (c ∷ cs) w = record {
    written = w.written ++ pieces fd (page (reading (c ∷ cs)) w.dispatcher).0;
    dispatcher = (page (reading (c ∷ cs)) w.dispatcher).1;
  }

  -- The replies to the connections, one after the other.
  unfoldable pub replies : List Connection → World D → World D
  unfolding reply
  replies [] w = w
  replies (c ∷ cs) w = replies cs (reply c.fd c.received w)

  abbrev total_dispatch : HttpRequest → Action D HttpRequest
  total_dispatch r d = ok (handler r d)

  module _ (write : ℕ → Bytes → Option ℕ)
      (takes_all : (fd : ℕ) (bytes : Bytes) → write fd bytes ≡ some (length bytes)) where
    write_all_lem :
        (fd : ℕ) (bytes : Bytes) (w : World D)
        → write_all total_dispatch write fd bytes w
          ≡ ok (tt, record w { written = w.written ++ (fd, bytes) ∷ [] })
    unfolding write_all
    write_all_lem fd bytes w =
        let same : length bytes == length bytes ≡ true = ground arith in
        rw (takes_all fd bytes, same) refl

    write_output_lem :
        (fd : ℕ) (bytes : Bytes) (w : World D)
        → write_output total_dispatch write fd bytes w
          ≡ ok (tt, record w { written = w.written ++ pieces fd bytes })
    unfolding write_output pieces
    write_output_lem fd [] w = write_all_lem fd http_header w
    write_output_lem fd (c ∷ cs) w =
        let next : World D = record w { written = w.written ++ (fd, http_header) ∷ [] } in
        let joined = append_assoc w.written ((fd, http_header) ∷ []) ((fd, c ∷ cs) ∷ []) in
        rw (write_all_lem fd http_header w, write_all_lem fd (c ∷ cs) next, joined) refl

    respond_lem :
        (fd : ℕ) (q : Bool × HttpRequest) (w : World D)
        → respond total_dispatch write fd q w
          ≡ ok (
            tt,
            record {
              written = w.written ++ pieces fd (page q w.dispatcher).0;
              dispatcher = (page q w.dispatcher).1;
            },
          )
    unfolding respond dispatch_request page
    respond_lem fd (true, r) w =
        write_output_lem fd (handler r w.dispatcher).0.output
          (record w { dispatcher = (handler r w.dispatcher).1 })
    respond_lem fd (false, r) w = write_output_lem fd parse_error w

    answer_bytes_lem :
        (fd : ℕ) (xs : Bytes) (w : World D)
        → answer_bytes total_dispatch write fd xs w ≡ ok (tt, reply fd xs w)
    unfolding answer_bytes reply
    answer_bytes_lem fd [] w = refl
    answer_bytes_lem fd (c ∷ cs) w = respond_lem fd (reading (c ∷ cs)) w

    answers_lem :
        (cs : List Connection) (w : World D)
        → All (λ (c : Connection). 0 < c.fd) cs
        → answers total_dispatch write cs w ≡ ok (tt, replies cs w)
    unfolding answers answer replies
    answers_lem [] w h = refl
    answers_lem (c ∷ cs) w h =
        let opened : ltb 0 c.fd ≡ true = ground (arith, h.0) in
        rw (opened, answer_bytes_lem c.fd c.received w)
          (answers_lem cs (reply c.fd c.received w) h.1)

    -- Where the listening socket is made, accept never fails, read delivers at most kBufferSize -
    -- 1 bytes, write takes all it is given and the dispatcher returns, StartServer replies to the
    -- connections in their order, each from its own bytes, and is then back waiting in accept with
    -- a cleared buffer and stop_ unset.
    pub start_server_lem :
        (l : ListenSocket) (cs : List Connection) (d : D)
        → 0 < l.sockfd
        → l.reuses ≡ true
        → l.binds ≡ true
        → All (λ (c : Connection). 0 < c.fd) cs
        → All (λ (c : Connection). length c.received < buffer_size) cs
        → start_server total_dispatch write l cs (new_server d)
          ≡ ok (tt, idle (replies cs (record { written = []; dispatcher = d })))
    unfolding start_server new_server
    start_server_lem l cs d socket reuses binds opened short =
        let first : ltb 0 l.sockfd ≡ true = ground (arith, socket) in
        rw
          (
            first,
            reuses,
            binds,
            serve-answers total_dispatch write cs (record { written = []; dispatcher = d }) short,
            answers_lem cs (record { written = []; dispatcher = d }) opened,
          )
          refl
