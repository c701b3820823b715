-- ===== src/HttpServer/Serves.antt =====
-- The server answers each connection from its own bytes.

use guicpp.Base.{
  ℕ, zero, suc, ◌+◌, ◌-◌, ◌≤◌, ◌<◌, ◌≡◌, refl, sym, ap, ◌∙◌, subst, List, [], ◌∷◌, ◌++◌, length,
  replicate, length-append, length-replicate, All, Bool, false, Bool-cases, Option, ltb, inl, inr,
  arith,
}
use guicpp.Outcome.{
  Outcome, ok, fatal, undefined, ill_formed, out_of_fuel, and_then, Action, pure, ◌>>◌, check,
}
use guicpp.Outcome.Keeps.{Keeps-ok}
use guicpp.CString.{Bytes, drop, is_char}
use guicpp.CString.Cut.{drop_all}
use guicpp.CString.Nul.{nul-splits}
use guicpp.CString.Text.{IsNulFree, Text, before, c_string-Text}
use guicpp.HttpServer.{HttpRequest, new_request, read_http_request}
use guicpp.HttpServer.Clears.{IsZero, Clears, read_http_request-Clears}
use guicpp.HttpServer.Reads.{read_http_request_lem}
use guicpp.HttpServer.Server.{
  buffer_size, Connection, World, Server, on_world, read_buffer, clear, respond, serve_bytes,
  serve_connection, serve,
}
use guicpp.HttpServer.Syntax.{parse, store_all}

-- The bytes up to the first NUL.
unfoldable pub message : Bytes → Bytes
unfolding before
message = before (is_char 0)

-- What a message asks for.
unfoldable pub reading : Bytes → Bool × HttpRequest
unfolding message parse store_all
reading received = (
  (parse (message received)).0,
  record { output = []; cgi_args_map = store_all (parse (message received)).1 [] },
)

-- A message with NULs behind it is a text.
message-splits :
    (xs : Bytes) (k : ℕ)
    → (rest : Bytes) × (xs ++ replicate (suc k) 0 ≡ message xs ++ 0 ∷ rest) × IsNulFree (message xs)
unfolding message
message-splits xs k = nul-splits xs (replicate k 0)

replicate-add : (n k : ℕ) → replicate (n + k) 0 ≡ replicate n 0 ++ replicate {A = ℕ} k 0
replicate-add zero k = let z : 0 + k ≡ k = omega arith in rw z refl
replicate-add (suc n) k =
    let z : suc n + k ≡ suc (n + k) = omega arith in rw z (ap (◌∷◌ 0) (replicate-add n k))

drop-replicate : (n k : ℕ) → drop n (replicate (n + k) 0) ≡ replicate {A = ℕ} k 0
drop-replicate n k =
    let z = drop_all (replicate n 0) (replicate {A = ℕ} k 0) in
    rw (replicate-add n k) (
      subst (λ m. drop m (replicate n 0 ++ replicate k 0) ≡ replicate k 0) (length-replicate n 0) z)

length-drop-add : (n : ℕ) (l : Bytes) → n ≤ length l → n + length (drop n l) ≡ length l
length-drop-add zero l h = omega arith
length-drop-add (suc n) [] h = omega arith
length-drop-add (suc n) (x ∷ l) h = omega (arith, length-drop-add n l (omega arith))

IsZero-replicate : (l : Bytes) → IsZero l → l ≡ replicate (length l) 0
IsZero-replicate [] h = refl
IsZero-replicate (c ∷ l) h = rw (h.0) (ap (◌∷◌ 0) (IsZero-replicate l h.1))

replicate-IsZero : (k : ℕ) → IsZero (replicate k 0)
replicate-IsZero zero = tt
replicate-IsZero (suc k) = (refl, replicate-IsZero k)

cleared_lem :
    (n k : ℕ) (buff : Bytes)
    → length buff ≡ n + k
    → IsZero (drop n buff)
    → replicate n 0 ++ drop n buff ≡ replicate (n + k) 0
cleared_lem n k buff e h =
    let m : length (drop n buff) ≡ k =
      omega (arith, length-drop-add n buff (omega (arith, e)), e) in
    ap (replicate n 0 ++◌) (IsZero-replicate (drop n buff) h ∙ ap (λ j. replicate j 0) m)
    ∙ sym (replicate-add n k)

module _ {D : Type 0} where
  -- A server that waits for a connection.
  abbrev pub idle : World D → Server D
  idle w = record { buffer = replicate buffer_size 0; stop = false; world = w }

  read_buffer_lem :
      (xs : Bytes) (k : ℕ) (s : Server D)
      → s.buffer ≡ xs ++ replicate (suc k) 0
      → (buff : Bytes) × (read_buffer s ≡ ok (reading xs, record s { buffer = buff }))
        × (length buff ≡ length s.buffer)
        × IsZero (drop (length xs) buff)
  unfolding read_buffer reading
  read_buffer_lem xs k s e =
      let (rest, q, free) = message-splits xs k in
      let t : Text s.buffer 0 (message xs) = record {
        rest = rest;
        splits = e ∙ q;
        nul_free = free;
      } in
      let (buff, r) = read_http_request_lem (message xs) rest new_request free in
      let c =
        Keeps-ok Clears read_http_request
          (record { buff = message xs ++ 0 ∷ rest; request = new_request }) _
          read_http_request-Clears r in
      let zeros : IsZero (drop (length xs) (message xs ++ 0 ∷ rest)) =
        subst (λ b. IsZero (drop (length xs) b)) q
          (subst IsZero (sym (drop_all xs (replicate (suc k) 0))) (replicate-IsZero (suc k))) in
      (
        buff,
        rw (c_string-Text t) (rw (e ∙ q, r) refl),
        c.same_length ∙ sym (ap length (e ∙ q)),
        c.still_zero (length xs) zeros,
      )

  -- Whatever the answer ends as, memset gives the array back as it was.
  clear_behind :
      (n : ℕ) (buff : Bytes) (o : Outcome (Unit {0} × World D))
      → replicate n 0 ++ drop n buff ≡ replicate buffer_size 0
      → and_then
          (and_then {B = Unit {0} × Server D} o
            (λ r. ok (r.0, record { buffer = buff; stop = false; world = r.1 })))
          (λ r. clear n r.1)
        ≡ and_then o (λ r. ok (r.0, idle r.1))
  unfolding clear
  clear_behind n buff (ok r) e = rw e refl
  clear_behind n buff (fatal f) e = refl
  clear_behind n buff undefined e = refl
  clear_behind n buff ill_formed e = refl
  clear_behind n buff out_of_fuel e = refl

  module _ (dispatch : HttpRequest → Action D HttpRequest) (write : ℕ → Bytes → Option ℕ) where
    -- The answer to a connection, which is made from its own bytes.
    unfoldable pub answer_bytes : ℕ → Bytes → Action (World D) (Unit {0})
    unfolding reading
    answer_bytes fd [] = pure tt
    answer_bytes fd (c ∷ cs) = respond dispatch write fd (reading (c ∷ cs))

    unfoldable pub answer : Connection → Action (World D) (Unit {0})
    unfolding answer_bytes
    answer c = do check (ltb 0 c.fd); answer_bytes c.fd c.received

    -- The answers to the connections, one after the other.
    unfoldable pub answers : List Connection → Action (World D) (Unit {0})
    unfolding answer
    answers [] = pure tt
    answers (c ∷ cs) = answer c >> answers cs

    serve_bytes_lem :
        (fd : ℕ) (xs : Bytes) (w : World D)
        → length xs < buffer_size
        → serve_bytes dispatch write fd xs (idle w) ≡ on_world (answer_bytes fd xs) (idle w)
    unfolding serve_bytes answer_bytes
    serve_bytes_lem fd [] w h = refl
    serve_bytes_lem fd (c ∷ cs) w h =
        let n = length (c ∷ cs) in
        let k = buffer_size - suc n in
        let size : n + suc k ≡ buffer_size = omega (arith, h) in
        let got : (c ∷ cs) ++ drop n (replicate buffer_size 0) ≡ (c ∷ cs) ++ replicate (suc k) 0 =
          ap ((c ∷ cs) ++◌)
            (ap (λ m. drop n (replicate m 0)) (sym size) ∙ drop-replicate n (suc k)) in
        let s : Server D = record {
          buffer = (c ∷ cs) ++ drop n (replicate buffer_size 0);
          stop = false;
          world = w;
        } in
        let (buff, q, same_length, zeros) = read_buffer_lem (c ∷ cs) k s got in
        let long : length buff ≡ n + suc k =
          same_length
          ∙ ap length got
          ∙ length-append (c ∷ cs) (replicate (suc k) 0)
          ∙ ap (n +◌) (length-replicate (suc k) 0) in
        rw q (
          clear_behind n buff (respond dispatch write fd (reading (c ∷ cs)) w)
            (cleared_lem n (suc k) buff long zeros ∙ ap (λ m. replicate m 0) size))

    then_on_world :
        (m n : Action (World D) (Unit {0})) (f : Action (Server D) (Unit {0})) (w : World D)
        → ((v : World D) → f (idle v) ≡ on_world n (idle v))
        → and_then (on_world m (idle w)) (λ r. f r.1) ≡ on_world (m >> n) (idle w)
    then_on_world m n f w h = go (m w)
      where
        go :
            (o : Outcome (Unit {0} × World D))
            → and_then (and_then {B = Unit {0} × Server D} o (λ r. ok (r.0, idle r.1))) (λ r. f r.1)
              ≡ and_then (and_then o (λ r. n r.1)) (λ r. ok (r.0, idle r.1))
        go (ok r) = h r.1
        go (fatal e) = refl
        go undefined = refl
        go ill_formed = refl
        go out_of_fuel = refl

    serve_connection_lem :
        (c : Connection) (w : World D)
        → length c.received < buffer_size
        → serve_connection dispatch write c (idle w) ≡ on_world (answer c) (idle w)
    unfolding serve_connection answer
    serve_connection_lem c w h = elim (Bool-cases (ltb 0 c.fd)) [
      | inl e ↦ rw e (serve_bytes_lem c.fd c.received w h)
      | inr e ↦ rw e refl
    ]

    -- Let no connection deliver more than kBufferSize - 1 bytes. A server that waits with a
    -- cleared buffer does to the outside what answering each connection from its own bytes does,
    -- failures included, and waits with a cleared buffer again. The dispatcher and the write call
    -- are arbitrary.
    pub serve-answers :
        (cs : List Connection) (w : World D)
        → All (λ (c : Connection). length c.received < buffer_size) cs
        → serve dispatch write cs (idle w) ≡ on_world (answers cs) (idle w)
    unfolding serve answers
    serve-answers [] w h = refl
    serve-answers (c ∷ cs) w h = rw (serve_connection_lem c w h.0) (
        then_on_world (answer c) (answers cs) (serve dispatch write cs) w
          λ v. serve-answers cs v h.1)
