-- ===== src/HttpServer/Reads.antt =====
-- ReadHttpRequest answers what the text of the request says.
use guicpp.Base.{
  ℕ, zero, suc, ◌+◌, ◌-◌, ◌<◌, ◌≤◌, ◌≡◌, refl, sym, ap, subst, [], ◌∷◌, ◌++◌, length, Option, none,
  some, Option-cases, Bool, true, false, Bool-cases, inl, inr, arith, set, same, length-append,
}
use guicpp.Outcome.{ok, Action, ◌>>=◌, lift}
use guicpp.CString.{Bytes, codes, drop, strchr, strpbrk, is_char, is_one_of, scan}
use guicpp.CString.Cut.{get_elem?-drop}
use guicpp.CString.StringMap.{text_discrete}
use guicpp.CString.Needle.{after_text, strstr-none, strstr-some}
use guicpp.CString.Text.{
  IsNulFree, Text, before, after, before-none, scan-Text-none, scan-Text-some, substring-Text,
  Text-after, Text-before, found-inside,
}
use guicpp.HttpServer.{
  HttpRequest, Parsing, end_at, cut_at_char, cut_at_any, char_at, Cursor, finished, at, get_cursor,
  end_of_headers, post_cursor, find_cursor, read_at, read_http_request,
}
use guicpp.HttpServer.Args.{put_nul-inside, with_args, read_args_lem}
use guicpp.HttpServer.Syntax.{
  store_all, arguments, first_line, body, query, parse, stored, parse-none, parse-some,
}

-- A text of the array cut short by a NUL.
module _ (test : ℕ → Bool) (p : ℕ) (f : Bytes) (s : Parsing) (t : Text s.buff p f) where
  scan_cut :
      (buff : Bytes) × ((lift (scan test (drop p s.buff) p) >>= end_at) s
        ≡ ok (tt, record s { buff = buff }))
      × Text buff p (before test f)
  unfolding end_at
  scan_cut = elim (Option-cases (after test f)) [
    | inl e ↦ (
      s.buff,
      rw (scan-Text-none t test e) refl,
      subst (Text s.buff p) (sym (before-none test f e)) t,
    )
    | inr (b, e) ↦
        let n = p + length (before test f) in
        (
          set s.buff n 0,
          rw (scan-Text-some t test b e) (put_nul-inside n s (found-inside t test b e)),
          Text-before t test b e,
        )
  ]

length-drop_le : (p : ℕ) (l : Bytes) → length (drop p l) ≤ length l
length-drop_le zero l = omega arith
length-drop_le (suc p) [] = omega arith
length-drop_le (suc p) (x ∷ l) = omega (arith, length-drop_le p l)

Text-length : {buff s : Bytes} {p : ℕ} → Text buff p s → length s < length buff
Text-length {buff} {s} {p} t =
    omega (arith, length-drop_le p buff, ap length t.splits, length-append s (0 ∷ t.rest))

cut_at_char_lem :
    (p c : ℕ) (f : Bytes) (s : Parsing)
    → Text s.buff p f
    → (buff : Bytes) × (cut_at_char p c s ≡ ok (tt, record s { buff = buff }))
      × Text buff p (before (is_char c) f)
unfolding cut_at_char strchr
cut_at_char_lem p c f s t = scan_cut (is_char c) p f s t

cut_at_any_lem :
    (p : ℕ) (accept f : Bytes) (s : Parsing)
    → Text s.buff p f
    → (buff : Bytes) × (cut_at_any p accept s ≡ ok (tt, record s { buff = buff }))
      × Text buff p (before (is_one_of accept) f)
unfolding cut_at_any strpbrk
cut_at_any_lem p accept f s t = scan_cut (is_one_of accept) p f s t

-- Behind the choice of the method.
read_at_lem :
    (p : ℕ) (f : Bytes) (s : Parsing)
    → Text s.buff p f
    → (buff : Bytes) × (read_at (at p) s ≡ ok (true, with_args s buff (arguments f)))
unfolding read_at arguments
read_at_lem p f s t =
    let (cut, e, u) = cut_at_any_lem p (codes " \r\n") f s t in
    let (buff, q) =
      read_args_lem (length cut) p (before (is_one_of (codes " \r\n")) f) (record s { buff = cut })
        u (Text-length u) in
    (buff, rw (e, q) refl)

-- What an action finds of a query: a value to answer, or the place of the arguments.
data Finds (s : Parsing) : Bool × Option Bytes → Cursor → Type 0 where
  finds_none : {b : Bool} → Finds s (b, none) (finished b)
  finds_some : {p : ℕ} {f : Bytes} → Text s.buff p f → Finds s (true, some f) (at p)

-- An action on the array alone that finds it.
record IsFinder (m : Action Parsing Cursor) (s : Parsing) (q : Bool × Option Bytes) : Type 0 where
  found : Cursor
  buff : Bytes
  answers : m s ≡ ok (found, record s { buff = buff })
  finds : Finds (record s { buff = buff }) q found

get_cursor_lem :
    (f : Bytes) (s : Parsing)
    → Text s.buff 0 f
    → IsFinder get_cursor s (true, after (is_char b'?') (first_line f))
unfolding get_cursor first_line strchr
get_cursor_lem f s t =
    let (cut, e, u) = cut_at_char_lem 0 b'\r' f s t in
    let (line, e', u') =
      cut_at_char_lem 0 b'\n' (before (is_char b'\r') f) (record s { buff = cut }) u in
    elim (Option-cases (after (is_char b'?') (first_line f))) [
      | inl n ↦ record {
        found = finished true;
        buff = line;
        answers = rw (e, e', scan-Text-none u' (is_char b'?') n) refl;
        finds = rw n finds_none;
      }
      | inr (b, n) ↦ record {
        found = at (suc (0 + length (before (is_char b'?') (first_line f))));
        buff = line;
        answers = rw (e, e', scan-Text-some u' (is_char b'?') b n) refl;
        finds = rw n (finds_some (Text-after u' (is_char b'?') b n));
      }
    ]

-- The byte at a text, or the NUL behind it.
char_at-end : (p : ℕ) (s : Parsing) → Text s.buff p [] → char_at p s ≡ ok (0, s)
unfolding char_at
char_at-end p s t = ground (arith, get_elem?-drop p s.buff t.rest 0 t.splits)

char_at-more : (p c : ℕ) (f : Bytes) (s : Parsing) → Text s.buff p (c ∷ f) → char_at p s ≡ ok (c, s)
unfolding char_at
char_at-more p c f s t = ground (arith, get_elem?-drop p s.buff (f ++ 0 ∷ t.rest) c t.splits)

-- The branch of "POST".
post_found :
    (f b : Bytes) (s : Parsing)
    → Text s.buff 0 f
    → after_text end_of_headers f ≡ some b
    → IsFinder post_cursor s (body (some b))
unfolding post_cursor
post_found f [] s t e =
    let (n, x, u) = strstr-some end_of_headers (omega arith) t [] e in
    record {
      found = finished true;
      buff = s.buff;
      answers = rw (x, char_at-end (n + 4) s u) refl;
      finds = finds_none;
    }
post_found f (c ∷ b) s t e =
    let (n, x, u) = strstr-some end_of_headers (omega arith) t (c ∷ b) e in
    record {
      found = at (n + 4);
      buff = s.buff;
      answers = rw (x, char_at-more (n + 4) c b s u) (ground (arith, u.nul_free.0));
      finds = finds_some u;
    }

post_cursor_lem :
    (f : Bytes) (s : Parsing)
    → Text s.buff 0 f
    → IsFinder post_cursor s (body (after_text end_of_headers f))
post_cursor_lem f s t = elim (Option-cases (after_text end_of_headers f)) [
  | inl e ↦ record {
    found = finished false;
    buff = s.buff;
    answers = unfold post_cursor in rw (strstr-none end_of_headers (omega arith) t e) refl;
    finds = rw e finds_none;
  }
  | inr (b, e) ↦ rw e (post_found f b s t e)
]

find_cursor_lem :
    (method f : Bytes) (s : Parsing)
    → Text s.buff 0 f
    → IsFinder (find_cursor method) s (query method f)
unfolding find_cursor query
find_cursor_lem method f s t = elim (Bool-cases (same text_discrete method (codes "GET"))) [
  | inl g ↦ rw g (get_cursor_lem f s t)
  | inr n ↦ elim (Bool-cases (same text_discrete method (codes "POST"))) [
    | inl g ↦ rw (n, g) (post_cursor_lem f s t)
    | inr m ↦
        rw (n, m)
          record { found = finished false; buff = s.buff; answers = refl; finds = finds_none }
  ]
]

read_at-Finds :
    (s : Parsing) (q : Bool × Option Bytes) (c : Cursor)
    → Finds s q c
    → (buff : Bytes) × (read_at c s ≡ ok (q.0, with_args s buff (stored q.1)))
unfolding read_at store_all stored
read_at-Finds s (b, none) _ finds_none = (s.buff, refl)
read_at-Finds s (_, some f) _ (finds_some {p = p} t) = read_at_lem p f s t

-- On an array that holds a text and a NUL behind it, ReadHttpRequest returns whether the parser of
-- the text accepts it, and stores in the request the arguments that this parser finds, in their
-- order, leaving the output as it is.
pub read_http_request_lem :
    (f rest : Bytes) (r : HttpRequest)
    → IsNulFree f
    → (buff : Bytes) × (read_http_request (record { buff = f ++ 0 ∷ rest; request = r })
        ≡ ok (
          (parse f).0,
          record {
            buff = buff;
            request = record r { cgi_args_map = store_all (parse f).1 r.cgi_args_map };
          },
        ))
unfolding read_http_request store_all strpbrk
read_http_request_lem f rest r h =
    let s : Parsing = record { buff = f ++ 0 ∷ rest; request = r } in
    let t : Text s.buff 0 f = record { rest = rest; splits = refl; nul_free = h } in
    elim (Option-cases (after (is_one_of (codes " ")) f)) [
      | inl e ↦ (s.buff, rw (scan-Text-none t (is_one_of (codes " ")) e, parse-none f e) refl)
      | inr (b, e) ↦
          let test = is_one_of (codes " ") in
          let found = find_cursor_lem (before test f) f s t in
          let (buff, q) = read_at-Finds _ _ found.found found.finds in
          let n : 0 + length (before test f) ≡ length (before test f) = omega arith in
          let back : length (before test f) - 0 ≡ length (before test f) = omega arith in
          (
            buff,
            rw
                (
                  scan-Text-some t test b e,
                  n,
                  back,
                  substring-Text t test b e,
                  found.answers,
                  q,
                  parse-some f b e,
                )
                refl,
          )
    ]
