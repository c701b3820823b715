-- ===== src/HttpServer/Form.antt =====
-- The arguments that a form sends come back from the request.

use guicpp.Base.{
  ℕ, ◌≡◌, refl, ap, ◌∙◌, List, [], ◌∷◌, ◌++◌, map, All, Bool, true, false, Option, some,
  if◌then◌else◌, same, same_refl, arith,
}
use guicpp.Outcome.{ok}
use guicpp.CString.{Bytes, codes, is_char, is_one_of}
use guicpp.CString.StringMap.{StringMap, store_key, find_key, find_key-store_key, text_discrete}
use guicpp.CString.Fails.{Fails, before-Fails, before-at, after-at, Fails-weaken, Fails-append}
use guicpp.CString.Split.{split, split-at, split-Fails}
use guicpp.CString.Text.{IsNulFree, before, after}
use guicpp.HttpServer.{HttpRequest, Parsing, get_cgi_arg, read_http_request}
use guicpp.HttpServer.Reads.{read_http_request_lem}
use guicpp.HttpServer.Syntax.{
  argument, store_all, arguments, first_line, query, stored, parse, parse-some,
}

-- What a form sends for its fields.
unfoldable pub field : Bytes × Bytes → Bytes
field (k, v) = k ++ b'=' ∷ v

unfoldable pub form : List (Bytes × Bytes) → Bytes
unfolding field
form [] = []
form (f ∷ []) = field f
form (f ∷ g ∷ r) = field f ++ b'&' ∷ form (g ∷ r)

abbrev in_key : ℕ → Bool
in_key = is_one_of (0 ∷ codes " \r\n&=")

abbrev in_value : ℕ → Bool
in_value = is_one_of (0 ∷ codes " \r\n&")

-- A key and a value that a form can send as they are.
abbrev pub IsPlain : Bytes × Bytes → Type 0
IsPlain (k, v) =
    All (λ c. is_one_of (0 ∷ codes " \r\n&=") c ≡ false) k
    × All (λ c. is_one_of (0 ∷ codes " \r\n&") c ≡ false) v

key_value : (c : ℕ) → in_key c ≡ false → in_value c ≡ false
key_value c h = ground (arith, h)

argument-field : (f : Bytes × Bytes) → IsPlain f → argument (field f) ≡ f
unfolding argument field
argument-field (k, v) (h, _) =
    let plain : Fails (is_char b'=') k =
      Fails-weaken (is_char b'=') in_key k (λ c e. ground (arith, e)) h in
    rw (before-at (is_char b'=') k v b'=' plain refl, after-at (is_char b'=') k v b'=' plain refl)
      refl

field-Fails : (f : Bytes × Bytes) → IsPlain f → Fails in_value (field f)
unfolding field
field-Fails (k, v) (h, g) =
    Fails-append in_value k (b'=' ∷ v) (Fails-weaken in_value in_key k key_value h) (refl, g)

-- The bytes that no form holds.
abbrev in_form : ℕ → Bool
in_form = is_one_of (0 ∷ codes " \r\n")

value_form : (c : ℕ) → in_value c ≡ false → in_form c ≡ false
value_form c h = ground (arith, h)

form-Fails : (fs : List (Bytes × Bytes)) → All IsPlain fs → Fails in_form (form fs)
unfolding form
form-Fails [] h = tt
form-Fails (f ∷ []) h = Fails-weaken in_form in_value (field f) value_form (field-Fails f h.0)
form-Fails (f ∷ g ∷ r) h =
    Fails-append in_form (field f) (b'&' ∷ form (g ∷ r))
      (Fails-weaken in_form in_value (field f) value_form (field-Fails f h.0))
      (refl, form-Fails (g ∷ r) h.1)

field_amp : (f : Bytes × Bytes) → IsPlain f → Fails (is_char b'&') (field f)
field_amp f h =
    Fails-weaken (is_char b'&') in_value (field f) (λ c e. ground (arith, e)) (field-Fails f h)

split-form :
    (f : Bytes × Bytes) (fs : List (Bytes × Bytes))
    → All IsPlain (f ∷ fs)
    → split (is_char b'&') (form (f ∷ fs)) ≡ map field (f ∷ fs)
unfolding form
split-form f [] h = split-Fails (is_char b'&') (field f) (field_amp f h.0)
split-form f (g ∷ r) h =
    split-at (is_char b'&') (field f) (form (g ∷ r)) b'&' (field_amp f h.0) refl
    ∙ ap (◌∷◌ (field f)) (split-form g r h.1)

-- The map when fields are stored in order.
unfoldable pub store_fields : List (Bytes × Bytes) → StringMap Bytes → StringMap Bytes
unfolding store_key
store_fields [] m = m
store_fields ((k, v) ∷ r) m = store_fields r (store_key k v m)

-- The value of the last field with a key, or `v`.
unfoldable pub last_value : Bytes → List (Bytes × Bytes) → Option Bytes → Option Bytes
last_value k [] v = v
last_value k ((j, w) ∷ r) v = last_value k r (if same text_discrete j k then some w else v)

find_key-store_fields :
    (k : Bytes) (fs : List (Bytes × Bytes)) (m : StringMap Bytes)
    → find_key k (store_fields fs m) ≡ last_value k fs (find_key k m)
unfolding store_fields last_value
find_key-store_fields k [] m = refl
find_key-store_fields k ((j, w) ∷ r) m =
    rw (← find_key-store_key k j w m) (find_key-store_fields k r (store_key j w m))

store_all-map :
    (fs : List (Bytes × Bytes)) (m : StringMap Bytes)
    → All IsPlain fs
    → store_all (map field fs) m ≡ store_fields fs m
unfolding store_all store_fields
store_all-map [] m h = refl
store_all-map (f ∷ r) m h =
    ap (λ (q : Bytes × Bytes). store_all (map field r) (store_key q.0 q.1 m)) (argument-field f h.0)
    ∙ store_all-map r (store_key f.0 f.1 m) h.1

-- The request that a form with the method GET sends.
unfoldable pub form_request : List (Bytes × Bytes) → Bytes → Bytes
unfolding form
form_request fs tail = codes "GET /?" ++ (form fs ++ b' ' ∷ tail)

first_line-form :
    (x tail : Bytes)
    → Fails in_form x
    → first_line (codes "GET /?" ++ (x ++ b' ' ∷ tail))
      ≡ codes "GET /?" ++ (x ++ b' ' ∷ before (is_char b'\n') (before (is_char b'\r') tail))
unfolding first_line before
first_line-form x tail h =
    let r = Fails-weaken (is_char b'\r') in_form x (λ c e. ground (arith, e)) h in
    let n = Fails-weaken (is_char b'\n') in_form x (λ c e. ground (arith, e)) h in
    ap (codes "GET /?" ++◌) (
      ap (before (is_char b'\n')) (before-Fails (is_char b'\r') x (b' ' ∷ tail) r)
      ∙ before-Fails (is_char b'\n') x (b' ' ∷ before (is_char b'\r') tail) n)

arguments-form :
    (f : Bytes × Bytes) (fs : List (Bytes × Bytes)) (tail : Bytes)
    → All IsPlain (f ∷ fs)
    → arguments (form (f ∷ fs) ++ b' ' ∷ tail) ≡ map field (f ∷ fs)
unfolding arguments
arguments-form f fs tail h =
    let blank =
      Fails-weaken (is_one_of (codes " \r\n")) in_form (form (f ∷ fs)) (λ c e. ground (arith, e))
        (form-Fails (f ∷ fs) h) in
    rw (before-at (is_one_of (codes " \r\n")) (form (f ∷ fs)) tail b' ' blank refl)
      (split-form f fs h)

query-get : (s : Bytes) → query (codes "GET") s ≡ (true, after (is_char b'?') (first_line s))
unfolding query
query-get s = rw (same_refl text_discrete (codes "GET")) refl

parse-form_request :
    (f : Bytes × Bytes) (fs : List (Bytes × Bytes)) (tail : Bytes)
    → All IsPlain (f ∷ fs)
    → parse (form_request (f ∷ fs) tail) ≡ (true, map field (f ∷ fs))
unfolding form_request stored before after
parse-form_request f fs tail h =
    let x = form (f ∷ fs) in
    let cut = before (is_char b'\n') (before (is_char b'\r') tail) in
    parse-some (form_request (f ∷ fs) tail) (codes "/?" ++ (x ++ b' ' ∷ tail)) refl
    ∙ ap (λ (q : Bool × Option Bytes). (q.0, stored q.1))
        (query-get (codes "GET /?" ++ (x ++ b' ' ∷ tail))
          ∙ ap (λ l. (true, after (is_char b'?') l))
              (first_line-form x tail (form-Fails (f ∷ fs) h)))
    ∙ ap (λ l. (true, l)) (arguments-form f fs cut h)

no_nul : (s : Bytes) → Fails in_form s → IsNulFree s
no_nul [] h = tt
no_nul (c ∷ s) h = ((λ e. ground (arith, e, h.0)), no_nul s h.1)

append-IsNulFree : (a b : Bytes) → IsNulFree a → IsNulFree b → IsNulFree (a ++ b)
append-IsNulFree [] b h k = k
append-IsNulFree (c ∷ a) b h k = (h.0, append-IsNulFree a b h.1 k)

form_request-IsNulFree :
    (fs : List (Bytes × Bytes)) (tail : Bytes)
    → All IsPlain fs
    → IsNulFree tail
    → IsNulFree (form_request fs tail)
unfolding form_request
form_request-IsNulFree fs tail h free =
    append-IsNulFree (codes "GET /?") (form fs ++ b' ' ∷ tail) (omega arith) (
      append-IsNulFree (form fs) (b' ' ∷ tail) (no_nul (form fs) (form-Fails fs h))
        (omega arith, free))

-- Let the keys of one or more fields hold no NUL, blank, carriage return, newline, ampersand or
-- equals sign, and their values none of these but equals signs. On an array that holds a GET
-- request for the path / with these fields as its query, a blank, any text without a NUL, and a
-- NUL, ReadHttpRequest returns true and stores the fields with their values, in order.
pub read_http_request-form_request :
    (f : Bytes × Bytes) (fs : List (Bytes × Bytes)) (tail rest : Bytes) (r : HttpRequest)
    → All IsPlain (f ∷ fs)
    → IsNulFree tail
    → (buff : Bytes) × (read_http_request
          (record { buff = form_request (f ∷ fs) tail ++ 0 ∷ rest; request = r })
        ≡ ok (
          true,
          record {
            buff = buff;
            request = record r { cgi_args_map = store_fields (f ∷ fs) r.cgi_args_map };
          },
        ))
read_http_request-form_request f fs tail rest r h free =
    let (buff, e) =
      read_http_request_lem (form_request (f ∷ fs) tail) rest r
        (form_request-IsNulFree (f ∷ fs) tail h free) in
    (
      buff,
      e
          ∙ ap
              (λ (q : Bool × List Bytes). ok (
                q.0,
                record {
                  buff = buff;
                  request = record r { cgi_args_map = store_all q.1 r.cgi_args_map };
                },
              ))
              (parse-form_request f fs tail h)
          ∙ ap (λ m. ok (true, record { buff = buff; request = record r { cgi_args_map = m } }))
              (store_all-map (f ∷ fs) r.cgi_args_map h),
    )

-- Where a request holds a form's fields, with keys and values that a form can send as they are,
-- ReadHttpRequest accepts it, and GetCgiArg on the request then gives the value of the last field
-- with the key, or where there is none what it gave before.
pub get_cgi_arg-read_http_request :
    (f : Bytes × Bytes) (fs : List (Bytes × Bytes)) (tail rest : Bytes) (r : HttpRequest)
    → All IsPlain (f ∷ fs)
    → IsNulFree tail
    → (k : Bytes)
    → (t : Parsing) × (read_http_request
          (record { buff = form_request (f ∷ fs) tail ++ 0 ∷ rest; request = r })
        ≡ ok (true, t))
      × (get_cgi_arg k t.request ≡ last_value k (f ∷ fs) (get_cgi_arg k r))
unfolding get_cgi_arg
get_cgi_arg-read_http_request f fs tail rest r h free k =
    let (buff, e) = read_http_request-form_request f fs tail rest r h free in
    (_, e, find_key-store_fields k (f ∷ fs) r.cgi_args_map)
