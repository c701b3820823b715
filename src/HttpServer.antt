-- ===== src/HttpServer.antt =====
-- examples/notifier/http_server: HttpRequest (public/server.h, implementation/server.cc) and
-- SimpleHttpServer::ReadHttpRequest, which ends the parts of the request by NULs written into the
-- receive buffer. GUICPP_LOG_(INFO) and GUICPP_LOG_(ERROR) only print and are left out.
pub mod Syntax
pub mod Args
pub mod Reads
pub mod Clears
pub mod Server
pub mod Serves
pub mod Live
pub mod Form
pub mod Bounds
use guicpp.Base.{
  ℕ, zero, suc, ◌+◌, ◌-◌, List, [], ◌∷◌, ◌++◌, length, get_elem?, set, Bool, true, false, Option,
  none, some, ltb, ◌==◌, if◌then◌else◌, same,
}
use guicpp.Outcome.{Outcome, ok, undefined, out_of_fuel, Action, pure, ◌>>=◌, ◌>>◌, lift}
use guicpp.CString.{Bytes, codes, strchr, strpbrk, strstr, c_string, substring}
use guicpp.CString.StringMap.{StringMap, find_key, store_key, text_discrete}

-- HttpRequest
pub record HttpRequest : Type 0 where
  pub output : Bytes
  pub cgi_args_map : StringMap Bytes

-- HttpRequest::HttpRequest
abbrev pub new_request : HttpRequest
new_request = record { output = []; cgi_args_map = [] }

-- HttpRequest::GetCgiArg: `none` is false, with `value` unchanged.
unfoldable pub get_cgi_arg : Bytes → HttpRequest → Option Bytes
unfolding find_key
get_cgi_arg arg r = find_key arg r.cgi_args_map

-- HttpRequest::AppendOutput
unfoldable pub append_output : Bytes → HttpRequest → HttpRequest
append_output str r = record r { output = r.output ++ str }

-- The loop of HttpRequest::ToString
unfoldable pub print_args : StringMap Bytes → Bytes → Bytes
print_args [] tostring = tostring
print_args ((k, v) ∷ m) tostring =
    print_args m ((((tostring ++ k) ++ codes ": ") ++ v) ++ codes "\n")

-- HttpRequest::ToString
unfoldable pub to_string : HttpRequest → Bytes
unfolding print_args
to_string r = print_args r.cgi_args_map []

-- What ReadHttpRequest changes: the array it is given and the request.
pub record Parsing : Type 0 where
  pub buff : Bytes
  pub request : HttpRequest

-- `*p = '\0'`; a write behind the array is undefined.
unfoldable pub put_nul : ℕ → Action Parsing (Unit {0})
put_nul p s =
    if ltb p (length s.buff) then ok (tt, record s { buff = set s.buff p 0 }) else undefined

-- `if (end) *end = '\0';`
unfoldable pub end_at : Option ℕ → Action Parsing (Unit {0})
unfolding put_nul
end_at none = pure tt
end_at (some p) = put_nul p

-- strchr, strpbrk and strstr on the array
abbrev pub strchr_in : ℕ → ℕ → Action Parsing (Option ℕ)
strchr_in p c s = lift (strchr s.buff p c) s

abbrev pub strpbrk_in : ℕ → Bytes → Action Parsing (Option ℕ)
strpbrk_in p accept s = lift (strpbrk s.buff p accept) s

abbrev pub strstr_in : ℕ → Bytes → Action Parsing (Option ℕ)
strstr_in p needle s = lift (strstr s.buff p needle) s

-- strchr or strpbrk, then end_at
unfoldable pub cut_at_char : ℕ → ℕ → Action Parsing (Unit {0})
unfolding strchr end_at
cut_at_char p c = do end ← strchr_in p c; end_at end

unfoldable pub cut_at_any : ℕ → Bytes → Action Parsing (Unit {0})
unfolding strpbrk end_at
cut_at_any p accept = do end ← strpbrk_in p accept; end_at end

-- `if (end) { *end = '\0'; end += 1; }`
unfoldable pub end_behind : Option ℕ → Action Parsing (Option ℕ)
unfolding put_nul
end_behind none = pure none
end_behind (some p) = put_nul p >> pure (some (suc p))

-- `*cursor`
unfoldable pub char_at : ℕ → Action Parsing ℕ
char_at p s = elim (get_elem? s.buff p) [ none ↦ undefined | some c ↦ ok (c, s) ]

-- `std::string(p)`
abbrev pub string_at : ℕ → Action Parsing Bytes
string_at p s = lift (c_string s.buff p) s

abbrev pub string_between : ℕ → ℕ → Action Parsing Bytes
string_between p q s = ok (substring s.buff p (q - p), s)

-- The key and the value of the argument at the cursor, given the place of its '='.
unfoldable pub read_arg : ℕ → Option ℕ → Action Parsing (Bytes × Bytes)
unfolding c_string
read_arg cursor none = do key ← string_at cursor; pure (key, codes "1")
read_arg cursor (some sep) = do
  key ← string_between cursor sep
  value ← string_at (suc sep)
  pure (key, value)

unfoldable pub read_arg_at : ℕ → Action Parsing (Bytes × Bytes)
unfolding strchr read_arg
read_arg_at cursor = do sep ← strchr_in cursor b'='; read_arg cursor sep

-- `request->cgi_args_map_[key] = value;`
unfoldable pub store_arg : Bytes × Bytes → Action Parsing (Unit {0})
unfolding store_key
store_arg (k, v) s = ok (
  tt,
  record s { request = record s.request { cgi_args_map = store_key k v s.request.cgi_args_map } },
)

-- `while (cursor)`, with fuel for the rounds
unfoldable pub read_args : ℕ → ℕ → Action Parsing (Unit {0})
unfolding strchr end_behind read_arg_at store_arg
read_args zero cursor = λ s. out_of_fuel
read_args (suc fuel) cursor = do
  end ← strchr_in cursor b'&'
  next ← end_behind end
  arg ← read_arg_at cursor
  store_arg arg
  elim next [ none ↦ pure tt | some q ↦ read_args fuel q ]

-- Where the arguments begin, or the value that ReadHttpRequest returns at once.
pub data Cursor : Type 0 where
  finished : Bool → Cursor
  at : ℕ → Cursor

-- The branch of "GET"
unfoldable pub get_cursor : Action Parsing Cursor
unfolding strchr cut_at_char
get_cursor = do
  cut_at_char 0 b'\r'
  cut_at_char 0 b'\n'
  question ← strchr_in 0 b'?'
  pure (elim question [ none ↦ finished true | some p ↦ at (suc p) ])

abbrev pub end_of_headers : Bytes
end_of_headers = codes "\r\n\r\n"

-- The branch of "POST"
unfoldable pub post_cursor : Action Parsing Cursor
unfolding strstr char_at
post_cursor = do
  end ← strstr_in 0 end_of_headers
  elim end [
    | none ↦ pure (finished false)
    | some p ↦ do c ← char_at (p + 4); pure (if c == 0 then finished true else at (p + 4))
  ]

unfoldable pub find_cursor : Bytes → Action Parsing Cursor
unfolding get_cursor post_cursor text_discrete
find_cursor method =
    if same text_discrete method (codes "GET")
    then get_cursor
    else if same text_discrete method (codes "POST")
    then post_cursor
    else pure (finished false)

-- SimpleHttpServer::ReadHttpRequest behind the choice of the method
unfoldable pub read_at : Cursor → Action Parsing Bool
unfolding cut_at_any read_args
read_at (finished b) = pure b
read_at (at cursor) = do
  cut_at_any cursor (codes " \r\n")
  (λ s. read_args (length s.buff) cursor s)
  pure true

-- SimpleHttpServer::ReadHttpRequest
unfoldable pub read_http_request : Action Parsing Bool
unfolding strpbrk find_cursor read_at
read_http_request = do
  end ← strpbrk_in 0 (codes " ")
  elim end [
    | none ↦ pure false
    | some p ↦ do method ← string_between 0 p; cursor ← find_cursor method; read_at cursor
  ]
