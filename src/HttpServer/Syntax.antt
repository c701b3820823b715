-- ===== src/HttpServer/Syntax.antt =====
-- What a request means, read off its text.
use guicpp.Base.{
  List, [], ◌∷◌, Bool, true, false, Option, none, some, if◌then◌else◌, same, ◌≡◌, arith,
}
use guicpp.CString.{Bytes, codes, is_char, is_one_of}
use guicpp.CString.StringMap.{StringMap, store_key, text_discrete}
use guicpp.CString.Split.{split}
use guicpp.CString.Text.{before, after}
use guicpp.CString.Needle.{after_text}
use guicpp.HttpServer.{end_of_headers}

-- A key and a value around the first '='; a part with none has the value "1".
unfoldable pub argument : Bytes → Bytes × Bytes
unfolding before after
argument f =
    (before (is_char b'=') f, elim (after (is_char b'=') f) [ none ↦ codes "1" | some v ↦ v ])

-- The map when the arguments are stored in order: the last one with a key stays.
unfoldable pub store_all : List Bytes → StringMap Bytes → StringMap Bytes
store_all [] m = m
store_all (f ∷ r) m = store_all r (store_key (argument f).0 (argument f).1 m)

-- The arguments reach to the first blank or end of line.
unfoldable pub arguments : Bytes → List Bytes
arguments q = split (is_char b'&') (before (is_one_of (codes " \r\n")) q)

-- The first line, without the end of it.
unfoldable pub first_line : Bytes → Bytes
unfolding before
first_line s = before (is_char b'\n') (before (is_char b'\r') s)

-- What the body of a POST says; `none` is a request with no end of its headers.
abbrev pub body : Option Bytes → Bool × Option Bytes
body none = (false, none)
body (some []) = (true, none)
body (some (c ∷ b)) = (true, some (c ∷ b))

-- The text of the arguments of each method, or what is answered at once.
unfoldable pub query : Bytes → Bytes → Bool × Option Bytes
query method s =
    if same text_discrete method (codes "GET")
    then (true, after (is_char b'?') (first_line s))
    else if same text_discrete method (codes "POST")
    then body (after_text end_of_headers s)
    else (false, none)

-- The arguments of a query.
unfoldable pub stored : Option Bytes → List Bytes
stored none = []
stored (some q) = arguments q

abbrev pub word : Bytes → Bytes
word s = before (is_one_of (codes " ")) s

-- The text of a request: whether it can be read, and the arguments it stores.
unfoldable pub parse : Bytes → Bool × List Bytes
parse s = elim (after (is_one_of (codes " ")) s) [
  | none ↦ (false, [])
  | some _ ↦ ((query (word s) s).0, stored (query (word s) s).1)
]

pub parse-none : (s : Bytes) → after (is_one_of (codes " ")) s ≡ none → parse s ≡ (false, [])
unfolding parse
parse-none s e = ground (arith, e)

pub parse-some :
    (s b : Bytes)
    → after (is_one_of (codes " ")) s ≡ some b
    → parse s ≡ ((query (word s) s).0, stored (query (word s) s).1)
unfolding parse
parse-some s b e = ground (arith, e)
