-- ===== src/HttpServer/Bounds.antt =====
-- ReadHttpRequest stays inside its array.
use guicpp.Base.{◌≡◌, ap, ◌∙◌, ◌∷◌, ◌++◌, length, Bool}
use guicpp.Outcome.{ok}
use guicpp.Outcome.Keeps.{Keeps-ok}
use guicpp.CString.{Bytes}
use guicpp.CString.Nul.{nul-splits}
use guicpp.HttpServer.{HttpRequest, Parsing, read_http_request}
use guicpp.HttpServer.Clears.{Clears, read_http_request-Clears}
use guicpp.HttpServer.Reads.{read_http_request_lem}

-- On any array that holds a NUL, ReadHttpRequest returns: it neither reads nor writes outside the
-- array and its loop ends. The array keeps its length.
pub read_http_request-returns :
    (xs behind : Bytes) (r : HttpRequest)
    → (accepted : Bool) × (t : Parsing) × (read_http_request
          (record { buff = xs ++ 0 ∷ behind; request = r })
        ≡ ok (accepted, t))
      × (length t.buff ≡ length (xs ++ 0 ∷ behind))
read_http_request-returns xs behind r =
    let (rest, q, free) = nul-splits xs behind in
    let (buff, e) = read_http_request_lem _ rest r free in
    let start = λ (l : Bytes). read_http_request (record { buff = l; request = r }) in
    let same = ap start q ∙ e in
    let c =
      Keeps-ok Clears read_http_request (record { buff = xs ++ 0 ∷ behind; request = r }) _
        read_http_request-Clears same in
    (_, _, same, c.same_length)
