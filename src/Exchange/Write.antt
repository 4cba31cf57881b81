-- ===== src/Exchange/Write.antt =====
-- WriteToResponseWriter of internal/exchange/state.go, on a model of http.ResponseWriter.
use imposter_go.Common.{
  ℕ, not, ◌&&◌, ◌||◌, is_none, String, Bool, true, Option, none, some, List, [], ◌∷◌, ◌++◌, get_or,
  if◌then◌else◌,
}
use imposter_go.Common.Int.{ℤ, pos, ltb_ℤ, eqb_ℤ}
use imposter_go.Common.Map.{Map, lookup, insert}
use imposter_go.Common.Text.Case.{canonical_header_key}
use imposter_go.Exchange.{Cleanup, ResponseState}

-- What becomes of http.Hijacker: the writer lacks it, Hijack fails, or it hands the connection over.
pub data Hijack : Type 0 where
  unsupported failing hands_over : Hijack

-- `headers` is Header(), in which trailers are set after the body; `sent` are the headers at the
-- call of WriteHeader; `closed` is the closing of a hijacked connection.
pub record ResponseWriter : Type 0 where
  pub hijack : Hijack
  pub headers : Map (List String)
  pub sent : Option (ℤ × Map (List String))
  pub body : List String
  pub closed : Bool

unfoldable pub set_header : String → String → ResponseWriter → ResponseWriter
set_header name value w = record w {
  headers = insert (canonical_header_key name) (value ∷ []) w.headers;
}

unfoldable pub add_header : String → String → ResponseWriter → ResponseWriter
add_header name value w = record w {
  headers =
      insert (canonical_header_key name)
        (get_or (lookup (canonical_header_key name) w.headers) [] ++ value ∷ []) w.headers;
}

-- Whether a code is below another.
abbrev below : ℤ → ℕ → Bool
below code n = ltb_ℤ code (pos n)

-- net/http panics on a first code that has not three digits.
unfoldable pub write_header_panics : ℤ → ResponseWriter → Bool
write_header_panics code w = is_none w.sent && (below code 100 || not (below code 1000))

-- A code of 1xx other than 101 informs, and is not the status.
unfoldable pub is_informational : ℤ → Bool
is_informational code = not (below code 100) && below code 200 && not (eqb_ℤ code (pos 101))

-- A call that does not panic. The first final one counts; net/http ignores another one.
unfoldable pub write_header : ℤ → ResponseWriter → ResponseWriter
unfolding is_informational
write_header code w = elim w.sent [
  | none ↦ if is_informational code then w else record w { sent = some (code, w.headers) }
  | some _ ↦ w
]

-- A write with no status sends 200 first.
unfoldable pub write : String → ResponseWriter → ResponseWriter
unfolding write_header
write text w = let w' = write_header (pos 200) w in record w' { body = w'.body ++ text ∷ [] }

unfoldable pub set_headers : Map String → ResponseWriter → ResponseWriter
unfolding set_header
set_headers [] w = w
set_headers ((key, value) ∷ rest) w = set_headers rest (set_header key value w)

unfoldable pub declare_trailers : Map String → ResponseWriter → ResponseWriter
unfolding add_header
declare_trailers [] w = w
declare_trailers ((key, _) ∷ rest) w = declare_trailers rest (add_header "Trailer" key w)

-- The part after the checks: trailers are declared, headers, status and body are written, then the
-- trailers.
unfoldable pub send : ResponseState → ResponseWriter → ResponseWriter
send rs w =
    let opened =
      write_header rs.status_code (set_headers rs.headers (declare_trailers rs.trailers w)) in
    set_headers rs.trailers (elim rs.body [ none ↦ opened | some text ↦ write text opened ])

abbrev pub no_hijacking : String
no_hijacking = "HTTP server does not support connection hijacking"

-- The state, the writer, and the cleanup functions that are run. A panic ends the writing, and is
-- recovered by the server.
unfoldable pub write_to_response_writer :
    ResponseState → ResponseWriter → ResponseState × ResponseWriter × List Cleanup
write_to_response_writer rs w =
    let refused = record rs { status_code = pos 500; body = some no_hijacking } in
    if rs.hijacked
    then (rs, w, rs.cleanup_functions)
    else if rs.stopped
    then elim w.hijack [
      | Hijack.hands_over ↦ (rs, record w { closed = true }, [])
      | _ ↦ (refused, send refused w, rs.cleanup_functions)
    ]
    else if write_header_panics rs.status_code w
    then (rs, set_headers rs.headers (declare_trailers rs.trailers w), [])
    else (rs, send rs w, rs.cleanup_functions)
