-- ===== src/Response.antt =====
-- internal/response/response.go: a configured response applied to the state of an exchange.
pub mod Frame
pub mod Delays
pub mod Headers
pub mod Laws
pub mod Tests
use imposter_go.Common.{
  ℕ, ◌+◌, String, Bool, true, false, not, ◌&&◌, ◌||◌, Option, none, some, List, [], ◌∷◌, ◌++◌, ◌==◌,
  if◌then◌else◌, get_or, is_none, ◌⊎◌, inl, inr,
}
use imposter_go.Common.Int.{ℤ, pos, neg, ◌+ℤ◌, ltb_ℤ}
use imposter_go.Common.Map.{Map, lookup, insert}
use imposter_go.Common.Maybe.{◌>>=◌}
use imposter_go.Common.Text.{concat, has_suffix, trim_suffix, trim_prefix}
use imposter_go.Config.{Delay, Response, RequestMatcher}
use imposter_go.Exchange.{Request, ResponseState, is_header_explicit}
use imposter_go.Exchange.Context.{Exchange, Sleep, exactly, between, on_state}
use imposter_go.External.{External, contents, not_exist, unreadable}
use imposter_go.Path.{join_path, ext, validate_path}

-- SimulateDelay. rand.Intn panics on a range that is empty, where the maximum is below the minimum.
unfoldable pub simulate_delay : Delay → Exchange → Option Exchange
simulate_delay delay e =
    if ltb_ℤ (pos 0) delay.exact
    then some (record e { sleeps = e.sleeps ++ (exactly delay.exact ∷ []) })
    else if ltb_ℤ (pos 0) delay.min && ltb_ℤ (pos 0) delay.max
    then if ltb_ℤ delay.max delay.min
      then none
      else some (record e { sleeps = e.sleeps ++ (between delay.min delay.max ∷ []) })
    else some e

-- SimulateFailure: the state, and whether the response is done.
unfoldable pub simulate_failure : String → ResponseState → ResponseState × Bool
simulate_failure failure rs =
    if failure == "EmptyResponse"
    then (record rs { body = none }, true)
    else if failure == "CloseConnection"
    then (record rs { stopped = true }, true)
    else (rs, false)

-- CopyResponseHeaders
unfoldable pub copy_response_headers : Map String → ResponseState → ResponseState
copy_response_headers [] rs = rs
copy_response_headers ((key, value) ∷ src) rs =
    copy_response_headers src (
      if is_header_explicit rs key then rs else record rs { headers = insert key value rs.headers })

-- SetContentTypeHeader. `mime_type` is mime.TypeByExtension.
unfoldable pub content_type_of : (String → String) → String → String → String
content_type_of mime_type extension default_file_content_type =
    if extension == ".md"
    then "text/markdown"
    else if extension == ".yaml" || extension == ".yml"
    then "application/x-yaml"
    else if mime_type extension == ""
    then default_file_content_type
    else mime_type extension

unfoldable pub set_content_type_header :
    (String → String) → String → String → String → ResponseState → ResponseState
set_content_type_header mime_type file_hint default_file_content_type fallback rs =
    let content_type =
      if file_hint == ""
      then fallback
      else content_type_of mime_type (ext file_hint) default_file_content_type in
    if get_or rs.body "" == ""
    then rs
    else if is_none (lookup "Content-Type" rs.headers) && not (content_type == "")
    then record rs { headers = insert "Content-Type" content_type rs.headers }
    else rs

-- The parts of processResponse, in the order of the code.
abbrev pub has_delay : Delay → Bool
has_delay d = ltb_ℤ (pos 0) d.exact || (ltb_ℤ (pos 0) d.min && ltb_ℤ (pos 0) d.max)

unfoldable pub delayed : Response → Exchange → Option Exchange
delayed resp e =
    if has_delay e.response_state.delay
    then simulate_delay e.response_state.delay e
    else if has_delay resp.delay
    then simulate_delay resp.delay e
    else some e

unfoldable pub with_defaults : Response → ResponseState → ResponseState
with_defaults resp rs = copy_response_headers resp.headers (
    if ltb_ℤ (pos 0) resp.status_code && not rs.status_code_set
    then record rs { status_code = resp.status_code }
    else rs)

abbrev pub failed_with : ℤ → String → ResponseState → ResponseState
failed_with code body rs = record rs { status_code = code; body = some body }

-- scriptContentWins
abbrev pub script_content_wins : ResponseState → Bool
script_content_wins rs = rs.body_set && rs.file == ""

-- The file of a directory response for a request, none where the path of the resource does not end
-- in a wildcard.
unfoldable pub dir_file : String → Option RequestMatcher → Request → Option String
dir_file dir none r = none
dir_file dir (some m) r =
    let specific = trim_prefix r.path (trim_suffix m.path "*") in
    if has_suffix m.path "/*"
    then some (
        join_path dir (
          if has_suffix specific "/" || specific == ""
          then concat specific "index.html"
          else specific))
    else none

unfoldable pub response_file :
    Option RequestMatcher → Response → Request → ResponseState → Option String
response_file m resp r rs =
    if script_content_wins rs
    then some ""
    else if not (resp.dir == "")
    then dir_file resp.dir m r
    else some (if rs.file == "" then resp.file else rs.file)

module _ (x : External) (template : Exchange → Option RequestMatcher → String → String)
    (file_base_dir : String) where
  -- The content of a file, or the state that the error leaves.
  unfoldable pub read_response_file : String → ResponseState → String ⊎ ResponseState
  read_response_file file rs = elim (validate_path file file_base_dir) [
    | none ↦ inr (failed_with (pos 500) "Invalid file path" rs)
    | some path ↦ elim (x.read_file path) [
      | contents text ↦ inl text
      | not_exist ↦ inr (record rs { status_code = pos 404 })
      | unreadable ↦ inr (failed_with (pos 500) "Failed to read response file" rs)
    ]
  ]

  unfoldable pub response_content : Response → String → ResponseState → String ⊎ ResponseState
  response_content resp file rs =
      if file == "" then inl resp.content else read_response_file file rs

  abbrev pub typed : String → ResponseState → ResponseState
  typed file rs =
      set_content_type_header x.mime_type_by_extension file "application/octet-stream"
        "application/json" rs

  unfoldable pub with_body :
      Option RequestMatcher → Response → String → Exchange → String → Exchange
  with_body m resp file e content =
      on_state
        (λ rs.
          typed file
            (record rs { body = some (if resp.template then template e m content else content) }))
        e

  unfoldable pub read :
      Option RequestMatcher → Response → String → Exchange → String ⊎ ResponseState → Exchange
  read m resp file e (inl content) = with_body m resp file e content
  read m resp file e (inr failed) = record e { response_state = failed }

  -- The body and the content type, from the file or the content where there is one. A body that a
  -- script set still goes through the template.
  unfoldable pub with_content : Option RequestMatcher → Response → String → Exchange → Exchange
  with_content m resp file e =
      let rs = e.response_state in
      if not (file == "") || (not (resp.content == "") && not (script_content_wins rs))
      then read m resp file e (response_content resp file rs)
      else if rs.body_set && resp.template
      then with_body m resp file e (get_or rs.body "")
      else on_state (typed file) e

  unfoldable pub fill : Option RequestMatcher → Response → Option String → Exchange → Exchange
  fill m resp none e = on_state (failed_with (pos 500) "Invalid directory") e
  fill m resp (some file) e = with_content m resp file e

  unfoldable pub after_failure :
      Option RequestMatcher → Response → Exchange → ResponseState × Bool → Exchange
  after_failure m resp e (rs, true) = record e { response_state = rs }
  after_failure m resp e (rs, false) =
      fill m resp (response_file m resp e.request rs) (record e { response_state = rs })

  -- What follows the delay.
  unfoldable pub respond : Option RequestMatcher → Response → Exchange → Exchange
  respond m resp e =
      let rs = with_defaults resp e.response_state in
      let failure = if rs.fail == "" then resp.fail else rs.fail in
      after_failure m resp e (simulate_failure failure rs)

  -- processResponse, none where it panics.
  unfoldable pub process_response : Exchange → Option RequestMatcher → Response → Option Exchange
  process_response e m resp = do e' ← delayed resp e; some (respond m resp e')
