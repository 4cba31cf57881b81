-- ===== src/Handler/Entry.antt =====
-- HandleRequest of internal/handler/handler.go, with notfound.go and status.go. None stands for a
-- panic.
use imposter_go.Common.{
  String, ◌&&◌, ◌||◌, Option, none, some, List, [], ◌∷◌, ◌++◌, ◌==◌, if◌then◌else◌,
}
use imposter_go.Common.Int.{ℤ, pos}
use imposter_go.Common.Lists.{is_empty}
use imposter_go.Common.Map.{insert}
use imposter_go.Common.Maybe.{◌>>=◌}
use imposter_go.Common.Text.{concat, has_prefix}
use imposter_go.Config.{Config, Resource, CorsConfig}
use imposter_go.Exchange.{Request, ResponseState, Cleanup, new_response_state, header_value}
use imposter_go.Exchange.Context.{Exchange}
use imposter_go.Exchange.Write.{ResponseWriter, set_header, write, write_to_response_writer}
use imposter_go.Handler.Cors.{handle_cors, add_cors_headers}
use imposter_go.Handler.StoreApi.{Json, http_error, handle_store_request}
use imposter_go.Store.{Env}
use imposter_go.Store.Handle.{Stores, new_request_store, begin_request}

-- The interface of a plugin: GetConfig and HandleRequest.
pub record Plugin : Type 0 where
  pub config : Config
  pub handle : Exchange → Option Exchange

-- What a request leaves: the writer, the stores, and the cleanup functions that were run.
pub record Served : Type 0 where
  pub writer : ResponseWriter
  pub stores : Stores
  pub cleaned_up : List Cleanup

-- describeResource
unfoldable pub describe_resource : String → Resource → String
describe_resource default_method r =
    concat (if r.method == "" then default_method else r.method) (concat " " r.path)

unfoldable pub describe_operation : Resource → String
describe_operation r =
    if r.operation == "" && r.binding == ""
    then describe_resource "POST" r
    else concat "Operation: " (concat r.operation (concat " (Binding: " (concat r.binding ")")))

unfoldable pub list_items : (Resource → String) → List Resource → String
list_items describe [] = ""
list_items describe (r ∷ rs) =
    concat "<li>" (concat (describe r) (concat "</li>" (list_items describe rs)))

unfoldable pub rest_resources : List Plugin → List Resource
rest_resources [] = []
rest_resources (p ∷ ps) =
    (if p.config.plugin == "openapi" || p.config.plugin == "rest" then p.config.resources else [])
    ++ rest_resources ps

unfoldable pub soap_resources : List Plugin → List Resource
soap_resources [] = []
soap_resources (p ∷ ps) =
    (if p.config.plugin == "soap" then p.config.resources else []) ++ soap_resources ps

unfoldable pub section : String → (Resource → String) → List Resource → String
section title describe rs =
    if is_empty rs
    then ""
    else concat title (concat "\n<ul>" (concat (list_items describe rs) "</ul></p>"))

abbrev page_start : String
page_start =
    "<html>\n<head><title>Not found</title></head>\n<body>\n<h3>Resource not found</h3>\n<p>\nNo resource exists for: <pre>"

abbrev page_end : String
page_end =
    "<hr/>\n<p>\n<em><a href=\"https://www.imposter.sh\">Imposter mock engine</a></em>\n</p>\n</body>\n</html>"

unfoldable pub not_found_page : Request → List Plugin → String
not_found_page r plugins = concat page_start (
    concat r.method (
      concat " " (
        concat r.path (
          concat "</pre></p>" (
            concat
              (section "<p>The available REST resources are:" (describe_resource "GET")
                (rest_resources plugins))
              (concat
                (section "<p>The available SOAP operations are:" describe_operation
                  (soap_resources plugins))
                page_end))))))

-- handleNotFound
unfoldable pub handle_not_found : Request → List Plugin → ResponseState → ResponseState
handle_not_found r plugins rs = record rs {
  status_code = pos 404;
  headers = insert "Content-Type" "text/html" rs.headers;
  body = some (not_found_page r plugins);
}

-- handleStatusRequest; the text is the one that is marshalled at start-up.
unfoldable pub handle_status_request : String → Request → ResponseWriter → ResponseWriter
handle_status_request text r w =
    if r.method == "GET"
    then write text (set_header "Content-Type" "application/json" w)
    else http_error "Method not allowed" (pos 405) w

-- The first CORS configuration of the plugins.
unfoldable pub first_cors : List Plugin → Option CorsConfig
first_cors [] = none
first_cors (p ∷ ps) = elim p.config.cors [ none ↦ first_cors ps | some c ↦ some c ]

-- The loop over the plugins, up to the first that handles the request.
unfoldable pub run_plugins : List Plugin → Exchange → Option Exchange
run_plugins [] e = some e
run_plugins (p ∷ ps) e = do
  e' ← p.handle e
  if e'.response_state.handled then some e' else run_plugins ps e'

module _ (itoa : ℤ → String) (json : Json) (env : Env) (status_text : String) where
  -- The rest of HandleRequest after the plugins. The log message changes nothing.
  unfoldable pub finish : List Plugin → ResponseWriter → Exchange → Served
  finish plugins w e =
      let rs =
        if e.response_state.handled
        then e.response_state
        else handle_not_found e.request plugins e.response_state in
      let w' =
        if header_value e.request "Origin" == ""
        then w
        else elim (first_cors plugins) [ none ↦ w | some c ↦ add_cors_headers e.request c w ] in
      let (rs', written, cleaned_up) = write_to_response_writer rs w' in
      if e.response_state.hijacked
      then record { writer = w; stores = e.stores; cleaned_up = [] }
      else record { writer = written; stores = e.stores; cleaned_up = cleaned_up }

  unfoldable pub new_exchange : Request → Stores → Exchange
  new_exchange r stores = record {
    request = r;
    stores = begin_request stores;
    request_store = some new_request_store;
    response_state = new_response_state;
    sleeps = [];
    frames = [];
  }

  -- `body` is none where the body cannot be read: nothing is written then.
  unfoldable pub serve :
      List Plugin → Request → Option String → ResponseWriter → Stores → Option Served
  serve plugins r none w stores = some (record { writer = w; stores = stores; cleaned_up = [] })
  serve plugins r (some body) w stores = do
    e ← run_plugins plugins (new_exchange (record r { body = body }) stores)
    some (finish plugins w e)

  unfoldable pub store_endpoint : Request → Option String → ResponseWriter → Stores → Option Served
  store_endpoint r body w stores = do
    (w', stores') ← handle_store_request json env r body w stores
    some (record { writer = w'; stores = stores'; cleaned_up = [] })

  -- HandleRequest, with handleSystemEndpoint.
  unfoldable pub handle_request :
      List Plugin → Request → Option String → ResponseWriter → Stores → Option Served
  handle_request plugins r body w stores =
      let (handled, w') = handle_cors itoa r (first_cors plugins) w in
      if handled
      then some (record { writer = w'; stores = stores; cleaned_up = [] })
      else if has_prefix r.path "/system/store"
      then store_endpoint r body w' stores
      else if r.path == "/system/status"
      then some (record {
        writer = handle_status_request status_text r w';
        stores = stores;
        cleaned_up = [];
      })
      else serve plugins r body w' stores
