-- ===== src/Capture.antt =====
-- internal/capture/capture.go, with ExtractPathParams of pkg/utils/http.go. None stands for a panic:
-- an index out of range, or a call on a store that is nil.
pub mod Laws
mod Tests
use imposter_go.Common.{
  String, Bool, true, false, not, ◌&&◌, Option, none, some, List, [], ◌∷◌, ◌==◌, if◌then◌else◌,
  get_or,
}
use imposter_go.Common.Map.{Map, lookup, insert}
use imposter_go.Common.Maybe.{◌>>=◌}
use imposter_go.Common.Text.{has_prefix, has_suffix, trim}
use imposter_go.Common.Value.{Value, string}
use imposter_go.Config.{RequestMatcher, Capture, CaptureConfig}
use imposter_go.Exchange.{Request, header_value, query_value, form_value}
use imposter_go.Exchange.Context.{Exchange}
use imposter_go.External.{External}
use imposter_go.Matcher.Body.{json_path_query}
use imposter_go.Matcher.Score.{segments}
use imposter_go.Store.{Env}
use imposter_go.Store.Handle.{open_store, put}

-- The loop over the segments of the resource, by the index of the segments of the request.
unfoldable pub path_params_from : List String → List String → Map String → Option (Map String)
path_params_from [] requested params = some params
path_params_from (s ∷ ss) [] params =
    if has_prefix s "{" && has_suffix s "}" then none else path_params_from ss [] params
path_params_from (s ∷ ss) (r ∷ rs) params =
    path_params_from ss rs
      (if has_prefix s "{" && has_suffix s "}" then insert (trim s "{}") r params else params)

-- ExtractPathParams
unfoldable pub extract_path_params : String → String → Option (Map String)
extract_path_params request_path resource_path =
    path_params_from (segments resource_path) (segments request_path) []

module _ (x : External) (template : Exchange → Option RequestMatcher → String → String)
    (env : Env) where
  -- extractJSONPath, extractXPath
  unfoldable pub extract_json_path : String → String → String
  extract_json_path body path = elim (json_path_query x body path) [
    | none ↦ ""
    | some v ↦ x.sprint v
  ]

  unfoldable pub extract_x_path : String → String → Map String → String
  extract_x_path body path namespaces = get_or (x.xpath_query body path namespaces) ""

  -- getValueFromCaptureConfig
  unfoldable pub value_of_config : RequestMatcher → Exchange → CaptureConfig → String → String
  value_of_config m e key default =
      if not (key.query_param == "")
      then query_value e.request key.query_param
      else if not (key.form_param == "")
      then form_value e.request key.form_param
      else if not (key.request_header == "")
      then header_value e.request key.request_header
      else if not (key.expression == "")
      then template e (some m) key.expression
      else if not (key.const == "")
      then key.const
      else if not (key.request_body.json_path == "")
      then extract_json_path e.request.body key.request_body.json_path
      else if not (key.request_body.x_path == "")
      then extract_x_path e.request.body key.request_body.x_path key.request_body.xml_namespaces
      else default

  unfoldable pub get_value_from_capture_config :
      RequestMatcher → Exchange → CaptureConfig → String → Option String
  get_value_from_capture_config m e key default =
      if key.path_param == "" then some (value_of_config m e key default) else do
        params ← extract_path_params e.request.path m.path
        some (get_or (lookup key.path_param params) "")

  -- s := store.Open(..); s.StoreValue(itemName, value)
  unfoldable pub store_captured : Capture → String → String → Exchange → Option Exchange
  store_captured c item_name value e = if value == "" then some e else do
    s ← open_store (if c.store == "" then "request" else c.store) e.request_store
    some (record e { stores = put env s item_name (string value) e.stores })

  unfoldable pub capture_one : RequestMatcher → String → Capture → Exchange → Option Exchange
  capture_one m key c e = if not (get_or c.enabled true) then some e else do
    item_name ← get_value_from_capture_config m e c.key key
    value ← get_value_from_capture_config m e c.capture_config ""
    store_captured c item_name value e

  -- CaptureRequestData
  unfoldable pub capture_request_data : RequestMatcher → Map Capture → Exchange → Option Exchange
  capture_request_data m [] e = some e
  capture_request_data m ((key, c) ∷ captures) e = do
    e' ← capture_one m key c e
    capture_request_data m captures e'
