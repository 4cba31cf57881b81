-- ===== src/Handler/StoreApi.antt =====
-- internal/handler/store_handler.go: the store API. None stands for a panic: `Open` gives a nil
-- handle for the store named "request".
use imposter_go.Common.{
  String, Bool, not, ◌&&◌, Option, none, some, List, [], ◌∷◌, ◌==◌, if◌then◌else◌, is_some,
}
use imposter_go.Common.Int.{ℤ, pos}
use imposter_go.Common.Map.{Map}
use imposter_go.Common.Maybe.{◌>>=◌}
use imposter_go.Common.Text.{concat, contains, join}
use imposter_go.Common.Value.{Value, string}
use imposter_go.Exchange.{Request, header_value, query_value}
use imposter_go.Exchange.Write.{ResponseWriter, set_header, write_header, write}
use imposter_go.Matcher.Score.{segments}
use imposter_go.Store.{Env}
use imposter_go.Store.Handle.{Store, Stores, open_store, get, put, get_all, delete, delete_all}

-- http.Error
unfoldable pub http_error : String → ℤ → ResponseWriter → ResponseWriter
http_error message code w = write (concat message "\n") (
    write_header code (
      set_header "X-Content-Type-Options" "nosniff"
        (set_header "Content-Type" "text/plain; charset=utf-8" w)))

-- The encodings of encoding/json: one value with a line end, and an object read into a map. None is
-- an error.
pub record Json : Type 0 where
  pub encode : Value → Option String
  pub encode_map : Map Value → Option String
  pub decode_map : String → Option (Map Value)

module _ (json : Json) (env : Env) where
  unfoldable pub write_json : Option String → String → ResponseWriter → ResponseWriter
  write_json (some text) message w = write text w
  write_json none message w = http_error message (pos 500) w

  unfoldable pub write_value : Option Value → ResponseWriter → ResponseWriter
  write_value none w = http_error "Not found" (pos 404) w
  write_value (some (string text)) w = write text (set_header "Content-Type" "text/plain" w)
  write_value (some v) w =
      write_json (json.encode v) "Failed to encode store items"
        (set_header "Content-Type" "application/json" w)

  unfoldable pub list_store : Request → Store → ResponseWriter → Stores → ResponseWriter × Stores
  list_store r s w stores =
      let (items, stores') = get_all env s (query_value r "keyPrefix") stores in
      (
        write_json (json.encode_map items) "Failed to encode items"
            (set_header "Content-Type" "application/json" w),
        stores',
      )

  -- An Accept header that does not take JSON.
  abbrev pub is_refused : String → Bool
  is_refused accept =
      not (accept == "") && not (accept == "*/*") && not (contains accept "application/json")

  -- The two kinds of reading, on the handle that `Open` gave.
  unfoldable pub get_listing :
      Request → Option Store → ResponseWriter → Stores → Option (ResponseWriter × Stores)
  get_listing r none w stores = none
  get_listing r (some s) w stores = some (list_store r s w stores)

  unfoldable pub get_item :
      String → Option Store → ResponseWriter → Stores → Option (ResponseWriter × Stores)
  get_item key none w stores = none
  get_item key (some s) w stores =
      let (found, stores') = get env s key stores in some (write_value found w, stores')

  unfoldable pub handle_get_store :
      Request → String → String → ResponseWriter → Stores → Option (ResponseWriter × Stores)
  handle_get_store r store_name key w stores =
      if key == ""
      then if is_refused (header_value r "Accept")
        then some (
          http_error "This endpoint only supports application/json responses" (pos 406) w,
          stores,
        )
        else get_listing r (open_store store_name none) w stores
      else get_item key (open_store store_name none) w stores

  -- `body` is none where the body cannot be read.
  unfoldable pub handle_put_store :
      Option String → String → String → ResponseWriter → Stores → Option (ResponseWriter × Stores)
  handle_put_store none store_name key w stores =
      if key == ""
      then some (http_error "Key is required" (pos 400) w, stores)
      else some (http_error "Failed to read request body" (pos 500) w, stores)
  handle_put_store (some body) store_name key w stores =
      if key == "" then some (http_error "Key is required" (pos 400) w, stores) else do
        s ← open_store store_name none
        let (found, stores') = get env s key stores
        some (
          write_header (if is_some found then pos 200 else pos 201) w,
          put env s key (string body) stores',
        )

  unfoldable pub put_all : Store → Map Value → Stores → Stores
  put_all s [] stores = stores
  put_all s ((key, v) ∷ items) stores = put_all s items (put env s key v stores)

  unfoldable pub post_items :
      Option (Map Value) → String → ResponseWriter → Stores → Option (ResponseWriter × Stores)
  post_items none store_name w stores = some (http_error "Invalid JSON" (pos 400) w, stores)
  post_items (some []) store_name w stores = some (write_header (pos 200) w, stores)
  post_items (some ((key, v) ∷ items)) store_name w stores = do
    s ← open_store store_name none
    some (write_header (pos 200) w, put_all s ((key, v) ∷ items) stores)

  -- A body that cannot be read does not decode either.
  unfoldable pub handle_post_store :
      Option String → String → ResponseWriter → Stores → Option (ResponseWriter × Stores)
  handle_post_store body store_name w stores =
      post_items (body >>= json.decode_map) store_name w stores

  unfoldable pub handle_delete_store :
      String → String → ResponseWriter → Stores → Option (ResponseWriter × Stores)
  handle_delete_store store_name key w stores =
      if key == "" then some (write_header (pos 204) w, delete_all store_name stores) else do
        s ← open_store store_name none
        some (write_header (pos 204) w, delete env s key stores)

  unfoldable pub route :
      Request
      → Option String
      → List String
      → ResponseWriter
      → Stores
      → Option (ResponseWriter × Stores)
  route r body (system ∷ store ∷ store_name ∷ rest) w stores =
      let key = join rest "/" in
      if r.method == "GET"
      then handle_get_store r store_name key w stores
      else if r.method == "PUT"
      then handle_put_store body store_name key w stores
      else if r.method == "POST"
      then handle_post_store body store_name w stores
      else if r.method == "DELETE"
      then handle_delete_store store_name key w stores
      else some (http_error "Method not allowed" (pos 405) w, stores)
  route r body _ w stores = some (http_error "Invalid store path" (pos 400) w, stores)

  -- HandleStoreRequest
  unfoldable pub handle_store_request :
      Request → Option String → ResponseWriter → Stores → Option (ResponseWriter × Stores)
  handle_store_request r body w stores = route r body (segments r.path) w stores
