-- ===== src/Handler/Tests.antt =====
-- Requests to the store API, preflight requests and a request that no plugin handles.
use imposter_go.Common.{
  String, List, ◌≡◌, refl, true, false, ◌||◌, none, some, [], ◌∷◌, ◌==◌, if◌then◌else◌, is_none,
  arith, get_or,
}
use imposter_go.Common.Int.{ℤ, pos, ◌<ℤ◌, wrap64, scale}
use imposter_go.Common.Map.{Map}
use imposter_go.Common.Text.{split, trim, trim_left, trim_right, join}
use imposter_go.Common.Text.Number.{parse_int}
use imposter_go.Config.{CorsConfig, strings, empty_resource}
use imposter_go.Exchange.{Request}
use imposter_go.Exchange.Context.{Exchange}
use imposter_go.Exchange.Write.{Hijack, ResponseWriter, set_header, write}
use imposter_go.Matcher.Score.{segments}
use imposter_go.Handler.Entry.{Plugin, Served, run_plugins, new_exchange, serve}
use imposter_go.Handler.EntryLaws.{serve-not_found}
use imposter_go.Store.{Env, init_stores, get_inmemory_ttl}
use imposter_go.Store.Handle.{Stores, open_store}
use imposter_go.Handler.StoreApi.{Json, handle_store_request, route, handle_put_store}
use imposter_go.Handler.StoreApiLaws.{
  has_items, handle_store_request-request, handle_store_request-put,
}

abbrev writer : ResponseWriter
writer = record {
  hijack = Hijack.unsupported;
  headers = [];
  sent = none;
  body = [];
  closed = false;
}

abbrev preflight : Request
preflight = record {
  method = "OPTIONS";
  path = "/";
  headers = ("Origin", "https://a.example" ∷ []) ∷ [];
  query = [];
  form = none;
  body = "";
}

abbrev cors : CorsConfig
cors = record {
  allow_origins = strings ("https://a.example" ∷ []);
  allow_headers = [];
  allow_methods = [];
  max_age = pos 0;
  allow_credentials = true;
}

abbrev digits : ℤ → String
digits n = "86400"

-- No JSON is written or read here.
abbrev no_json : Json
no_json = record { encode = λ v. none; encode_map = λ m. none; decode_map = λ text. none }

abbrev ten_seconds : Env
ten_seconds = record { store_key_prefix = ""; store_inmemory_ttl = "10"; now = 100 }

abbrev no_stores : Stores
no_stores = record { shared_provider = init_stores; request_provider = init_stores }

abbrev get_request : Request
get_request = record preflight { method = "GET"; path = "/system/store/request/a" }

abbrev put_user : Request
put_user = record preflight { method = "PUT"; path = "/system/store/users/a" }

abbrev get_user : Request
get_user = record preflight { method = "GET"; path = "/system/store/users/a" }

request_path : segments get_request.path ≡ "system" ∷ "store" ∷ "request" ∷ "a" ∷ []
unfolding segments split trim trim_left trim_right
request_path = refl

users_path : segments put_user.path ≡ "system" ∷ "store" ∷ "users" ∷ "a" ∷ []
unfolding segments split trim trim_left trim_right
users_path = refl

named : (join ("a" ∷ []) "/" == "") ≡ false
unfolding join
named = refl

ttl_positive : pos 0 <ℤ get_inmemory_ttl ten_seconds
unfolding get_inmemory_ttl parse_int wrap64 scale
ttl_positive = omega arith

handle_store_request-request_example :
    is_none (handle_store_request no_json ten_seconds get_request (some "") writer no_stores) ≡ (
      get_request.method == "GET"
      || get_request.method == "PUT"
      || (if get_request.method == "POST"
          then has_items no_json ten_seconds (no_json.decode_map "")
          else get_request.method == "DELETE"))
handle_store_request-request_example =
    handle_store_request-request no_json ten_seconds get_request "" "system" "store" ("a" ∷ [])
      writer no_stores request_path named

abbrev written : ResponseWriter × Stores
written =
    get_or (handle_store_request no_json ten_seconds put_user (some "x") writer no_stores)
      (writer, no_stores)

puts :
    handle_store_request no_json ten_seconds put_user (some "x") writer no_stores
    ≡ some (written.0, written.1)
unfolding handle_store_request route handle_put_store open_store segments split trim trim_left
    trim_right join
puts = refl

handle_store_request-put_example :
    (after : Stores) × (handle_store_request no_json ten_seconds get_user none writer written.1
      ≡ some (write "x" (set_header "Content-Type" "text/plain" writer), after))
handle_store_request-put_example =
    handle_store_request-put no_json ten_seconds put_user get_user "x" "system" "store" "users"
      ("a" ∷ []) none writer writer no_stores written.1 written.0 refl refl users_path users_path
      refl named ttl_positive puts

-- A plugin that handles nothing.
abbrev idle : Plugin
idle = record {
  config = record {
    plugin = "rest";
    resources = record { base = empty_resource; security = none } ∷ [];
    interceptors = [];
    schedules = [];
    upstreams = [];
    system = none;
    security = none;
    cors = some cors;
    config_dir = "/etc/imposter";
  };
  handle = λ e. some e;
}

abbrev arrived : Exchange
arrived = new_exchange digits no_json ten_seconds "ok" (record get_user { body = "x" }) no_stores

idle_runs : run_plugins (idle ∷ []) arrived ≡ some arrived
unfolding run_plugins new_exchange
idle_runs = refl

serve-not_found_example :
    (served : Served) × (headers : Map (List String)) × (serve digits no_json ten_seconds "ok"
        (idle ∷ [])
        get_user
        (some "x")
        writer
        no_stores
      ≡ some served)
    × (served.writer.sent ≡ some (pos 404, headers))
unfolding new_exchange
serve-not_found_example =
    serve-not_found digits no_json ten_seconds "ok" (idle ∷ []) get_user "x" writer no_stores
      arrived refl idle_runs refl refl refl
