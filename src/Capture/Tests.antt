-- ===== src/Capture/Tests.antt =====
-- Captures of a request on a resource with a parameter in its path.
use imposter_go.Common.{◌≡◌, refl, true, none, [], ◌∷◌, is_some}
use imposter_go.Common.Map.{Map, lookup}
use imposter_go.Common.Text.{
  has_prefix, has_suffix, split, trim, trim_left, trim_right, contains, count_char,
}
use imposter_go.Config.{RequestMatcher, Capture, empty_matcher, empty_capture_config}
use imposter_go.Store.{Env}
use imposter_go.Matcher.Score.{
  match_path, match_segments, match_segment, segments, before_wildcard, is_pure_parameter,
}
use imposter_go.Matcher.Tests.{plain}
use imposter_go.Response.Tests.{exchange}
use imposter_go.Capture.{extract_path_params, path_params_from}

abbrev forever : Env
forever = record { store_key_prefix = ""; store_inmemory_ttl = ""; now = 100 }

abbrev users : RequestMatcher
users = record empty_matcher { path = "/users/{id}" }

abbrev capture_id : Map Capture
capture_id =
    (
      "user",
      record {
        enabled = none;
        store = "";
        key = empty_capture_config;
        capture_config = record empty_capture_config { path_param = "id" };
      },
    )
    ∷ []

matched : is_some (match_path plain users exchange.request.path) ≡ true
unfolding match_path match_segments match_segment segments before_wildcard is_pure_parameter
    contains count_char has_prefix has_suffix split trim trim_left trim_right lookup
matched = refl

-- A request that is shorter than the path of the resource has no such parameters.
too_short : extract_path_params "/" "/users/{id}" ≡ none
unfolding extract_path_params path_params_from segments split trim trim_left trim_right has_prefix
    has_suffix
too_short = refl
