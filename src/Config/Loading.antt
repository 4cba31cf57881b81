-- ===== src/Config/Loading.antt =====
-- internal/config/config.go and prefix.go: the settings of the environment, what LoadConfig does with the
-- configurations of a file, and the merging of websocket configurations.
pub mod Laws
mod Tests
use imposter_go.Common.{
  ℕ, ◌+◌, String, Bool, true, false, not, ◌&&◌, ◌||◌, Option, none, some, List, [], ◌∷◌, ◌++◌, ◌==◌,
  if◌then◌else◌, get_or,
}
use imposter_go.Common.Lists.{any}
use imposter_go.Common.Map.{Map, lookup, copy_into}
use imposter_go.Common.Text.{concat, contains, has_prefix, has_suffix, join, split, trim_space}
use imposter_go.Common.Text.Case.{equal_fold}
use imposter_go.Config.{
  Config, Resource, Interceptor, BaseResource, RequestMatcher, Response, Schedule, Step, System,
  StoreDefinition,
}
use imposter_go.Path.{join_path}

-- ImposterConfig
pub record ImposterConfig : Type 0 where
  pub legacy_config_supported : Bool
  pub server_port : String
  pub server_url : String
  pub tls_cert_file : String
  pub tls_key_file : String
  pub http2_enabled : Bool

-- LoadImposterConfig, over os.Getenv and the flag for legacy configurations.
unfoldable pub load_imposter_config : (String → String) → Bool → ImposterConfig
load_imposter_config getenv legacy =
    let port = if getenv "IMPOSTER_PORT" == "" then "8080" else getenv "IMPOSTER_PORT" in
    let cert = getenv "IMPOSTER_TLS_CERT_FILE" in
    let key = getenv "IMPOSTER_TLS_KEY_FILE" in
    let complete = not (cert == "") && not (key == "") in
    let scheme = if complete then "https" else "http" in
    let host_suffix = if not (port == "80") && not (port == "443") then concat ":" port else "" in
    let url = getenv "IMPOSTER_SERVER_URL" in
    record {
      legacy_config_supported = legacy;
      server_port = port;
      server_url = if url == "" then concat scheme (concat "://localhost" host_suffix) else url;
      tls_cert_file = if complete then cert else "";
      tls_key_file = if complete then key else "";
      http2_enabled = not (equal_fold (getenv "IMPOSTER_HTTP2_ENABLED") "false");
    }

-- A path below the directory of its configuration file, where there is a path.
abbrev below : String → String → String
below rel_dir path = if path == "" then path else join_path rel_dir path

-- prefixResponseFiles
unfoldable pub prefix_response_files : String → Response → Response
prefix_response_files rel_dir r =
    if rel_dir == "."
    then r
    else record r { file = below rel_dir r.file; dir = below rel_dir r.dir }

unfoldable pub prefix_optional : String → Option Response → Option Response
prefix_optional rel_dir none = none
prefix_optional rel_dir (some r) = some (prefix_response_files rel_dir r)

unfoldable pub prefix_responses : String → List Response → List Response
prefix_responses rel_dir [] = []
prefix_responses rel_dir (r ∷ rs) = prefix_response_files rel_dir r ∷ prefix_responses rel_dir rs

-- prefixStepFiles
unfoldable pub prefix_step_files : String → List Step → List Step
prefix_step_files rel_dir [] = []
prefix_step_files rel_dir (s ∷ ss) =
    (if rel_dir == "." then s else record s { file = below rel_dir s.file })
    ∷ prefix_step_files rel_dir ss

-- prefixScheduleFiles
unfoldable pub prefix_schedule_files : String → List Schedule → List Schedule
prefix_schedule_files rel_dir [] = []
prefix_schedule_files rel_dir (s ∷ ss) =
    record s {
      response = prefix_optional rel_dir s.response;
      responses = prefix_responses rel_dir s.responses;
      steps = prefix_step_files rel_dir s.steps;
    }
    ∷ prefix_schedule_files rel_dir ss

-- What a file says besides a Config: the base path, and the files of the plugins.
pub record FileConfig : Type 0 where
  pub config : Config
  pub base_path : String
  pub spec_file : String
  pub wsdl_file : String

-- urlpath.Join(basePath, path), where there is a base path.
abbrev with_base : String → BaseResource → BaseResource
with_base base_path r = if base_path == "" then r else record r {
  request_matcher = record r.request_matcher { path = join_path base_path r.path };
}

unfoldable pub load_resource : String → String → Resource → Resource
load_resource rel_dir base_path r = record r {
  base = record (with_base base_path r.base) {
    response = prefix_optional rel_dir r.response;
    responses = prefix_responses rel_dir r.responses;
    steps = prefix_step_files rel_dir r.steps;
    schedule = prefix_schedule_files rel_dir r.schedule;
  };
}

unfoldable pub load_resources : String → String → List Resource → List Resource
load_resources rel_dir base_path [] = []
load_resources rel_dir base_path (r ∷ rs) =
    load_resource rel_dir base_path r ∷ load_resources rel_dir base_path rs

-- An interceptor without a path stays without one.
unfoldable pub load_interceptors : String → List Interceptor → List Interceptor
load_interceptors base_path [] = []
load_interceptors base_path (i ∷ is) =
    record i { base = if i.path == "" then i.base else with_base base_path i.base }
    ∷ load_interceptors base_path is

-- A file that is named by a relative path.
abbrev relative_to : String → String → String
relative_to rel_dir file =
    if not (file == "") && not (has_prefix file "/") then join_path rel_dir file else file

unfoldable pub load_stores : String → Map StoreDefinition → Map StoreDefinition
load_stores rel_dir [] = []
load_stores rel_dir ((name, store) ∷ stores) =
    (name, record store { preload_file = relative_to rel_dir store.preload_file })
    ∷ load_stores rel_dir stores

unfoldable pub load_system : String → Option System → Option System
load_system rel_dir none = none
load_system rel_dir (some s) = some (record s { stores = load_stores rel_dir s.stores })

-- The body of the loop over the configurations of a file, which lies in `rel_dir` of the root.
unfoldable pub load_file_config : Bool → String → String → FileConfig → FileConfig
load_file_config auto_base_path config_dir rel_dir f =
    let base_path =
      if auto_base_path && f.base_path == "" && not (rel_dir == ".")
      then concat "/" (join (split rel_dir b'\\') "/")
      else f.base_path in
    let c = f.config in
    record {
      config = record c {
        config_dir = config_dir;
        resources = load_resources rel_dir base_path c.resources;
        schedules = prefix_schedule_files rel_dir c.schedules;
        interceptors = load_interceptors base_path c.interceptors;
        system = load_system rel_dir c.system;
      };
      base_path = base_path;
      spec_file = if c.plugin == "openapi" then relative_to rel_dir f.spec_file else f.spec_file;
      wsdl_file = if c.plugin == "soap" then relative_to rel_dir f.wsdl_file else f.wsdl_file;
    }

-- Whether a file name is that of a configuration.
unfoldable pub is_config_file : String → Bool
is_config_file name =
    has_suffix name "-config.json"
    || has_suffix name "-config.yaml"
    || has_suffix name "-config.yml"

-- shouldIgnorePath
unfoldable pub should_ignore_path : String → List String → Bool
should_ignore_path path ignore_paths = any (λ ignored. contains path ignored) ignore_paths

-- The lines of loadIgnorePaths.
unfoldable pub ignore_lines : List String → List String
ignore_lines [] = []
ignore_lines (l ∷ ls) =
    let line = trim_space l in
    let rest = ignore_lines ls in
    if not (line == "") && not (has_prefix line "#") then line ∷ rest else rest

-- loadIgnorePaths, of the text of .imposterignore where it can be read.
unfoldable pub load_ignore_paths : Option String → List String
load_ignore_paths none = ".git" ∷ ".idea" ∷ ".svn" ∷ "node_modules" ∷ []
load_ignore_paths (some text) = ignore_lines (split text b'\n')

-- mergeSystem, on the System block of the base.
unfoldable pub merge_system : Option System → Option System → Option System
merge_system base none = base
merge_system none (some extra) = some extra
merge_system (some base) (some extra) = some (record {
  stores = copy_into extra.stores base.stores;
  xml_namespaces = copy_into extra.xml_namespaces base.xml_namespaces;
})

unfoldable pub merge_into : Config → Config → Config
merge_into base cfg = record base {
  resources = base.resources ++ cfg.resources;
  interceptors = base.interceptors ++ cfg.interceptors;
  schedules = base.schedules ++ cfg.schedules;
  system = merge_system base.system cfg.system;
}

-- The loop of coalesceWebSocketConfigs, on the result so far: what stands before the first websocket
-- configuration, that configuration, and what stands after it.
pub data Merged : Type 0 where
  unmerged : List Config → Merged
  merged : List Config → Config → List Config → Merged

unfoldable pub merge_next : Config → Merged → Merged
merge_next cfg (unmerged result) =
    if cfg.plugin == "websocket" then merged result cfg [] else unmerged (result ++ (cfg ∷ []))
merge_next cfg (merged before base later) =
    if cfg.plugin == "websocket"
    then merged before (merge_into base cfg) later
    else merged before base (later ++ (cfg ∷ []))

unfoldable pub merge_all : List Config → Merged → Merged
merge_all [] m = m
merge_all (cfg ∷ more) m = merge_all more (merge_next cfg m)

abbrev pub result_of : Merged → List Config
result_of (unmerged result) = result
result_of (merged before base later) = before ++ (base ∷ later)

-- coalesceWebSocketConfigs
unfoldable pub coalesce_web_socket_configs : List Config → List Config
coalesce_web_socket_configs configs = result_of (merge_all configs (unmerged []))
