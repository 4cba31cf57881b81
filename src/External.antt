-- ===== src/External.antt =====
-- What the program calls and does not implement (third-party packages, the file system, MIME
-- tables), and the two engines that this development leaves out, as functions that the definitions
-- take.
use imposter_go.Common.{String, Bool, Option}
use imposter_go.Common.Map.{Map}
use imposter_go.Common.Value.{Value}

-- The result of a JSONPath query: a value, or an error with its message.
pub data PathResult : Type 0 where
  found : Value → PathResult
  failed : String → PathResult

-- The result of os.ReadFile.
pub data FileResult : Type 0 where
  contents : String → FileResult
  not_exist : FileResult
  unreadable : FileResult

pub record External : Type 0 where
  -- regexp2.MustCompile(pattern, 0).MatchString(text), for a pattern that compiles
  pub regexp2_match : String → String → Bool
  -- json.Unmarshal into an interface{}
  pub json_unmarshal : String → Option Value
  -- jsonpath.Get
  pub jsonpath_get : String → Value → PathResult
  -- query.XPathQuery, over xmlquery and xpath
  pub xpath_query : String → String → Map String → Option String
  -- fmt.Sprintf("%v", v)
  pub sprint : Value → String
  pub read_file : String → FileResult
  pub mime_type_by_extension : String → String
