-- ===== src/Path.antt =====
-- The functions of Go's path/filepath that the program uses (on slash-separated paths), and
-- ValidatePath of pkg/utils/files.go.
pub mod Laws
mod Tests
use imposter_go.Common.{
  ℕ, String, Bool, true, false, not, ◌||◌, Option, none, some, List, [], ◌∷◌, ◌==◌, if◌then◌else◌,
}
use imposter_go.Common.Text.{is_code, concat, has_prefix, split, join, contains}
use Prim.Native.String

-- One component of a path, on the components before it, the last one first.
unfoldable pub parent : Bool → List String → List String
parent rooted [] = if rooted then [] else ".." ∷ []
parent rooted (t ∷ out) = if t == ".." then ".." ∷ t ∷ out else out

unfoldable pub push : Bool → List String → String → List String
push rooted out s =
    if s == "" || s == "." then out else if s == ".." then parent rooted out else s ∷ out

unfoldable pub clean_parts : Bool → List String → List String → List String
clean_parts rooted out [] = out
clean_parts rooted out (s ∷ rest) = clean_parts rooted (push rooted out s) rest

unfoldable pub reversed : List String → List String → List String
reversed [] out = out
reversed (s ∷ ss) out = reversed ss (s ∷ out)

-- filepath.Clean(path)
unfoldable pub clean : String → String
clean path =
    let rooted = has_prefix path "/" in
    let parts = reversed (clean_parts rooted [] (split path b'/')) [] in
    if rooted
    then concat "/" (join parts "/")
    else elim parts [ [] ↦ "." | s ∷ ss ↦ join (s ∷ ss) "/" ]

-- filepath.Join(dir, path)
unfoldable pub join_path : String → String → String
join_path dir path =
    if dir == ""
    then (if path == "" then "" else clean path)
    else clean (concat dir (concat "/" path))

-- What follows the last "." of the last component, with it: filepath.Ext(path). `found` is the
-- extension of the part that has been read.
unfoldable pub ext_from : String → String → String
ext_from String.[] found = found
ext_from (String.◌∷◌ c s) found =
    ext_from s (if is_code c b'/' then "" else if is_code c b'.' then String.◌∷◌ c s else found)

unfoldable pub ext : String → String
ext path = ext_from path ""

-- ValidatePath: the path below the directory, or none where it leaves the directory.
unfoldable pub validate_path : String → String → Option String
validate_path path config_dir =
    let file_path = clean (join_path config_dir path) in
    if has_prefix file_path (concat (clean config_dir) "/") then some file_path else none
