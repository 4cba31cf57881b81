-- ===== src/Path/Tests.antt =====
-- Paths below a configuration directory.
use imposter_go.Common.{String, ◌≡◌, refl, true, none, some, List}
use imposter_go.Common.Lists.{All}
use imposter_go.Common.Text.{concat, has_prefix, join, split}
use imposter_go.Path.{
  clean, validate_path, join_path, clean_parts, push, parent, reversed, ext, ext_from,
}
use imposter_go.Path.Laws.{is_name, validate_path-inside}

below : validate_path "a/../b.txt" "/etc/imposter" ≡ some "/etc/imposter/b.txt"
unfolding validate_path clean join_path clean_parts push parent reversed has_prefix join split
below = refl

-- A path that leads out of the directory.
outside : validate_path "../imposter.yaml" "/etc/imposter" ≡ none
unfolding validate_path clean join_path clean_parts push parent reversed has_prefix join split
outside = refl

rooted : has_prefix "/etc/imposter" "/" ≡ true
unfolding has_prefix
rooted = refl

extension : ext "/a.b/c.json" ≡ ".json"
unfolding ext ext_from
extension = refl

validate_path-inside_example :
    (names : List String) × (rest : String) × ("/etc/imposter/b.txt" ≡ concat "/" (join names "/"))
    × All (λ s. is_name s ≡ true) names
    × ("/etc/imposter/b.txt" ≡ concat (concat (clean "/etc/imposter") "/") rest)
validate_path-inside_example =
    validate_path-inside "a/../b.txt" "/etc/imposter" "/etc/imposter/b.txt" rooted below
