-- ===== src/Path/Laws.antt =====
-- What ValidatePath lets through.
use imposter_go.Common.{
  get_or, eq_iff, String, ◌≡◌, ap, sym, ◌∙◌, Bool, true, false, not, ◌&&◌, ◌||◌, none, some, List,
  [], ◌∷◌, ◌==◌, if◌then◌else◌, arith, Bool-cases,
}
use imposter_go.Common.Text.{concat, has_prefix, join, split, all_chars}
use imposter_go.Common.Text.Laws.{
  not_slash, split-slash_free, has_prefix-cut_prefix, has_prefix_self,
}
use text.Mathlib.TextLemmas.{append_assoc, cons≢nil}
use mathlib.Core.Logic.{inl, inr}
use imposter_go.Common.Lists.{All}
use imposter_go.Path.{parent, push, clean_parts, reversed, clean, join_path, validate_path}

-- A component that names a file or a directory: not "", "." or "..", and without a slash.
abbrev pub is_name : String → Bool
is_name s = not (s == "" || (s == "." || s == "..")) && all_chars not_slash s

abbrev IsNamed : List String → Type 0
IsNamed ss = All (λ s. is_name s ≡ true) ss

push-IsNamed :
    (out : List String) (s : String)
    → all_chars not_slash s ≡ true
    → IsNamed out
    → IsNamed (push true out s)
unfolding push parent
push-IsNamed [] s free h = ground arith
push-IsNamed (t ∷ out) s free h = ground arith

clean_parts-IsNamed :
    (out ss : List String)
    → All (λ s. all_chars not_slash s ≡ true) ss
    → IsNamed out
    → IsNamed (clean_parts true out ss)
unfolding clean_parts
clean_parts-IsNamed out [] free h = h
clean_parts-IsNamed out (s ∷ ss) free h =
    clean_parts-IsNamed (push true out s) ss free.1 (push-IsNamed out s free.0 h)

reversed-IsNamed : (ss out : List String) → IsNamed ss → IsNamed out → IsNamed (reversed ss out)
unfolding reversed
reversed-IsNamed [] out h k = k
reversed-IsNamed (s ∷ ss) out h k = reversed-IsNamed ss (s ∷ out) h.1 (h.0, k)

clean_rooted :
    (s : String)
    → has_prefix s "/" ≡ true
    → (names : List String) × (clean s ≡ concat "/" (join names "/")) × IsNamed names
unfolding clean
clean_rooted s h = (
  reversed (clean_parts true [] (split s b'/')) [],
  ap
      (λ b.
        if b
        then concat "/" (join (reversed (clean_parts b [] (split s b'/')) []) "/")
        else elim (reversed (clean_parts b [] (split s b'/')) []) [
          | [] ↦ "."
          | n ∷ ns ↦ join (n ∷ ns) "/"
        ])
      h,
  reversed-IsNamed (clean_parts true [] (split s b'/')) []
      (clean_parts-IsNamed [] (split s b'/') (split-slash_free s) tt) tt,
)

concat_rooted : (s t : String) → has_prefix s "/" ≡ true → has_prefix (concat s t) "/" ≡ true
concat_rooted s t h =
    let (r, e) = has_prefix-cut_prefix s "/" h in
    rw e (rw append_assoc (has_prefix_self "/" (concat r t)))

rooted_nonempty : (dir : String) → has_prefix dir "/" ≡ true → (dir == "") ≡ false
unfolding has_prefix
rooted_nonempty String.[] h = cc
rooted_nonempty (String.◌∷◌ c s) h = elim (Bool-cases (String.◌∷◌ c s == "")) [
  | inr other ↦ other
  | inl empty ↦ elim (cons≢nil ((eq_iff (String.◌∷◌ c s) "").0 empty)) [ ]
]

join_path_rooted :
    (dir path : String) → has_prefix dir "/" ≡ true → has_prefix (join_path dir path) "/" ≡ true
unfolding join_path
join_path_rooted dir path h =
    let (names, c, n) =
      clean_rooted (concat dir (concat "/" path)) (concat_rooted dir (concat "/" path) h) in
    rw (rooted_nonempty dir h) (rw c (has_prefix_self "/" (join names "/")))

-- A path that is let through, under an absolute directory, is the cleaned directory, a slash and
-- more; it is a slash and names with slashes between them, none of which is "", "." or ".." or has a
-- slash, so no component leads out of the directory again.
pub validate_path-inside :
    (path dir p : String)
    → has_prefix dir "/" ≡ true
    → validate_path path dir ≡ some p
    → (names : List String) × (rest : String) × (p ≡ concat "/" (join names "/"))
      × All (λ s. is_name s ≡ true) names
      × (p ≡ concat (concat (clean dir) "/") rest)
unfolding validate_path
validate_path-inside path dir p h e =
    let (names, c, n) = clean_rooted (join_path dir path) (join_path_rooted dir path h) in
    let file = clean (join_path dir path) in
    elim (Bool-cases (has_prefix file (concat (clean dir) "/"))) [
      | inr out ↦ cc
      | inl within ↦
          let (rest, r) = has_prefix-cut_prefix file (concat (clean dir) "/") within in
          let same =
            ap (λ o. get_or o p) (sym e ∙ ap (λ b. if b then some file else none) within) in
          (names, rest, same ∙ c, n, same ∙ r)
    ]
