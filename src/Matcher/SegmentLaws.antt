-- ===== src/Matcher/SegmentLaws.antt =====
-- A mixed segment matches exactly the texts that its pieces can make.
use Prim.Native.Char.{Char}
use Prim.Native.String.{[], ◌∷◌}
use text.Mathlib.TextLemmas.{nil-append, cons-append, append_assoc, append-nil}
use imposter_go.Common.{
  String, ◌≡◌, sym, ◌∙◌, ap, true, false, Option, some, List, arith, eq_iff, Option-cases,
  Bool-cases, inl, inr, is_some,
}
use imposter_go.Common.Text.{concat, is_code, cut_prefix}
use imposter_go.Common.Text.Laws.{cut_prefix-concat, cut_prefix_sound}
use imposter_go.Matcher.Segment.{Piece, literal, group, lazy, match_pieces}

abbrev pub HasNoSlash : String → Type 0
HasNoSlash [] = Unit
HasNoSlash (c ∷ s) = (is_code c b'/' ≡ false) × HasNoSlash s

-- `s` is the text of the pieces, with the values in the places of the groups.
abbrev pub Renders : List Piece → List String → String → Type 0
Renders List.[] List.[] s = s ≡ ""
Renders List.[] (List.◌∷◌ v vs) s = ⊥
Renders (List.◌∷◌ (literal text) ps) vs s =
    (rest : String) × (s ≡ concat text rest) × Renders ps vs rest
Renders (List.◌∷◌ (group name) ps) List.[] s = ⊥
Renders (List.◌∷◌ (group name) ps) (List.◌∷◌ v vs) s =
    (rest : String) × (s ≡ concat v rest) × HasNoSlash v × Renders ps vs rest

cons_head : {x y : String} {xs ys : List String} → List.◌∷◌ x xs ≡ List.◌∷◌ y ys → x ≡ y
cons_head e = cc

cons_tail : {x y : String} {xs ys : List String} → List.◌∷◌ x xs ≡ List.◌∷◌ y ys → xs ≡ ys
cons_tail e = cc

push :
    (taken : String) (c : Char) (v : String)
    → concat (concat taken (c ∷ [])) v ≡ concat taken (c ∷ v)
push taken c v =
    append_assoc taken (c ∷ []) v
    ∙ ap (concat taken) (cons-append c [] v ∙ ap (λ t. c ∷ t) (nil-append v))

lazy_sound :
    (rest : String → Option (List String)) (s taken : String) (vs : List String)
    → lazy rest s taken ≡ some vs
    → (v r : String) × (vs' : List String) × (vs ≡ List.◌∷◌ (concat taken v) vs')
      × (s ≡ concat v r)
      × HasNoSlash v
      × (rest r ≡ some vs')
unfolding lazy
lazy_sound rest [] taken vs h = elim (Option-cases (rest "")) [
  | inl e ↦ absurd (ground arith)
  | inr (vs', e) ↦ ("", "", vs', rw append-nil (ground arith), sym (nil-append ""), tt, e)
]
lazy_sound rest (c ∷ s) taken vs h = elim (Option-cases (rest (c ∷ s))) [
  | inr (vs', e) ↦ ("", c ∷ s, vs', rw append-nil (ground arith), sym (nil-append (c ∷ s)), tt, e)
  | inl e ↦ elim (Bool-cases (is_code c b'/')) [
    | inl slash ↦ absurd (ground arith)
    | inr plain ↦
        let (v, r, vs', e1, e2, e3, e4) =
          lazy_sound rest s (concat taken (c ∷ [])) vs (ground arith) in
        (
          c ∷ v,
          r,
          vs',
          e1 ∙ ap (λ t. List.◌∷◌ t vs') (push taken c v),
          rw cons-append (ap (λ t. c ∷ t) e2),
          (plain, e3),
          e4,
        )
  ]
]

-- The values that the groups of a pattern match make up the text, in their places, and have no
-- slash.
pub match_pieces_sound :
    (ps : List Piece) (s : String) (vs : List String)
    → match_pieces ps s ≡ some vs
    → Renders ps vs s
unfolding match_pieces
match_pieces_sound List.[] s List.[] h = ground (arith, eq_iff s "")
match_pieces_sound List.[] s (List.◌∷◌ v vs) h = absurd (ground arith)
match_pieces_sound (List.◌∷◌ (literal text) ps) s vs h = elim (Option-cases (cut_prefix s text)) [
  | inl e ↦ absurd (ground arith)
  | inr (rest, e) ↦
      (rest, cut_prefix_sound s text rest e, match_pieces_sound ps rest vs (ground arith))
]
match_pieces_sound (List.◌∷◌ (group name) ps) s List.[] h =
    let (v, r, vs', e1, e2, e3, e4) = lazy_sound (match_pieces ps) s "" List.[] h in cc e1
match_pieces_sound (List.◌∷◌ (group name) ps) s (List.◌∷◌ v vs) h =
    let (v', r, vs', e1, e2, e3, e4) = lazy_sound (match_pieces ps) s "" (List.◌∷◌ v vs) h in
    let same : v ≡ v' = cons_head e1 ∙ nil-append v' in
    let later : vs ≡ vs' = cons_tail e1 in
    (r, e2 ∙ ap (λ t. concat t r) (sym same), rw same e3, rw later (match_pieces_sound ps r vs' e4))

lazy_at_once :
    (rest : String → Option (List String)) (r taken : String)
    → is_some (rest r) ≡ true
    → is_some (lazy rest r taken) ≡ true
unfolding lazy
lazy_at_once rest [] taken h = ground arith
lazy_at_once rest (c ∷ s) taken h = ground arith

lazy_complete :
    (rest : String → Option (List String)) (v r taken : String)
    → HasNoSlash v
    → is_some (rest r) ≡ true
    → is_some (lazy rest (concat v r) taken) ≡ true
unfolding lazy
lazy_complete rest [] r taken ns h = rw nil-append (lazy_at_once rest r taken h)
lazy_complete rest (c ∷ v) r taken (plain, ns) h =
    rw cons-append (ground (arith, lazy_complete rest v r (concat taken (c ∷ [])) ns h))

-- A text that the pieces can make up, with values that have no slash, is matched.
pub match_pieces_complete :
    (ps : List Piece) (vs : List String) (s : String)
    → Renders ps vs s
    → is_some (match_pieces ps s) ≡ true
unfolding match_pieces
match_pieces_complete List.[] List.[] s e = ground (arith, eq_iff s "")
match_pieces_complete (List.◌∷◌ (literal text) ps) vs s (rest, e, h) =
    rw e (ground (arith, cut_prefix-concat text rest, match_pieces_complete ps vs rest h))
match_pieces_complete (List.◌∷◌ (group name) ps) (List.◌∷◌ v vs) s (rest, e, ns, h) =
    rw e (lazy_complete (match_pieces ps) v rest "" ns (match_pieces_complete ps vs rest h))
match_pieces_complete List.[] (List.◌∷◌ v vs) s h = elim h [ ]
match_pieces_complete (List.◌∷◌ (group name) ps) List.[] s h = elim h [ ]
