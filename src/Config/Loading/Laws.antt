-- ===== src/Config/Loading/Laws.antt =====
-- The merging of websocket configurations.
use mathlib.Core.List.{append-nil, append_assoc}
use imposter_go.Common.{
  ◌≤◌, ◌≡◌, refl, sym, ap, ◌∙◌, Bool, true, false, List, [], ◌∷◌, ◌++◌, ◌==◌, if◌then◌else◌, inl,
  inr, arith, Bool-cases,
}
use imposter_go.Common.Lists.{length}
use imposter_go.Config.{Config, Resource}
use imposter_go.Config.Loading.{
  Merged, unmerged, merged, merge_into, merge_next, merge_all, result_of,
  coalesce_web_socket_configs,
}

abbrev is_websocket : Config → Bool
is_websocket cfg = cfg.plugin == "websocket"

-- The websocket configurations, and the others, in their order.
unfoldable pub websockets : List Config → List Config
websockets [] = []
websockets (cfg ∷ more) =
    let rest = websockets more in if is_websocket cfg then cfg ∷ rest else rest

unfoldable pub others : List Config → List Config
others [] = []
others (cfg ∷ more) = let rest = others more in if is_websocket cfg then rest else cfg ∷ rest

abbrev pub all_resources : List Config → List Resource
all_resources [] = []
all_resources (cfg ∷ more) = cfg.resources ++ all_resources more

websockets-append : (xs ys : List Config) → websockets (xs ++ ys) ≡ websockets xs ++ websockets ys
unfolding websockets
websockets-append [] ys = refl
websockets-append (x ∷ xs) ys = ground (arith, websockets-append xs ys)

others-append : (xs ys : List Config) → others (xs ++ ys) ≡ others xs ++ others ys
unfolding others
others-append [] ys = refl
others-append (x ∷ xs) ys = ground (arith, others-append xs ys)

-- Where a result stands: no websocket configuration, or one between others.
abbrev IsMerged : Merged → Type 0
IsMerged (unmerged result) = websockets result ≡ []
IsMerged (merged before base later) =
    (is_websocket base ≡ true) × (websockets before ≡ []) × (websockets later ≡ [])

-- The websocket configuration of a result.
abbrev the_websocket : Merged → List Config
the_websocket (unmerged result) = []
the_websocket (merged before base later) = base ∷ []

websockets-result_of : (m : Merged) → IsMerged m → websockets (result_of m) ≡ the_websocket m
unfolding websockets
websockets-result_of (unmerged result) h = h
websockets-result_of (merged before base later) (w, b, l) =
    ground (arith, websockets-append before (base ∷ later), w, b, l)

websockets-snoc :
    (cfg : Config) (xs : List Config)
    → is_websocket cfg ≡ false
    → websockets xs ≡ []
    → websockets (xs ++ (cfg ∷ [])) ≡ []
unfolding websockets
websockets-snoc cfg xs other h = ground (arith, websockets-append xs (cfg ∷ []))

merge_next-IsMerged : (cfg : Config) (m : Merged) → IsMerged m → IsMerged (merge_next cfg m)
unfolding merge_next merge_into
merge_next-IsMerged cfg (unmerged result) h = elim (Bool-cases (is_websocket cfg)) [
  | inl w ↦ rw w (w, h, unfold websockets in refl)
  | inr other ↦ rw other (websockets-snoc cfg result other h)
]
merge_next-IsMerged cfg (merged before base later) (w, b, l) =
    elim (Bool-cases (is_websocket cfg)) [
      | inl w' ↦ rw w' (w, b, l)
      | inr other ↦ rw other (w, b, websockets-snoc cfg later other l)
    ]

others-merge_next :
    (cfg : Config) (m : Merged)
    → IsMerged m
    → others (result_of (merge_next cfg m)) ≡ others (result_of m) ++ others (cfg ∷ [])
unfolding merge_next merge_into others
others-merge_next cfg (unmerged result) h = elim (Bool-cases (is_websocket cfg)) [
  | inl w ↦ ground (arith, others-append result (cfg ∷ []), w)
  | inr other ↦ ground (arith, others-append result (cfg ∷ []), other)
]
others-merge_next cfg (merged before base later) (w, b, l) = elim (Bool-cases (is_websocket cfg)) [
  | inl w' ↦ ground (
    arith,
    others-append before (base ∷ later),
    others-append before (merge_into base cfg ∷ later),
    w',
    w,
    append-nil (others (before ++ (base ∷ later))),
  )
  | inr other ↦ ground (
    arith,
    others-append before (base ∷ later),
    others-append before (base ∷ (later ++ (cfg ∷ []))),
    others-append later (cfg ∷ []),
    other,
    w,
    append_assoc (others before) (others later) (cfg ∷ []),
  )
]

all_resources-merge_next :
    (cfg : Config) (m : Merged)
    → all_resources (the_websocket (merge_next cfg m))
      ≡ all_resources (the_websocket m) ++ all_resources (websockets (cfg ∷ []))
unfolding merge_next merge_into websockets
all_resources-merge_next cfg (unmerged result) = ground arith
all_resources-merge_next cfg (merged before base later) = elim (Bool-cases (is_websocket cfg)) [
  | inl w ↦ rw w (simp append-nil)
  | inr other ↦ rw other (simp append-nil)
]

-- What the loop leaves.
record Loop (cs : List Config) (m : Merged) : Type 0 where
  valid : IsMerged (merge_all cs m)
  kept : others (result_of (merge_all cs m)) ≡ others (result_of m) ++ others cs
  collected :
      all_resources (the_websocket (merge_all cs m))
      ≡ all_resources (the_websocket m) ++ all_resources (websockets cs)

others-cons : (cfg : Config) (cs : List Config) → others (cfg ∷ []) ++ others cs ≡ others (cfg ∷ cs)
unfolding others
others-cons cfg cs = ground arith

websockets-cons :
    (cfg : Config) (cs : List Config)
    → all_resources (websockets (cfg ∷ [])) ++ all_resources (websockets cs)
      ≡ all_resources (websockets (cfg ∷ cs))
unfolding websockets
websockets-cons cfg cs = elim (Bool-cases (is_websocket cfg)) [
  | inl w ↦ rw w (simp append-nil)
  | inr other ↦ rw other refl
]

merge_all-Loop : (cs : List Config) (m : Merged) → IsMerged m → Loop cs m
unfolding merge_all
merge_all-Loop [] m h = record {
  valid = h;
  kept = unfold others in sym (append-nil _);
  collected = unfold websockets in sym (append-nil _);
}
merge_all-Loop (cfg ∷ cs) m h =
    let later = merge_all-Loop cs (merge_next cfg m) (merge_next-IsMerged cfg m h) in
    record {
      valid = later.valid;
      kept =
          later.kept
          ∙ ap (λ xs. xs ++ others cs) (others-merge_next cfg m h)
          ∙ append_assoc (others (result_of m)) (others (cfg ∷ [])) (others cs)
          ∙ ap (λ xs. others (result_of m) ++ xs) (others-cons cfg cs);
      collected =
          later.collected
          ∙ ap (λ xs. xs ++ all_resources (websockets cs)) (all_resources-merge_next cfg m)
          ∙ append_assoc (all_resources (the_websocket m)) (all_resources (websockets (cfg ∷ [])))
              (all_resources (websockets cs))
          ∙ ap (λ xs. all_resources (the_websocket m) ++ xs) (websockets-cons cfg cs);
    }

at_most_one : (m : Merged) → IsMerged m → length (websockets (result_of m)) ≤ 1
at_most_one (unmerged result) h = rw (websockets-result_of (unmerged result) h) (omega arith)
at_most_one (merged before base later) h =
    rw (websockets-result_of (merged before base later) h) (omega arith)

-- The merging leaves at most one websocket configuration, which has the resources of all of them in
-- their order; the other configurations are the same, in their order.
pub coalesce_web_socket_configs_lem :
    (configs : List Config)
    → (length (websockets (coalesce_web_socket_configs configs)) ≤ 1)
      × (all_resources (websockets (coalesce_web_socket_configs configs))
          ≡ all_resources (websockets configs))
      × (others (coalesce_web_socket_configs configs) ≡ others configs)
unfolding coalesce_web_socket_configs
coalesce_web_socket_configs_lem configs =
    let loop = merge_all-Loop configs (unmerged []) (unfold websockets in refl) in
    let m = merge_all configs (unmerged []) in
    (
      at_most_one m loop.valid,
      ap all_resources (websockets-result_of m loop.valid) ∙ loop.collected,
      loop.kept ∙ (unfold others in refl),
    )
