-- ===== src/Common/Map.antt =====
-- Go's maps with string keys, as association lists. The order of iteration of a Go map is
-- unspecified; a loop over a map here goes through the list.
pub mod Each
use Prim.Native.String.{String}
use mathlib.Core.Path.{◌≡◌, refl}
use mathlib.Core.Bool.{Bool, cond}
use mathlib.Core.Option.{Option, none, some}
use mathlib.Core.List.{List, [], ◌∷◌}
use native.Mathlib.Omega.{arith}
use text.Mathlib.Text.{◌==◌}
use text.Mathlib.TextEquality.{eq_iff}

abbrev pub Map {ℓ} : Type ℓ → Type ℓ
Map V = List (String × V)

module _ {ℓ} {V : Type ℓ} where
  -- v, ok := m[k]
  unfoldable pub lookup : String → Map V → Option V
  lookup k [] = none
  lookup k ((j, v) ∷ m) = cond (j == k) (some v) (lookup k m)

  -- m[k] = v
  unfoldable pub insert : String → V → Map V → Map V
  insert k v [] = (k, v) ∷ []
  insert k v ((j, w) ∷ m) = cond (j == k) ((k, v) ∷ m) ((j, w) ∷ insert k v m)

  -- delete(m, k)
  unfoldable pub erase : String → Map V → Map V
  erase k [] = []
  erase k ((j, v) ∷ m) = let rest = erase k m in cond (j == k) rest ((j, v) ∷ rest)

  pub lookup-insert :
      (k other : String) (v : V) (m : Map V)
      → lookup other (insert k v m) ≡ cond (k == other) (some v) (lookup other m)
  unfolding lookup insert
  lookup-insert k other v [] = refl
  lookup-insert k other v ((head, w) ∷ rest) =
      ground (arith, lookup-insert k other v rest, eq_iff head k, eq_iff head other, eq_iff k other)

  pub lookup-erase :
      (k j : String) (m : Map V) → lookup j (erase k m) ≡ cond (k == j) none (lookup j m)
  unfolding lookup erase
  lookup-erase k j [] = ground arith
  lookup-erase k j ((i, v) ∷ m) =
      ground (arith, lookup-erase k j m, eq_iff i k, eq_iff i j, eq_iff k j)

pub lookup-empty {ℓ} : {V : Type ℓ} (k : String) → lookup {V = V} k [] ≡ none
unfolding lookup
lookup-empty k = refl

pub ruleset map_laws = (lookup-empty, lookup-insert, lookup-erase)

-- The copy of one map onto another: for k, v := range src { dst[k] = v }.
unfoldable pub copy_into {ℓ} : {V : Type ℓ} → Map V → Map V → Map V
copy_into [] dst = dst
copy_into ((k, v) ∷ src) dst = copy_into src (insert k v dst)

-- for k, v := range m { if test(v) { delete(m, k) } }
unfoldable pub drop_where {ℓ} : {V : Type ℓ} → (V → Bool) → Map V → Map V
drop_where test [] = []
drop_where test ((k, v) ∷ m) = let rest = drop_where test m in cond (test v) rest ((k, v) ∷ rest)

-- No key is added.
pub lookup-drop_where {ℓ} :
    {V : Type ℓ} (test : V → Bool) (k : String) (m : Map V)
    → lookup k m ≡ none
    → lookup k (drop_where test m) ≡ none
unfolding lookup drop_where
lookup-drop_where test k [] h = h
lookup-drop_where test k ((j, v) ∷ m) h = ground (arith, lookup-drop_where test k m)
