-- ===== src/Common/Map/Each.antt =====
-- What holds of every value of a map, through its operations.
use Prim.Native.String.{String}
use mathlib.Core.Path.{◌≡◌, subst}
use mathlib.Core.Bool.{Bool, false}
use mathlib.Core.Logic.{inl, inr}
use mathlib.Core.Option.{some}
use mathlib.Core.List.{[], ◌∷◌}
use native.Mathlib.Omega.{arith}
use text.Mathlib.Text.{◌==◌}
use imposter_go.Common.Cases.{Bool-cases}
use imposter_go.Common.Map.{Map, lookup, insert, erase, drop_where}

abbrev pub Each : {V : Type 0} → (V → Type 0) → Map V → Type 0
Each P [] = Unit {0}
Each P ((k, v) ∷ m) = P v × Each P m

module _ {V : Type 0} (P : V → Type 0) where
  pub Each-insert : (k : String) (v : V) (m : Map V) → P v → Each P m → Each P (insert k v m)
  unfolding insert
  Each-insert k v [] p h = (p, tt)
  Each-insert k v ((j, w) ∷ m) p (pw, h) = elim (Bool-cases (j == k)) [
    | inl same ↦ rw same (p, h)
    | inr other ↦ rw other (pw, Each-insert k v m p h)
  ]

  pub Each-erase : (k : String) (m : Map V) → Each P m → Each P (erase k m)
  unfolding erase
  Each-erase k [] h = tt
  Each-erase k ((j, w) ∷ m) (pw, h) = elim (Bool-cases (j == k)) [
    | inl same ↦ rw same (Each-erase k m h)
    | inr other ↦ rw other (pw, Each-erase k m h)
  ]

  pub Each-drop_where : (test : V → Bool) (m : Map V) → Each P m → Each P (drop_where test m)
  unfolding drop_where
  Each-drop_where test [] h = tt
  Each-drop_where test ((j, w) ∷ m) (pw, h) = elim (Bool-cases (test w)) [
    | inl dropped ↦ rw dropped (Each-drop_where test m h)
    | inr kept ↦ rw kept (pw, Each-drop_where test m h)
  ]

  pub Each-lookup : (k : String) (m : Map V) {v : V} → Each P m → lookup k m ≡ some v → P v
  unfolding lookup
  Each-lookup k [] h e = cc
  Each-lookup k ((j, w) ∷ m) {v} (pw, h) e = elim (Bool-cases (j == k)) [
    | inl same ↦ let found : w ≡ v = ground arith in subst P found pw
    | inr other ↦ Each-lookup k m h (ground arith)
  ]

-- No value that passes the test is left.
pub drop_where-Each :
    {V : Type 0} (test : V → Bool) (m : Map V) → Each (λ v. test v ≡ false) (drop_where test m)
unfolding drop_where
drop_where-Each test [] = tt
drop_where-Each test ((j, w) ∷ m) = elim (Bool-cases (test w)) [
  | inl dropped ↦ rw dropped (drop_where-Each test m)
  | inr kept ↦ rw kept (kept, drop_where-Each test m)
]

-- A value that does not pass it stays where it was.
pub drop_where-kept :
    {V : Type 0} (test : V → Bool) (k : String) (m : Map V) (v : V)
    → lookup k m ≡ some v
    → test v ≡ false
    → lookup k (drop_where test m) ≡ some v
unfolding lookup drop_where
drop_where-kept test k [] v e kept = e
drop_where-kept test k ((j, w) ∷ m) v e kept = ground (arith, drop_where-kept test k m v, kept)
