-- ===== src/Common/Text/Laws.antt =====
-- Laws of prefixes.
use Prim.Native.Nat.{ℕ, compare, Ordering}
use Prim.Native.Char.{Char}
use Prim.Native.String.{String, [], ◌∷◌}
use mathlib.Core.Path.{◌≡◌, refl, ap, ap₂, sym, ◌∙◌}
use mathlib.Core.Bool.{Bool, false, true, cond, ◌&&◌}
use mathlib.Core.Logic.{inl, inr}
use mathlib.Core.Option.{none, some}
use native.Mathlib.Omega.{arith}
use text.Mathlib.Text.{◌==◌}
use text.Mathlib.TextEquality.{Char-path, eq_iff}
use text.Mathlib.TextLemmas.{nil-append, cons-append, append_cancel_left}
use imposter_go.Common.Cases.{Bool-cases}
use imposter_go.Common.Lists.{All}
use imposter_go.Common.Text.{
  split, split_from, all_chars, is_code, same_char, concat, has_prefix, in_cutset, trim_left,
  trim_right, trim, cut_prefix, trim_prefix,
}

pub same_char_refl : (c : Char) → same_char c c ≡ true
same_char_refl c = ground arith

pub eq_of_same_char : (c d : Char) → same_char c d ≡ true → c ≡ d
eq_of_same_char c d h = Char-path c d (ground arith)

-- A shared beginning does not matter to a prefix.
pub has_prefix-concat : (p s t : String) → has_prefix (concat p s) (concat p t) ≡ has_prefix s t
unfolding has_prefix
has_prefix-concat [] s t = rw (nil-append, nil-append)
has_prefix-concat (c ∷ p) s t =
    rw (cons-append, cons-append, same_char_refl c) (has_prefix-concat p s t)

pub has_prefix_self : (p s : String) → has_prefix (concat p s) p ≡ true
unfolding has_prefix
has_prefix_self [] s = refl
has_prefix_self (c ∷ p) s = rw (cons-append, same_char_refl c) (has_prefix_self p s)

-- What is cut off is the text after the prefix, and only that.
pub cut_prefix-concat : (p s : String) → cut_prefix (concat p s) p ≡ some s
unfolding cut_prefix
cut_prefix-concat [] s = rw nil-append
cut_prefix-concat (c ∷ p) s = rw (cons-append, same_char_refl c) (cut_prefix-concat p s)

pub trim_prefix-concat : (p s : String) → trim_prefix (concat p s) p ≡ s
unfolding trim_prefix
trim_prefix-concat p s = rw (cut_prefix-concat p s, trim_prefix)

pub cut_prefix_sound : (s p r : String) → cut_prefix s p ≡ some r → s ≡ concat p r
unfolding cut_prefix
cut_prefix_sound s [] r h = rw nil-append (ground arith)
cut_prefix_sound [] (d ∷ p) r h = cc
cut_prefix_sound (c ∷ s) (d ∷ p) r h = elim (Bool-cases (same_char c d)) [
  | inr other ↦ cc
  | inl same ↦ rw cons-append (
      ap₂ (λ x y. x ∷ y) (eq_of_same_char c d same)
        (cut_prefix_sound s p r (ap (λ b. cond b (cut_prefix s p) none) (sym same) ∙ h)))
]

-- A text has a prefix exactly where something is left when the prefix is cut off.
pub has_prefix-cut_prefix : (s p : String) → has_prefix s p ≡ true → (r : String) × (s ≡ concat p r)
unfolding has_prefix
has_prefix-cut_prefix s [] h = (s, sym (nil-append s))
has_prefix-cut_prefix [] (d ∷ p) h = cc
has_prefix-cut_prefix (c ∷ s) (d ∷ p) h = elim (Bool-cases (same_char c d)) [
  | inr other ↦ cc
  | inl same ↦
      let (r, e) = has_prefix-cut_prefix s p (ap (λ b. b && has_prefix s p) (sym same) ∙ h) in
      (r, rw cons-append (ap₂ (λ x y. x ∷ y) (eq_of_same_char c d same) e))
]

-- A shared beginning does not matter to an equality.
pub eq-concat : (p s t : String) → (concat p s == concat p t) ≡ (s == t)
eq-concat p s t = ground (
  arith,
  eq_iff (concat p s) (concat p t),
  eq_iff s t,
  append_cancel_left p s t,
  λ (e : s ≡ t). ap (concat p) e,
)

-- Whether a code is not that of a slash.
abbrev pub not_slash : ℕ → Bool
not_slash k = elim (compare k b'/') [ Ordering.eq ↦ false | _ ↦ true ]

all_chars-concat :
    (p : ℕ → Bool) (s t : String) → all_chars p (concat s t) ≡ (all_chars p s && all_chars p t)
unfolding all_chars
all_chars-concat p [] t = rw nil-append refl
all_chars-concat p (c ∷ s) t = rw cons-append (ground (arith, all_chars-concat p s t))

split_from-slash_free :
    (s piece : String)
    → all_chars not_slash piece ≡ true
    → All (λ t. all_chars not_slash t ≡ true) (split_from s b'/' piece)
unfolding split_from all_chars
split_from-slash_free [] piece h = (h, tt)
split_from-slash_free (c ∷ s) piece h = elim (Bool-cases (is_code c b'/')) [
  | inl slash ↦ rw slash (h, split_from-slash_free s [] refl)
  | inr other ↦ rw other (
      split_from-slash_free s (concat piece (c ∷ []))
        (ground (arith, other, h, all_chars-concat not_slash piece (c ∷ []))))
]

-- The pieces of a text that is split at its slashes have none.
pub split-slash_free : (s : String) → All (λ t. all_chars not_slash t ≡ true) (split s b'/')
unfolding split all_chars
split-slash_free s = split_from-slash_free s [] refl

-- Whether all characters of a text are in a cutset, whether the first is, and whether the last is.
abbrev all_in : String → String → Bool
all_in cutset [] = true
all_in cutset (c ∷ s) = in_cutset c cutset && all_in cutset s

abbrev starts_in : String → String → Bool
starts_in cutset [] = false
starts_in cutset (c ∷ s) = in_cutset c cutset

abbrev ends_in : String → String → Bool
ends_in cutset [] = false
ends_in cutset (c ∷ []) = in_cutset c cutset
ends_in cutset (c ∷ (d ∷ s)) = ends_in cutset (d ∷ s)

-- A text without the characters of a cutset around it.
abbrev pub IsTrimmed : String → String → String → Type 0
IsTrimmed cutset s t =
    (before after : String) × (s ≡ concat before (concat t after))
    × (all_in cutset before ≡ true)
    × (all_in cutset after ≡ true)
    × (starts_in cutset t ≡ false)
    × (ends_in cutset t ≡ false)

trim_left_lem :
    (s cutset : String)
    → (before : String) × (s ≡ concat before (trim_left s cutset))
      × (all_in cutset before ≡ true)
      × (starts_in cutset (trim_left s cutset) ≡ false)
unfolding trim_left
trim_left_lem [] cutset = ([], sym (nil-append []), refl, refl)
trim_left_lem (c ∷ s) cutset = elim (Bool-cases (in_cutset c cutset)) [
  | inl cut ↦
      let (before, same, all, first) = trim_left_lem s cutset in
      rw cut (c ∷ before, rw cons-append (ap (λ t. c ∷ t) same), rw cut all, first)
  | inr kept ↦ rw kept ([], sym (nil-append (c ∷ s)), refl, kept)
]

ends_in-cons :
    (c : Char) (s cutset : String)
    → (s == []) ≡ false
    → ends_in cutset s ≡ false
    → ends_in cutset (c ∷ s) ≡ false
ends_in-cons c [] cutset some_left last = absurd (ground arith)
ends_in-cons c (d ∷ s) cutset some_left last = last

trim_right_lem :
    (s cutset : String)
    → (after : String) × (s ≡ concat (trim_right s cutset) after)
      × (all_in cutset after ≡ true)
      × (ends_in cutset (trim_right s cutset) ≡ false)
unfolding trim_right
trim_right_lem [] cutset = ([], sym (nil-append []), refl, refl)
trim_right_lem (c ∷ s) cutset =
    let (after, same, all, last) = trim_right_lem s cutset in
    let rest = trim_right s cutset in
    elim (Bool-cases (rest == [])) [
      | inl empty ↦
          let gone : rest ≡ [] = ground (arith, empty, eq_iff rest []) in
          let left : s ≡ after = same ∙ ap (λ t. concat t after) gone ∙ nil-append after in
          elim (Bool-cases (in_cutset c cutset)) [
            | inl cut ↦
                rw (empty, cut) (c ∷ after, rw nil-append (ap (λ t. c ∷ t) left), rw cut all, refl)
            | inr kept ↦
                rw (empty, kept) (after, rw cons-append (ap (λ t. c ∷ t) same), all, rw gone kept)
          ]
      | inr given ↦
          rw given (
            after,
            rw cons-append (ap (λ t. c ∷ t) same),
            all,
            ends_in-cons c rest cutset given last,
          )
    ]

starts_in-trim_right :
    (s cutset : String)
    → starts_in cutset s ≡ false
    → starts_in cutset (trim_right s cutset) ≡ false
unfolding trim_right
starts_in-trim_right [] cutset h = refl
starts_in-trim_right (c ∷ s) cutset h = elim (Bool-cases (trim_right s cutset == [])) [
  | inl empty ↦ rw (empty, h) h
  | inr given ↦ rw given h
]

pub trim-IsTrimmed : (s cutset : String) → IsTrimmed cutset s (trim s cutset)
unfolding trim
trim-IsTrimmed s cutset =
    let (before, same, all, first) = trim_left_lem s cutset in
    let (after, same', all', last) = trim_right_lem (trim_left s cutset) cutset in
    (
      before,
      after,
      same ∙ ap (concat before) same',
      all,
      all',
      starts_in-trim_right (trim_left s cutset) cutset first,
      last,
    )
