-- ===== src/Common/Text.antt =====
-- The functions of Go's `strings` that the program uses, over native texts. They agree with the
-- functions on bytes, since the separators are ASCII.
pub mod Case
pub mod Laws
pub mod Number
use Prim.Native.Nat.{ℕ, zero, suc, ◌+◌, compare, Ordering}
use Prim.Native.Char.{Char, code}
use Prim.Native.String
use Prim.Native.String.{String, [], ◌∷◌}
use mathlib.Core.Bool.{Bool, true, false, cond, ◌&&◌, ◌||◌}
use mathlib.Core.List
use mathlib.Core.List.{List}
use mathlib.Core.Option.{Option, none, some}
use text.Mathlib.Text.{◌==◌}

-- Whether two characters are the same.
abbrev pub same_char : Char → Char → Bool
same_char c d = elim (compare (code c) (code d)) [ Ordering.eq ↦ true | _ ↦ false ]

-- Whether a character has the given code.
abbrev pub is_code : Char → ℕ → Bool
is_code c k = elim (compare (code c) k) [ Ordering.eq ↦ true | _ ↦ false ]

-- s + t
abbrev pub concat : String → String → String
concat s t = String.◌++◌ s t

-- strings.HasPrefix(s, prefix)
unfoldable pub has_prefix : String → String → Bool
has_prefix s [] = true
has_prefix [] (d ∷ prefix) = false
has_prefix (c ∷ s) (d ∷ prefix) = same_char c d && has_prefix s prefix

-- What follows the prefix, where the text has it.
unfoldable pub cut_prefix : String → String → Option String
cut_prefix s [] = some s
cut_prefix [] (d ∷ prefix) = none
cut_prefix (c ∷ s) (d ∷ prefix) = cond (same_char c d) (cut_prefix s prefix) none

-- strings.TrimPrefix(s, prefix)
unfoldable pub trim_prefix : String → String → String
unfolding cut_prefix
trim_prefix s prefix = elim (cut_prefix s prefix) [ none ↦ s | some rest ↦ rest ]

-- strings.HasSuffix(s, suffix)
unfoldable pub has_suffix : String → String → Bool
has_suffix [] suffix = [] == suffix
has_suffix (c ∷ s) suffix = (c ∷ s) == suffix || has_suffix s suffix

-- strings.TrimSuffix(s, suffix)
unfoldable pub trim_suffix : String → String → String
trim_suffix [] suffix = []
trim_suffix (c ∷ s) suffix = cond ((c ∷ s) == suffix) [] (c ∷ trim_suffix s suffix)

-- strings.Contains(s, part)
unfoldable pub contains : String → String → Bool
unfolding has_prefix
contains [] part = has_prefix [] part
contains (c ∷ s) part = has_prefix (c ∷ s) part || contains s part

-- strings.Count(s, c) of one character.
unfoldable pub count_char : String → ℕ → ℕ
count_char [] k = 0
count_char (c ∷ s) k = let rest = count_char s k in cond (is_code c k) (suc rest) rest

-- strings.Split(s, c) at one character, with the piece read so far.
unfoldable pub split_from : String → ℕ → String → List String
split_from [] k piece = List.◌∷◌ piece List.[]
split_from (c ∷ s) k piece =
    let closed = split_from s k [] in
    let longer = split_from s k (concat piece (c ∷ [])) in
    cond (is_code c k) (List.◌∷◌ piece closed) longer

unfoldable pub split : String → ℕ → List String
unfolding split_from
split s k = split_from s k []

-- strings.Join(pieces, separator)
unfoldable pub join : List String → String → String
join List.[] sep = []
join (List.◌∷◌ s List.[]) sep = s
join (List.◌∷◌ s (List.◌∷◌ t rest)) sep = concat s (concat sep (join (List.◌∷◌ t rest) sep))

-- Whether a character is in a cutset.
abbrev pub in_cutset : Char → String → Bool
in_cutset c [] = false
in_cutset c (d ∷ cutset) = same_char c d || in_cutset c cutset

unfoldable pub trim_left : String → String → String
trim_left [] cutset = []
trim_left (c ∷ s) cutset = let rest = trim_left s cutset in cond (in_cutset c cutset) rest (c ∷ s)

unfoldable pub trim_right : String → String → String
trim_right [] cutset = []
trim_right (c ∷ s) cutset =
    let rest = trim_right s cutset in cond (rest == [] && in_cutset c cutset) [] (c ∷ rest)

-- The characters of unicode.IsSpace.
abbrev pub white_space : String
white_space =
    " \t\n\u{b}\u{c}\r\u{85}\u{a0}\u{1680}\u{2000}\u{2001}\u{2002}\u{2003}\u{2004}\u{2005}\u{2006}\u{2007}\u{2008}\u{2009}\u{200a}\u{2028}\u{2029}\u{202f}\u{205f}\u{3000}"

-- strings.Trim(s, cutset)
unfoldable pub trim : String → String → String
unfolding trim_left trim_right
trim s cutset = trim_right (trim_left s cutset) cutset

-- strings.TrimSpace(s)
unfoldable pub trim_space : String → String
unfolding trim
trim_space s = trim s white_space

-- len(s): the bytes of its characters in UTF-8.
abbrev char_bytes : ℕ → ℕ
char_bytes k = elim (compare k 0x80) [
  | Ordering.lt ↦ 1
  | _ ↦ elim (compare k 0x800) [
    | Ordering.lt ↦ 2
    | _ ↦ elim (compare k 0x10000) [ Ordering.lt ↦ 3 | _ ↦ 4 ]
  ]
]

unfoldable pub byte_length : String → ℕ
byte_length [] = 0
byte_length (c ∷ s) = char_bytes (code c) + byte_length s

-- Whether the code of every character passes a test.
unfoldable pub all_chars : (ℕ → Bool) → String → Bool
all_chars p [] = true
all_chars p (c ∷ s) = p (code c) && all_chars p s

-- The text before the first occurrence of a character, and the text after it.
unfoldable pub cut_char : String → ℕ → Option (String × String)
cut_char [] k = none
cut_char (c ∷ s) k =
    let later : Option (String × String) = elim (cut_char s k) [
      | none ↦ none
      | some (before, rest) ↦ some (c ∷ before, rest)
    ] in
    cond (is_code c k) (some ([], s)) later
