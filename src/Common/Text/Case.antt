-- ===== src/Common/Text/Case.antt =====
-- Case: strings.EqualFold, ToUpper and ToLower over ASCII, and http.CanonicalHeaderKey.
use Prim.Native.Char.{Char}
use Prim.Native.String.{String, [], ◌∷◌}
use mathlib.Core.Bool.{Bool, true, cond, ◌&&◌}
use text.Mathlib.Text.{◌==◌}
use imposter_go.Common.Text.{same_char, is_code, in_cutset}

-- The character at the same place of the second alphabet.
translate : String → String → Char → Char
translate [] bs c = c
translate (a ∷ as') [] c = c
translate (a ∷ as') (b ∷ bs) c = cond (same_char a c) b (translate as' bs c)

abbrev lower_letters : String
lower_letters = "abcdefghijklmnopqrstuvwxyz"

abbrev upper_letters : String
upper_letters = "ABCDEFGHIJKLMNOPQRSTUVWXYZ"

upper_char : Char → Char
unfolding translate
upper_char c = translate lower_letters upper_letters c

lower_char : Char → Char
unfolding translate
lower_char c = translate upper_letters lower_letters c

-- strings.ToUpper(s)
unfoldable pub to_upper : String → String
unfolding upper_char
to_upper [] = []
to_upper (c ∷ s) = upper_char c ∷ to_upper s

-- strings.ToLower(s)
unfoldable pub to_lower : String → String
unfolding lower_char
to_lower [] = []
to_lower (c ∷ s) = lower_char c ∷ to_lower s

-- Simple folding, of the characters that fold with an ASCII letter: those of ASCII, the Kelvin sign and
-- the long s.
fold_char : Char → Char
unfolding lower_char
fold_char c = cond (is_code c 0x212a) "k" (cond (is_code c 0x17f) "s" (lower_char c))

fold : String → String
unfolding fold_char
fold [] = []
fold (c ∷ s) = fold_char c ∷ fold s

-- strings.EqualFold(s, t), exact where one of the texts is ASCII: the method of a request is, as are the
-- texts of the code that the program compares with.
unfoldable pub equal_fold : String → String → Bool
unfolding fold
equal_fold s t = fold s == fold t

-- The characters that a header's name may have (RFC 7230 tokens).
abbrev token_characters : String
token_characters = "!#$%&'*+-.^_`|~0123456789abcdefghijklmnopqrstuvwxyzABCDEFGHIJKLMNOPQRSTUVWXYZ"

is_token : String → Bool
is_token [] = true
is_token (c ∷ s) = in_cutset c token_characters && is_token s

-- Upper case at the start and after a dash, lower case elsewhere.
canonical_from : Bool → String → String
unfolding upper_char lower_char
canonical_from upper [] = []
canonical_from upper (c ∷ s) =
    cond upper (upper_char c) (lower_char c) ∷ canonical_from (is_code c b'-') s

-- http.CanonicalHeaderKey(s): a name that is no token is left alone.
unfoldable pub canonical_header_key : String → String
unfolding is_token canonical_from
canonical_header_key s = cond (is_token s) (canonical_from true s) s
