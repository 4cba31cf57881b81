-- ===== src/Oidc/Pkce.antt =====
-- pkce.go: proof keys for code exchange. The result is the error, none where there is none.
use imposter_go.Common.{
  ℕ, String, Bool, not, ◌&&◌, ◌||◌, Option, none, some, ◌==◌, if◌then◌else◌, ltb, leb, eqb,
}
use imposter_go.Common.Text.{concat, trim_right, byte_length, all_chars}
use imposter_go.Oidc.{OidcExternal}

-- isValidPKCEChar
unfoldable pub is_valid_pkce_char : ℕ → Bool
is_valid_pkce_char c =
    leb b'A' c && leb c b'Z'
    || leb b'a' c && leb c b'z'
    || leb b'0' c && leb c b'9'
    || eqb c b'-'
    || eqb c b'.'
    || eqb c b'_'
    || eqb c b'~'

-- base64URLEncode
unfoldable pub base64_url_encode : OidcExternal → String → String
base64_url_encode ext bytes = trim_right (ext.base64_url bytes) "="

abbrev pub bad_length : String → Bool
bad_length s = ltb (byte_length s) 43 || ltb 128 (byte_length s)

-- validatePKCE
unfoldable pub validate_pkce : OidcExternal → String → String → String → Option String
validate_pkce ext challenge method verifier =
    if challenge == ""
    then none
    else if verifier == ""
    then some "code_verifier is required when code_challenge is present"
    else if bad_length verifier
    then some "code_verifier must be between 43 and 128 characters"
    else if not (all_chars is_valid_pkce_char verifier)
    then some "code_verifier contains invalid characters"
    else if method == "plain" || method == ""
    then if challenge == verifier then none else some "code_challenge does not match code_verifier"
    else if method == "S256"
    then if challenge == base64_url_encode ext (ext.sha256 verifier)
      then none
      else some "code_challenge does not match SHA256 of code_verifier"
    else some (concat "unsupported code_challenge_method: " method)

-- validateCodeChallenge
unfoldable pub validate_code_challenge : String → String → Option String
validate_code_challenge challenge method =
    if challenge == ""
    then none
    else if bad_length challenge
    then some "code_challenge must be between 43 and 128 characters"
    else if not (method == "") && not (method == "plain") && not (method == "S256")
    then some (concat "unsupported code_challenge_method: " method)
    else none
