-- ===== src/CodeExchange.antt =====
-- go/authn/internal/helpers/codeexchange: why a code could not be exchanged for tokens.
use authn.Prelude.{ℕ, String, Bool, ◌||◌, [], ◌∷◌, ◌==◌, if◌then◌else◌}
use authn.Go.Error.{Error, errorf, str, num, caused_privately}
use authn.Status.{refused_privately}

-- codeRejections
unfoldable pub code_rejections : String → Bool
code_rejections code = code == "invalid_grant" || code == "bad_verification_code"

abbrev pub public_refusal : ℕ → String → Error
public_refusal http_status error_code =
    if error_code == ""
    then errorf "the identity provider's token endpoint answered %d" (num http_status ∷ [])
    else errorf "the identity provider's token endpoint answered %d (%s)"
        (num http_status ∷ str error_code ∷ [])

-- Refusal
unfoldable pub refusal : ℕ → String → Error → Error
unfolding code_rejections
refusal http_status error_code detail =
    if code_rejections error_code
    then refused_privately "AuthorizationCodeRejected"
        (errorf "the identity provider refused the authorization code (%s)" (str error_code ∷ []))
        detail
    else caused_privately 500 "TokenExchangeFailed" (public_refusal http_status error_code) detail

-- Failed
unfoldable pub failed : Error → Error
failed e =
    caused_privately 500 "TokenExchangeFailed"
      (errorf "the token exchange with the identity provider did not complete" []) e
