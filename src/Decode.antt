-- ===== src/Decode.antt =====
-- go/authn/internal/helpers/decode: reading the JSON body of a request.
pub mod Laws
use authn.Prelude.{
  ℕ, String, Bool, true, false, not, ◌||◌, List, [], ◌∷◌, ◌==◌, nat_eq, if◌then◌else◌,
}
use authn.Go.Text.{has_prefix, drop_prefix}
use authn.Go.Error.{Error, Arg, errorf, str, num}

-- What json.Decoder.Decode fails with.
pub data JsonError : Type 0 where
  -- *json.SyntaxError, by its offset
  syntax_error : ℕ → JsonError
  -- io.ErrUnexpectedEOF and io.EOF
  unexpected_end end_of_input : JsonError
  -- *json.UnmarshalTypeError, by its field and its offset
  wrong_type : String → ℕ → JsonError
  -- any other error, by its text
  other_error : String → JsonError

pub data Decoded (A : Type 0) : Type 0 where
  value : A → Decoded A
  failure : JsonError → Decoded A

-- A body: the Content-Type header of its request ("" where there is none) and the value that
-- header.ParseValueAndParams finds in it, and what the two calls of Decode on the first
-- 1048576 bytes give, of which the second decodes into an empty struct.
pub record Body (A : Type 0) : Type 0 where
  pub content_type : String
  pub media_type : String
  pub first : Decoded A
  pub second : Decoded (Unit {0})

-- The errors of JSONBody: a MalformedRequest, by its status and its message, or another error as it is.
pub data BodyError : Type 0 where
  malformed_request : ℕ → String → List Arg → BodyError
  undecodable : String → BodyError

pub data BodyRead (A : Type 0) : Type 0 where
  body : A → BodyRead A
  no_body : BodyError → BodyRead A

abbrev badly_formed : BodyError
badly_formed = malformed_request 400 "Request body contains badly-formed JSON" []

-- The cases of the switch that look at the text of the error.
abbrev malformed_text : String → BodyError
malformed_text text =
    if has_prefix text "json: unknown field "
    then malformed_request 400 "Request body contains unknown field %s"
        (str (drop_prefix text "json: unknown field ") ∷ [])
    else if text == "http: request body too large"
    then malformed_request 413 "Request body must not be larger than 1MB" []
    else undecodable text

-- The switch on the error of the first Decode.
unfoldable pub malformed : JsonError → BodyError
malformed (syntax_error offset) =
    malformed_request 400 "Request body contains badly-formed JSON (at position %d)"
      (num offset ∷ [])
malformed unexpected_end = badly_formed
malformed (wrong_type field offset) =
    malformed_request 400 "Request body contains an invalid value for the %q field (at position %d)"
      (str field ∷ num offset ∷ [])
malformed end_of_input = malformed_request 204 "Request body is empty" []
malformed (other_error text) = malformed_text text

-- What has to follow the object: nothing.
abbrev only : {A : Type 0} → A → Decoded (Unit {0}) → BodyRead A
only a (failure end_of_input) = body a
only a _ = no_body (malformed_request 400 "Request body must only contain a single JSON object" [])

abbrev pub decoded : {A : Type 0} → Decoded A → Decoded (Unit {0}) → BodyRead A
decoded (failure e) second = no_body (malformed e)
decoded (value a) second = only a second

abbrev json_type : {A : Type 0} → Body A → Bool
json_type b = b.content_type == "" || b.media_type == "application/json"

-- JSONBody
unfoldable pub json_body : {A : Type 0} → Body A → BodyRead A
unfolding malformed
json_body b =
    if json_type b
    then decoded b.first b.second
    else no_body (malformed_request 415 "Content-Type header is not application/json" [])

-- IsEmptyBodyError
unfoldable pub is_empty_body_error : BodyError → Bool
is_empty_body_error (malformed_request status msg args) = nat_eq status 204
is_empty_body_error (undecodable text) = false

-- The error as Go's `error`; the text of a MalformedRequest is its message.
unfoldable pub body_error : BodyError → Error
body_error (malformed_request status msg args) = errorf msg args
body_error (undecodable text) = errorf text []
