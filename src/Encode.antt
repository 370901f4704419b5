-- ===== src/Encode.antt =====
-- go/authn/internal/helpers/encode: the answers to a login (success.go, failure.go).
pub mod Laws
pub mod Minting
use authn.Prelude.{
  ℕ, String, Bool, true, false, not, Option, none, some, List, [], ◌∷◌, if◌then◌else◌,
}
use authn.Prelude.Int.{ℤ, pos, ltb_ℤ}
use authn.Prelude.{◌*◌}
use authn.Go.Error.{Error, wrapf}
use authn.Go.Time.{Time, Duration, hour, is_zero, since}
use authn.Go.Act.{Result, ok, err, Act, return, ◌>>=◌, or_fail}
use authn.Status.{Status, Text, new, from_error, failed}
use authn.UserInfo.{Info}
use authn.UserInfo.Exts.{get}

abbrev pub default_jwt_duration : Duration
default_jwt_duration = pos (8 * hour)

pub record Strategy : Type 0 where
  pub kind : String
  pub name : String

pub record Extras : Type 0 where
  pub user_info : Option Info
  pub strategy : Option Strategy
  pub jwt_duration : Duration
  -- whether JwtPrivateKey is there
  pub jwt_private_key : Bool
  pub jwt_key_id : String
  pub cert_not_after : Time

abbrev pub requested_or_default : Duration → Duration
requested_or_default requested = if ltb_ℤ (pos 0) requested then requested else default_jwt_duration

-- tokenDuration, at an instant
unfoldable pub token_duration : Time → Duration → Time → Duration
token_duration now requested not_after =
    if is_zero not_after
    then requested_or_default requested
    else if ltb_ℤ (since not_after now) (requested_or_default requested)
    then since not_after now
    else requested_or_default requested

-- jwtutil.CreateTokenOptions
pub record TokenOptions : Type 0 where
  pub username : String
  pub groups : List String
  pub duration : Duration
  pub key_id : String

-- The clock, and plumbing's jwtutil.CreateToken.
pub record Tokens (W : Type 0) : Type 0 where
  pub now : W → Time
  pub create_token : TokenOptions → Act W String

pub record User : Type 0 where
  pub display_name : String
  pub username : String
  pub avatar_url : String

pub record Response (D : Type 0) : Type 0 where
  pub access_token : String
  pub user : Option User
  pub groups : List String
  pub strategy : Option Strategy
  pub payload : D

-- What is written: a response with 200, a Status with its own code, or a file.
pub data Answer (D : Type 0) : Type 0 where
  answered : Response D → Answer D
  refusal : Status → Answer D
  -- a file for the user, by the username
  attached : String → D → Answer D

abbrev pub user_of : Info → User
user_of nfo = record {
  display_name = get "name" nfo.extensions;
  username = nfo.name;
  avatar_url = get "avatarUrl" nfo.extensions;
}

abbrev pub token_options : Extras → Info → Time → TokenOptions
token_options extras nfo now = record {
  username = nfo.name;
  groups = nfo.groups;
  duration = token_duration now extras.jwt_duration extras.cert_not_after;
  key_id = extras.jwt_key_id;
}

module _ {W : Type 0} (tokens : Tokens W) where
  unfoldable pub access_token : Extras → Info → Act W String
  access_token extras nfo w =
      if extras.jwt_private_key
      then tokens.create_token (token_options extras nfo (tokens.now w)) w
      else (ok "", w)

  abbrev pub body_for : {D : Type 0} → D → Extras → Option Info → Act W (Response D)
  body_for dat extras none = return (record {
    access_token = "";
    user = none;
    groups = [];
    strategy = extras.strategy;
    payload = dat;
  })
  body_for dat extras (some nfo) = do
    token ← access_token extras nfo
    return (record {
      access_token = token;
      user = some (user_of nfo);
      groups = nfo.groups;
      strategy = extras.strategy;
      payload = dat;
    })

  -- successBody; the response is rendered as JSON, which cannot fail for it
  unfoldable pub success_body : {D : Type 0} → D → Option Extras → Act W (Response D)
  success_body dat none =
      return
        (record { access_token = ""; user = none; groups = []; strategy = none; payload = dat })
  success_body dat (some extras) = body_for dat extras extras.user_info

  -- Success: the answer that it writes, of its own when the body cannot be made
  unfoldable pub success : {D : Type 0} → D → Option Extras → Act W (Answer D)
  success dat extras = do
    body ←
        or_fail (success_body dat extras)
          (λ e. failed "IssuanceFailed" (wrapf "issuing access token: %w" [] e))
    return (answered body)

module _ {W : Type 0} {D : Type 0} where
  -- A handler whose every error is answered by `encode.Failure(wri, status.FromError(err))`.
  abbrev pub answer : Result (Answer D) × W → Answer D × W
  answer (ok a, w) = (a, w)
  answer (err e, w) = (refusal (from_error e), w)

  unfoldable pub handle : Act W (Answer D) → W → Answer D × W
  handle m w = answer (m w)

module _ {D : Type 0} where
  -- Unauthorized, InternalError, MethodNotAllowed, NotFound, Forbidden
  unfoldable pub unauthorized : Text → Answer D
  unauthorized e = refusal (new 401 (some e))

  unfoldable pub internal_error : Text → Answer D
  internal_error e = refusal (new 500 (some e))

  unfoldable pub method_not_allowed : Text → Answer D
  method_not_allowed e = refusal (new 405 (some e))

  unfoldable pub not_found : Text → Answer D
  not_found e = refusal (new 404 (some e))

  unfoldable pub forbidden : Text → Answer D
  forbidden e = refusal (new 403 (some e))
