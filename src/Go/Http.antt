-- ===== src/Go/Http.antt =====
-- Requests and answers of net/http.
use authn.Prelude.{ℕ, String}
use authn.Go.Dict.{Dict}
use authn.Go.Act.{Result}

pub record HttpRequest : Type 0 where
  pub method : String
  pub url : String
  pub headers : Dict String
  pub body : String

-- An answer, with the outcome of reading its body.
pub record HttpResponse : Type 0 where
  pub status_code : ℕ
  pub body : Result String
