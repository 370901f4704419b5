-- ===== src/Ldap/Server.antt =====
-- What a login uses of a directory server, as go-ldap presents it, and what it makes of its errors
-- (go/authn/internal/routes/auth/ldap/support.go).
pub mod Laws
use authn.Prelude.{String, Bool, true, false, List, [], ◌∷◌, if◌then◌else◌, any}
use authn.Go.Error.{Error, errorf}
use authn.Go.Act.{Result, ok, err, Act}
use authn.Status.{failed, refused_privately}

-- The result codes of go-ldap that the program tells apart; `other_code` is any other code, and an
-- error that has none.
pub data ResultCode : Type 0 where
  invalid_credentials inappropriate_authentication unwilling_to_perform empty_password network :
      ResultCode
  other_code : String → ResultCode

pub record LdapError : Type 0 where
  pub code : ResultCode
  pub error : Error

pub data Reply (A : Type 0) : Type 0 where
  reply : A → Reply A
  refusal : LdapError → Reply A

-- A call of the server.
abbrev pub Call : Type 0 → Type 0 → Type 0
Call W A = W → Reply A × W

-- ldap.Entry
pub record Entry : Type 0 where
  pub dn : String
  pub attributes : List (String × List String)

-- ldap.SearchRequest: the scope is always the whole subtree, aliases are never followed, and there
-- are no limits and no controls.
pub record SearchRequest : Type 0 where
  pub base_dn : String
  pub filter : String
  pub attributes : List String

-- A client of the server, by its connection.
pub record Directory (W Conn : Type 0) : Type 0 where
  pub dial : String → Call W Conn
  -- StartTLS, without verifying the server's certificate
  pub start_tls : Conn → Call W (Unit {0})
  pub bind : Conn → String → String → Call W (Unit {0})
  pub search : Conn → SearchRequest → Call W (List Entry)
  pub close : Conn → W → W
  pub escape_filter : String → String
  -- Entry.GetAttributeValue and Entry.GetEqualFoldAttributeValue, "" where there is none
  pub attribute_value : Entry → String → String
  pub equal_fold_attribute_value : Entry → String → String

abbrev same_code : ResultCode → ResultCode → Bool
same_code invalid_credentials invalid_credentials = true
same_code inappropriate_authentication inappropriate_authentication = true
same_code unwilling_to_perform unwilling_to_perform = true
same_code empty_password empty_password = true
same_code network network = true
same_code _ _ = false

-- ldap.IsErrorWithCode
abbrev pub is_error_with_code : LdapError → ResultCode → Bool
is_error_with_code e code = same_code e.code code

-- refusesUser
unfoldable pub refuses_user : LdapError → Bool
refuses_user e = any (is_error_with_code e) (
    invalid_credentials ∷ inappropriate_authentication ∷ unwilling_to_perform ∷ empty_password ∷ [])

-- serverFailure
unfoldable pub server_failure : String → LdapError → Error
server_failure cause e =
    if is_error_with_code e network then failed "LDAPUnavailable" e.error else failed cause e.error

-- status.Failed(CauseLDAPUnavailable, err)
abbrev pub unavailable : LdapError → Error
unavailable e = failed "LDAPUnavailable" e.error

-- invalidCredentials
unfoldable pub invalid_login : Error → Error
invalid_login reason =
    refused_privately "InvalidCredentials" (errorf "invalid credentials" []) reason

module _ {W A : Type 0} where
  unfoldable pub replied : (LdapError → Error) → Reply A × W → Result A × W
  replied f (reply a, w) = (ok a, w)
  replied f (refusal e, w) = (err (f e), w)

  -- `if err != nil { return nil, f(err) }` after a call of the server
  abbrev pub ask : (LdapError → Error) → Call W A → Act W A
  ask f m w = replied f (m w)
