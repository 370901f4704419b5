-- ===== src/Storage/Names.antt =====
-- Session and step-up Secret names never meet (storage.go).
use Prim.Native.String
use Prim.Native.String.{len}
use Prim.Native.String.len
use text.Mathlib.TextLemmas.{append_assoc}
use text.Mathlib.TextPositions.{len-append, len_utf8-pos}
use mathlib.Core.Bool.{false≢true}
use authn.Prelude.{
  ℕ, ◌<◌, String, ◌≡◌, ◌≢◌, refl, sym, ap, ◌∙◌, Bool, true, false, ◌&&◌, ltb, arith, Char, code,
  Option, none, some,
}
use authn.Go.Text.{has_suffix}
use authn.Go.Text.Laws.{last_or, has_suffix-append, has_suffix_disjoint}
use authn.Storage.{
  Formats, session_suffix, step_up_suffix, is_step_up_secret_name, client_config_secret_name,
  step_up_secret_name,
}

abbrev code_of : Option Char → ℕ
code_of none = 0
code_of (some c) = code c

last_differs : (c b : Char) → code c ≢ code b → some c ≢ some b
last_differs c b ne e = ne (ap code_of e)

not_suffix : (s : String) → has_suffix (String.◌++◌ s session_suffix) step_up_suffix ≡ false
unfolding last_or
not_suffix s =
    has_suffix_disjoint s "clientconfig" "clientconfig-stepup" "-" "-"
      (last_differs "g" "p" (omega arith))

both : {a b : Bool} → a ≡ true → b ≡ true → (a && b) ≡ true
both p q = rw (p, q)

len-pos : (s : String) → s ≢ "" → 0 < len s
len-pos String.[] ne = absurd (ne refl)
len-pos (String.◌∷◌ c s) ne = let (k, e) = len_utf8-pos c in rw (len.cons c s, e) (omega arith)

longer : (s t : String) → s ≢ "" → ltb (len t) (len (String.◌++◌ s t)) ≡ true
longer s t ne = let pos : 0 < len s = len-pos s ne in rw (len-append s t) (ground arith)

module _ (formats : Formats) where
  -- The name of a session Secret is never taken for a step-up credential's, whatever the username
  -- and however the library makes it a DNS name.
  pub client_config_secret_name-not_step_up :
      (username : String)
      → is_step_up_secret_name (client_config_secret_name formats username) ≡ false
  unfolding is_step_up_secret_name client_config_secret_name last_or
  client_config_secret_name-not_step_up username =
      rw (not_suffix (formats.make_dns1123_compatible username))

  -- A username with a DNS name has a step-up Secret that is recognised as one.
  pub step_up_secret_name-is_step_up :
      (username : String)
      → formats.make_dns1123_compatible username ≢ ""
      → is_step_up_secret_name (step_up_secret_name formats username) ≡ true
  unfolding is_step_up_secret_name step_up_secret_name
  step_up_secret_name-is_step_up username ne =
      let dns : String = formats.make_dns1123_compatible username in
      rw (append_assoc dns "-clientconfig" "-stepup")
        (both (has_suffix-append dns step_up_suffix) (longer dns step_up_suffix ne))

  step_up_secret_name-suffix :
      (username : String) → has_suffix (step_up_secret_name formats username) step_up_suffix ≡ true
  unfolding step_up_secret_name client_config_secret_name
  step_up_secret_name-suffix username =
      let dns : String = formats.make_dns1123_compatible username in
      rw (append_assoc dns "-clientconfig" "-stepup") (has_suffix-append dns step_up_suffix)

  client_config_secret_name-suffix :
      (username : String)
      → has_suffix (client_config_secret_name formats username) step_up_suffix ≡ false
  unfolding client_config_secret_name
  client_config_secret_name-suffix username = not_suffix (formats.make_dns1123_compatible username)

  -- No username's session Secret is named like any username's step-up Secret, however the library
  -- makes the usernames DNS names, also where it makes one of them empty.
  pub session-ne-step_up :
      (username other : String)
      → client_config_secret_name formats username ≢ step_up_secret_name formats other
  session-ne-step_up username other e = false≢true (
      sym (client_config_secret_name-suffix username)
      ∙ ap (λ n. has_suffix n step_up_suffix) e
      ∙ step_up_secret_name-suffix other)
