-- ===== src/ServiceAccount/Usernames.antt =====
-- The usernames of ServiceAccounts (login.go, parseServiceAccountUsername).
use Prim.Native.String
use Prim.Native.Char.{char}
use text.Mathlib.TextLemmas.{nil-append, cons-append}
use text.Mathlib.TextEquality.{Char-path}
use authn.Prelude.{
  String, ◌≡◌, ◌≢◌, refl, sym, ap, ◌∙◌, ◌↔◌, inl, inr, false, ◌||◌, List, [], ◌∷◌, ◌==◌, eq_iff,
  arith, Bool-cases,
}
use authn.Go.Text.{has_prefix, contains_char}
use authn.Go.Text.Laws.{has_prefix-append, drop_prefix-append, split_first-append}
use authn.Go.Text.Pieces.{Pieces, has_prefix-drop_prefix, split_first-Pieces}
use authn.Go.Act.{ok, ok-injective, err≢ok}
use authn.ServiceAccount.Reviewing.{parse_service_account_username, username_prefix, parts_of}

-- The username that the cluster gives to a ServiceAccount.
abbrev pub username_of : String → String → String
username_of ns name = String.◌++◌ username_prefix (String.◌++◌ ns (String.◌++◌ ":" name))

-- A namespace and a name that a username can hold.
pub record Nameable (ns name : String) : Type 0 where
  pub namespaced : ns ≢ ""
  pub named : name ≢ ""
  pub no_colon : contains_char 58 ns ≡ false

some_text : (a b : String) → (a == "" || b == "") ≡ false → (a ≢ "") × (b ≢ "")
some_text a b h = (ground (arith, eq_iff a ""), ground (arith, eq_iff b ""))

parts_of-ok :
    (u : String) (ps : List String) {ns name : String}
    → parts_of u ps ≡ ok (ns, name)
    → (ps ≡ ns ∷ name ∷ []) × (ns ≢ "") × (name ≢ "")
parts_of-ok u [] h = absurd (err≢ok h)
parts_of-ok u (a ∷ []) h = absurd (err≢ok h)
parts_of-ok u (a ∷ b ∷ c ∷ ps) h = absurd (err≢ok h)
parts_of-ok u (a ∷ b ∷ []) {ns} {name} h = elim (Bool-cases (a == "" || b == "")) [
  | inl e ↦ absurd (err≢ok (rw e at h))
  | inr e ↦
      let p : (a, b) ≡ (ns, name) = ok-injective (rw e at h) in
      let pa : a ≡ ns = ap (λ x. x.0) p in
      let pb : b ≡ name = ap (λ x. x.1) p in
      (rw (pa, pb) refl, rw (← pa) (some_text a b e).0, rw (← pb) (some_text a b e).1)
]

ok-parts_of :
    (u ns name : String) → ns ≢ "" → name ≢ "" → parts_of u (ns ∷ name ∷ []) ≡ ok (ns, name)
ok-parts_of u ns name h k = ground (arith, eq_iff ns "", eq_iff name "")

colon-append : (name : String) → String.◌++◌ ":" name ≡ String.◌∷◌ (char 58 tt) name
colon-append name =
    cons-append (char 58 tt) String.[] name ∙ ap (λ t. String.◌∷◌ (char 58 tt) t) (nil-append name)

with_colon :
    (u ns name : String) (p : Pieces 58 u ns name)
    → String.◌∷◌ p.at_char name ≡ String.◌++◌ ":" name
with_colon u ns name p = rw (Char-path p.at_char (char 58 tt) p.separates) (sym (colon-append name))

parsed :
    (u ns name : String)
    → parse_service_account_username u ≡ ok (ns, name)
    → (u ≡ username_of ns name) × Nameable ns name
unfolding parse_service_account_username
parsed u ns name h = elim (Bool-cases (has_prefix u username_prefix)) [
  | inl e ↦
      let (ps, n, m) = parts_of-ok u _ (rw e at h) in
      let p = split_first-Pieces 58 _ ps in
      (
        has_prefix-drop_prefix u username_prefix e
            ∙ ap (λ t. String.◌++◌ username_prefix t)
                (p.whole ∙ ap (λ t. String.◌++◌ ns t) (with_colon _ ns name p)),
        record { namespaced = n; named = m; no_colon = p.first },
      )
  | inr e ↦ absurd (err≢ok (rw e at h))
]

parsed_back :
    (ns name : String)
    → Nameable ns name
    → parse_service_account_username (username_of ns name) ≡ ok (ns, name)
unfolding parse_service_account_username
parsed_back ns name p =
    rw
      (
        has_prefix-append username_prefix _,
        drop_prefix-append username_prefix _,
        colon-append,
        split_first-append 58 ns name (char 58 tt) p.no_colon refl,
      )
      (ok-parts_of _ ns name p.namespaced p.named)

-- A username is read as a namespace and a name just where it is the username of that ServiceAccount, neither is empty and the namespace has no colon.
pub parse_service_account_username_iff :
    (u ns name : String)
    → (parse_service_account_username u ≡ ok (ns, name))
      ↔ ((u ≡ username_of ns name) × Nameable ns name)
parse_service_account_username_iff u ns name =
    (parsed u ns name, λ h. ap parse_service_account_username h.0 ∙ parsed_back ns name h.1)
