-- ===== src/Kubeconfig/Checks.antt =====
-- Which identities may be issued a credential (build.go).
use mathlib.Core.Bool.{false≢true}
use authn.Prelude.{
  ℕ, suc, String, ◌≡◌, refl, sym, ◌∙◌, ◌↔◌, ◌⊎◌, inl, inr, Bool, true, false, List, [], ◌∷◌, arith,
  Bool-cases, Any,
}
use authn.Go.Act.{Result, ok, err, err≢ok}
use authn.UserInfo.{Info, is_reserved}
use authn.UserInfo.Groups.{Unreserved}
use authn.Storage.{validate_groups}
use authn.Storage.Groups.{OneLine, validate_groups_iff}
use authn.Kubeconfig.{count_reserved, check_groups, enough_reserved, reserved_allowed}

-- Some group of the list is reserved to authn.
abbrev pub SomeReserved : List String → Type 0
SomeReserved groups = Any (λ g. is_reserved g ≡ true) groups

session_count_iff :
    (groups : List String) (n : ℕ)
    → (enough_reserved false (count_reserved false groups n) ≡ ok tt) ↔ Unreserved groups
unfolding count_reserved
session_count_iff [] n = (λ _. tt, λ _. refl)
session_count_iff (g ∷ groups) n = elim (Bool-cases (is_reserved g)) [
  | inl e ↦ rw e (λ h. cc, λ h. cc (h.0))
  | inr e ↦
      rw e (λ h. (refl, (session_count_iff groups n).0 h), λ h. (session_count_iff groups n).1 h.1)
]

step_up_count :
    (groups : List String) (n : ℕ)
    → enough_reserved true (count_reserved true groups (suc n)) ≡ ok tt
unfolding count_reserved
step_up_count [] n = ground arith
step_up_count (g ∷ groups) n = elim (Bool-cases (is_reserved g)) [
  | inl e ↦ rw e (step_up_count groups (suc n))
  | inr e ↦ rw e (step_up_count groups n)
]

skip : {A : Type 0} → (false ≡ true) ⊎ A → A
skip (inl p) = absurd (false≢true p)
skip (inr a) = a

step_up_count_iff :
    (groups : List String)
    → (enough_reserved true (count_reserved true groups 0) ≡ ok tt) ↔ SomeReserved groups
unfolding count_reserved
step_up_count_iff [] = (λ h. absurd (err≢ok h), λ h. absurd h)
step_up_count_iff (g ∷ groups) = elim (Bool-cases (is_reserved g)) [
  | inl e ↦ rw e (λ _. inl refl, λ _. step_up_count groups 0)
  | inr e ↦
      rw e (λ h. inr ((step_up_count_iff groups).0 h), λ h. (step_up_count_iff groups).1 (skip h))
]

module _ (groups : List String) (step_up : Bool) {P : Type 0} where
  -- A check of the groups' names followed by one of their reservation decides both.
  both_checks :
      (enough_reserved step_up (count_reserved step_up groups 0) ≡ ok tt) ↔ P
      → (reserved_allowed step_up groups (validate_groups groups) ≡ ok tt) ↔ (OneLine groups × P)
  both_checks rest = go (validate_groups groups) refl
    where
      go :
          (r : Result (Unit {0}))
          → validate_groups groups ≡ r
          → (reserved_allowed step_up groups r ≡ ok tt) ↔ (OneLine groups × P)
      go (ok tt) v = (λ h. ((validate_groups_iff groups).0 v, rest.0 h), λ h. rest.1 h.1)
      go (err e) v = (
        λ h. absurd (err≢ok h),
        λ h. absurd (err≢ok (sym v ∙ (validate_groups_iff groups).1 h.0)),
      )

-- A session credential may be issued exactly to an identity whose groups hold no newline and none
-- of whose groups is reserved.
pub check_groups-session_iff :
    (user : Info)
    → (check_groups user false ≡ ok tt) ↔ (OneLine user.groups × Unreserved user.groups)
unfolding check_groups
check_groups-session_iff user = both_checks user.groups false (session_count_iff user.groups 0)

-- A step-up credential may be issued exactly to an identity whose groups hold no newline and some
-- group of which is reserved.
pub check_groups-step_up_iff :
    (user : Info)
    → (check_groups user true ≡ ok tt) ↔ (OneLine user.groups × SomeReserved user.groups)
unfolding check_groups
check_groups-step_up_iff user = both_checks user.groups true (step_up_count_iff user.groups)
