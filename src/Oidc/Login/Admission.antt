-- ===== src/Oidc/Login/Admission.antt =====
-- Whom the groups of a configuration admit (support.go).
use authn.Prelude.{
  String, ◌≡◌, refl, ◌↔◌, ◌⊎◌, inl, inr, true, List, [], ◌∷◌, Bool-cases, Any, In, slices_contains,
  slices_contains-In, In-slices_contains,
}
use authn.Go.Act.{ok, err≢ok}
use authn.UserInfo.{Info}
use authn.Oidc.Login.{Services, some_allowed, check_allowed_groups}

-- Some group of the user is one of the allowed groups.
abbrev pub Admitted : List String → List String → Type 0
Admitted allowed groups = Any (λ g. In g allowed) groups

module _ {W : Type 0} (services : Services W) where
  some_allowed_iff :
      (allowed groups : List String)
      → (some_allowed services allowed groups ≡ true) ↔ Admitted allowed groups
  unfolding some_allowed
  some_allowed_iff allowed [] = (λ h. cc, λ m. absurd m)
  some_allowed_iff allowed (g ∷ groups) = elim (Bool-cases (slices_contains allowed g)) [
    | inl e ↦ rw e (λ _. inl (slices_contains-In allowed g e), λ _. refl)
    | inr e ↦ rw e (
      λ h. inr ((some_allowed_iff allowed groups).0 h),
      λ m. elim m [
        | inl p ↦ let q = In-slices_contains allowed g p in cc
        | inr n ↦ (some_allowed_iff allowed groups).1 n
      ],
    )
  ]

  -- A user is admitted exactly when the OIDCConfig allows everyone or one of the user's groups is
  -- allowed.
  pub check_allowed_groups_iff :
      (allowed : List String) (nfo : Info)
      → (check_allowed_groups services allowed nfo ≡ ok tt)
        ↔ ((allowed ≡ []) ⊎ Admitted allowed nfo.groups)
  unfolding check_allowed_groups
  check_allowed_groups_iff [] nfo = (λ _. inl refl, λ _. refl)
  check_allowed_groups_iff (a ∷ allowed) nfo =
      elim (Bool-cases (some_allowed services (a ∷ allowed) nfo.groups)) [
        | inl e ↦ rw e (λ _. inr ((some_allowed_iff (a ∷ allowed) nfo.groups).0 e), λ _. refl)
        | inr e ↦ rw e (
          λ h. absurd (err≢ok h),
          λ m. elim m [
            | inl p ↦ absurd (cc)
            | inr n ↦ let q = (some_allowed_iff (a ∷ allowed) nfo.groups).1 n in cc
          ],
        )
      ]
