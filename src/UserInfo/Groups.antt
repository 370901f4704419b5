-- ===== src/UserInfo/Groups.antt =====
-- Which groups an identity carries (userinfo.go).
use authn.Prelude.{
  ℕ, String, ◌≡◌, ◌↔◌, ◌⊎◌, inl, inr, true, false, List, [], ◌∷◌, All, In, Bool-cases,
}
use authn.Go.Text.Laws.{has_prefix-append}
use authn.UserInfo.Exts.{Extensions}
use authn.UserInfo.{is_reserved, step_up_group, without_reserved, new_default_user}

-- No group of the list is reserved to authn.
abbrev pub Unreserved : List String → Type 0
Unreserved groups = All (λ g. is_reserved g ≡ false) groups

pub without_reserved-Unreserved : (groups : List String) → Unreserved (without_reserved groups).0
unfolding without_reserved
without_reserved-Unreserved [] = tt
without_reserved-Unreserved (g ∷ groups) = elim (Bool-cases (is_reserved g)) [
  | inl e ↦ rw e (without_reserved-Unreserved groups)
  | inr e ↦ rw e (e, without_reserved-Unreserved groups)
]

module _ (h g : String) (groups kept : List String)
    (ih : In g kept ↔ (In g groups × (is_reserved g ≡ false))) where
  dropped_iff :
      is_reserved h ≡ true → In g kept ↔ (((h ≡ g) ⊎ In g groups) × (is_reserved g ≡ false))
  dropped_iff e = (λ m. (inr (ih.0 m).0, (ih.0 m).1), back)
    where
      back : ((h ≡ g) ⊎ In g groups) × (is_reserved g ≡ false) → In g kept
      back (inl p, q) = cc
      back (inr m, q) = ih.1 (m, q)

  kept-cons_iff :
      is_reserved h ≡ false
      → ((h ≡ g) ⊎ In g kept) ↔ (((h ≡ g) ⊎ In g groups) × (is_reserved g ≡ false))
  kept-cons_iff e = (forth, back)
    where
      forth : (h ≡ g) ⊎ In g kept → ((h ≡ g) ⊎ In g groups) × (is_reserved g ≡ false)
      forth (inl p) = (inl p, cc)
      forth (inr m) = (inr (ih.0 m).0, (ih.0 m).1)

      back : ((h ≡ g) ⊎ In g groups) × (is_reserved g ≡ false) → (h ≡ g) ⊎ In g kept
      back (inl p, q) = inl p
      back (inr m, q) = inr (ih.1 (m, q))

kept_iff :
    (groups : List String) (g : String)
    → In g (without_reserved groups).0 ↔ (In g groups × (is_reserved g ≡ false))
unfolding without_reserved
kept_iff [] g = (λ m. absurd m, λ m. absurd m.0)
kept_iff (h ∷ groups) g = elim (Bool-cases (is_reserved h)) [
  | inl e ↦ rw e (dropped_iff h g groups _ (kept_iff groups g) e)
  | inr e ↦ rw e (kept-cons_iff h g groups _ (kept_iff groups g) e)
]

-- Only a step-up grants a reserved group, and it is the one of its level.
pub step_up_group-is_reserved : (level : ℕ) → is_reserved (step_up_group level) ≡ true
unfolding is_reserved step_up_group
step_up_group-is_reserved level = has_prefix-append _ _

-- A login's identity carries exactly the asserted groups that are not reserved.
pub new_default_user-groups_iff :
    (name id : String) (groups : List String) (extensions : Extensions) (g : String)
    → In g (new_default_user name id groups extensions).groups
      ↔ (In g groups × (is_reserved g ≡ false))
unfolding new_default_user
new_default_user-groups_iff name id groups extensions g = kept_iff groups g

pub new_default_user-Unreserved :
    (name id : String) (groups : List String) (extensions : Extensions)
    → Unreserved (new_default_user name id groups extensions).groups
unfolding new_default_user
new_default_user-Unreserved name id groups extensions = without_reserved-Unreserved groups
