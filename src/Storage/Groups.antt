-- ===== src/Storage/Groups.antt =====
-- The groups annotation and its inverse (identity.go).
use text.Mathlib.TextLemmas.{append-ne-nil_of_right_ne-nil, append-eq-nil_iff}
use authn.Prelude.{
  String, ◌≡◌, ◌≢◌, refl, ap, ◌↔◌, inl, inr, false, List, [], ◌∷◌, eq_iff, ◌==◌, eq-false_of_ne,
  Bool-cases, All,
}
use authn.Go.Text.{contains_char, join}
use authn.Go.Text.Laws.{split-join, split-no_sep}
use authn.Go.Act.{ok}
use authn.Storage.{newline, group_separator, validate_groups, split_groups}

-- No group's name holds a newline.
abbrev pub OneLine : List String → Type 0
OneLine groups = All (λ g. contains_char newline g ≡ false) groups

-- ValidateGroups accepts exactly the lists in which no group's name holds a newline.
pub validate_groups_iff : (groups : List String) → (validate_groups groups ≡ ok tt) ↔ OneLine groups
unfolding validate_groups
validate_groups_iff [] = (λ _. tt, λ _. refl)
validate_groups_iff (g ∷ groups) = elim (Bool-cases (contains_char newline g)) [
  | inl e ↦ rw e (λ h. cc, λ h. cc (h.0))
  | inr e ↦
      rw e (λ h. (refl, (validate_groups_iff groups).0 h), λ h. (validate_groups_iff groups).1 h.1)
]

join-ne_empty : (x y : String) (ys : List String) → join group_separator (x ∷ y ∷ ys) ≢ ""
unfolding join
join-ne_empty x y ys =
    append-ne-nil_of_right_ne-nil x (λ e. cc ((append-eq-nil_iff {p = "\n"}).0 e).0)

split_groups-join :
    (x : String) (xs : List String)
    → OneLine (x ∷ xs)
    → join group_separator (x ∷ xs) ≢ ""
    → split_groups (join group_separator (x ∷ xs)) ≡ x ∷ xs
unfolding split_groups
split_groups-join x xs h ne = rw (eq-false_of_ne _ _ ne) (split-join newline _ x xs refl h)

-- Reading back the annotation written for valid groups gives the same groups, except for the one
-- list that holds the empty name alone: it is written as no group at all.
pub split_groups-join_iff :
    (groups : List String)
    → validate_groups groups ≡ ok tt
    → (split_groups (join group_separator groups) ≡ groups) ↔ (groups ≢ "" ∷ [])
unfolding split_groups join
split_groups-join_iff [] h = (λ _ e. cc, λ _. refl)
split_groups-join_iff (x ∷ []) h = elim (Bool-cases (x == "")) [
  | inl e ↦ rw e (λ k. cc, λ ne. absurd (ne (ap (λ s. s ∷ []) ((eq_iff x "").0 e))))
  | inr e ↦ rw e (
    λ _ k. let p : x ≡ "" = cc in cc ((eq_iff x "").1 p),
    λ _. split-no_sep newline x ((validate_groups_iff (x ∷ [])).0 h).0,
  )
]
split_groups-join_iff (x ∷ y ∷ ys) h = (
  λ _ e. cc,
  λ _. split_groups-join x (y ∷ ys) ((validate_groups_iff (x ∷ y ∷ ys)).0 h) (join-ne_empty x y ys),
)
