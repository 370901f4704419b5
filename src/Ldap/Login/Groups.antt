-- ===== src/Ldap/Login/Groups.antt =====
-- The groups that a directory names (groupNames of support.go).
use authn.Prelude.{
  String, ◌≡◌, ◌≢◌, ◌↔◌, ◌⊎◌, refl, sym, ap, ◌∙◌, Bool, true, false, List, [], ◌∷◌, ◌++◌, ◌==◌,
  eq_iff, In, Distinct, Bool-cases, inl, inr, slices_contains, arith,
}
use mathlib.Core.Bool.{false≢true}
use mathlib.Core.List.{append_assoc, append-nil}
use authn.Go.Dict.Seen.{contains-append, contains-false, Tracks, Tracks-insert}
use authn.Go.Dict.{Dict, lookup, insert}
use authn.Ldap.Server.{Entry}
use authn.Ldap.Login.{Services, names_from, values, group_names}

-- The list without the names that are among those given.
unfoldable pub reject : List String → List String → List String
reject known [] = []
reject known (x ∷ xs) = elim (slices_contains known x) [
  | true ↦ reject known xs
  | false ↦ x ∷ reject known xs
]

-- The names that are not empty, each where it stands first.
unfoldable pub first_names : List String → List String
first_names [] = []
first_names (x ∷ xs) = elim (x == "") [
  | true ↦ first_names xs
  | false ↦ x ∷ reject (x ∷ []) (first_names xs)
]

contains_one : (x y : String) → slices_contains (x ∷ []) y ≡ x == y
unfolding slices_contains
contains_one x y = ground arith

module _ (known : List String) (x : String) where
  reject-append :
      (xs : List String) → reject (known ++ x ∷ []) xs ≡ reject known (reject (x ∷ []) xs)
  unfolding reject
  reject-append [] = refl
  reject-append (y ∷ xs) =
      ground (arith, contains-append known x y, contains_one x y, reject-append xs)

  reject_known :
      slices_contains known x ≡ true
      → (xs : List String) → reject known (reject (x ∷ []) xs) ≡ reject known xs
  unfolding reject
  reject_known h [] = refl
  reject_known h (y ∷ xs) = ground (arith, contains_one x y, eq_iff x y, reject_known h xs)

reject_none : (xs : List String) → reject [] xs ≡ xs
unfolding reject slices_contains
reject_none [] = refl
reject_none (x ∷ xs) = ap (λ l. x ∷ l) (reject_none xs)

names_from-first_names :
    (seen : Dict Bool) (groups names : List String)
    → Tracks seen groups
    → names_from seen groups names ≡ groups ++ reject groups (first_names names)
unfolding names_from first_names reject
names_from-first_names seen groups [] t = sym (append-nil groups)
names_from-first_names seen groups (x ∷ names) t = elim (Bool-cases (x == "")) [
  | inl e ↦ rw (e, first_names) (names_from-first_names seen groups names t)
  | inr e ↦ elim (Bool-cases (slices_contains groups x)) [
    | inl k ↦
        rw (e, t x, k, first_names, reject)
          (names_from-first_names seen groups names t
            ∙ ap (λ l. groups ++ l) (sym (reject_known groups x k _)))
    | inr k ↦
        rw (e, t x, k, first_names, reject)
          (names_from-first_names (insert x true seen) (groups ++ x ∷ []) names
              (Tracks-insert seen groups x t)
            ∙ append_assoc groups (x ∷ []) _
            ∙ ap (λ l. groups ++ x ∷ l) (reject-append groups x _))
  ]
]

module _ (known xs : List String) (x g : String)
    (ih : In g (reject known xs) ↔ (In g xs × (slices_contains known g ≡ false))) where
  rejected_iff :
      slices_contains known x ≡ true
      → In g (reject known xs) ↔ (((x ≡ g) ⊎ In g xs) × (slices_contains known g ≡ false))
  rejected_iff e = (λ m. (inr (ih.0 m).0, (ih.0 m).1), back)
    where
      back : ((x ≡ g) ⊎ In g xs) × (slices_contains known g ≡ false) → In g (reject known xs)
      back (inl p, k) = cc
      back (inr m, k) = ih.1 (m, k)

  kept_iff :
      slices_contains known x ≡ false
      → ((x ≡ g) ⊎ In g (reject known xs))
        ↔ (((x ≡ g) ⊎ In g xs) × (slices_contains known g ≡ false))
  kept_iff e = (forth, back)
    where
      forth :
          (x ≡ g) ⊎ In g (reject known xs) → ((x ≡ g) ⊎ In g xs) × (slices_contains known g ≡ false)
      forth (inl p) = (inl p, cc)
      forth (inr m) = (inr (ih.0 m).0, (ih.0 m).1)

      back :
          ((x ≡ g) ⊎ In g xs) × (slices_contains known g ≡ false) → (x ≡ g) ⊎ In g (reject known xs)
      back (inl p, k) = inl p
      back (inr m, k) = inr (ih.1 (m, k))

reject-In :
    (known xs : List String) (g : String)
    → In g (reject known xs) ↔ (In g xs × (slices_contains known g ≡ false))
unfolding reject
reject-In known [] g = (λ m. absurd m, λ m. absurd m.0)
reject-In known (x ∷ xs) g = elim (Bool-cases (slices_contains known x)) [
  | inl e ↦ rw (e, reject) (rejected_iff known xs x g (reject-In known xs g) e)
  | inr e ↦ rw (e, reject) (kept_iff known xs x g (reject-In known xs g) e)
]

reject-Distinct : (known xs : List String) → Distinct xs → Distinct (reject known xs)
unfolding reject
reject-Distinct known [] d = tt
reject-Distinct known (x ∷ xs) (n, d) = elim (Bool-cases (slices_contains known x)) [
  | inl e ↦ rw (e, reject) (reject-Distinct known xs d)
  | inr e ↦ rw (e, reject) (λ m. n ((reject-In known xs x).0 m).0, reject-Distinct known xs d)
]

reject_one-In : (x : String) (xs : List String) → ¬ In x (reject (x ∷ []) xs)
reject_one-In x xs m = contains-false (x ∷ []) x ((reject-In (x ∷ []) xs x).0 m).1 (inl refl)

first_names-Distinct : (names : List String) → Distinct (first_names names)
unfolding first_names
first_names-Distinct [] = tt
first_names-Distinct (x ∷ names) = elim (Bool-cases (x == "")) [
  | inl e ↦ rw (e, first_names) (first_names-Distinct names)
  | inr e ↦
      rw (e, first_names)
        (reject_one-In x _, reject-Distinct (x ∷ []) _ (first_names-Distinct names))
]

module _ (names : List String) (x g : String)
    (ih : In g (first_names names) ↔ (In g names × (g ≢ ""))) where
  unnamed_iff : x ≡ "" → In g (first_names names) ↔ (((x ≡ g) ⊎ In g names) × (g ≢ ""))
  unnamed_iff e = (λ m. (inr (ih.0 m).0, (ih.0 m).1), back)
    where
      back : ((x ≡ g) ⊎ In g names) × (g ≢ "") → In g (first_names names)
      back (inl p, k) = absurd (k (sym p ∙ e))
      back (inr m, k) = ih.1 (m, k)

  named_iff :
      x ≢ ""
      → ((x ≡ g) ⊎ In g (reject (x ∷ []) (first_names names))) ↔ (((x ≡ g) ⊎ In g names) × (g ≢ ""))
  named_iff ne = (forth, back)
    where
      forth :
          (x ≡ g) ⊎ In g (reject (x ∷ []) (first_names names)) → ((x ≡ g) ⊎ In g names) × (g ≢ "")
      forth (inl p) = (inl p, λ q. ne (p ∙ q))
      forth (inr m) = let n = ih.0 ((reject-In (x ∷ []) _ g).0 m).0 in (inr n.0, n.1)

      back :
          ((x ≡ g) ⊎ In g names) × (g ≢ "") → (x ≡ g) ⊎ In g (reject (x ∷ []) (first_names names))
      back (inl p, k) = inl p
      back (inr m, k) = elim (Bool-cases (x == g)) [
        | inl e ↦ inl ((eq_iff x g).0 e)
        | inr e ↦ inr ((reject-In (x ∷ []) _ g).1 (ih.1 (m, k), contains_one x g ∙ e))
      ]

first_names-In :
    (names : List String) (g : String) → In g (first_names names) ↔ (In g names × (g ≢ ""))
unfolding first_names
first_names-In [] g = (λ m. absurd m, λ m. absurd m.0)
first_names-In (x ∷ names) g = elim (Bool-cases (x == "")) [
  | inl e ↦ rw (e, first_names) (unnamed_iff names x g (first_names-In names g) ((eq_iff x "").0 e))
  | inr e ↦
      rw (e, first_names)
        (named_iff names x g (first_names-In names g)
          (λ q. absurd (false≢true (sym e ∙ (eq_iff x "").1 q))))
]

module _ {W Conn Template : Type 0} (services : Services W Conn Template) where
  -- The groups of a user are the names that the entries found give, without the empty ones, each
  -- once and in the order in which it comes first.
  pub group_names-first_names :
      (entries : List Entry) (name_attr : String)
      → (group_names services entries name_attr ≡ first_names (values services name_attr entries))
        × Distinct (group_names services entries name_attr)
        × ((g : String)
            → In g (group_names services entries name_attr)
              ↔ (In g (values services name_attr entries) × (g ≢ "")))
  unfolding group_names lookup slices_contains
  group_names-first_names entries name_attr =
      let names = values services name_attr entries in
      let e : names_from [] [] names ≡ first_names names =
        names_from-first_names [] [] names (λ g. refl) ∙ reject_none _ in
      rw e (refl, first_names-Distinct names, first_names-In names)
