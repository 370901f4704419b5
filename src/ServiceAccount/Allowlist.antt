-- ===== src/ServiceAccount/Allowlist.antt =====
-- Which mapping a token is exchanged for
-- (go/authn/internal/helpers/kube/resolvers/serviceaccount.go).
use authn.Prelude.{
  String, ◌≡◌, refl, ap, ◌∙◌, Option, none, some, List, [], ◌∷◌, if◌then◌else◌, Bool-cases, inl,
  inr,
}
use authn.Go.Act.{Result, ok, err}
use authn.Go.Check
use authn.ServiceAccount.Mapping.{
  SaMapping, refers, match_all, matched, select, no_mapping, ambiguous_mapping,
}

module _ (ns name : String) where
  -- The mappings that refer to the ServiceAccount.
  unfoldable pub referring : List SaMapping → List SaMapping
  referring [] = []
  referring (m ∷ items) = let rest = referring items in if refers ns name m then m ∷ rest else rest

  -- What the list of the mappings that refer to it decides.
  abbrev pub decided : List SaMapping → Result SaMapping
  decided [] = err (no_mapping ns name)
  decided (m ∷ []) = ok m
  decided (m ∷ m' ∷ ms) = err (ambiguous_mapping ns name)

  abbrev decided_after : Option SaMapping → List SaMapping → Result (Option SaMapping)
  decided_after found [] = ok found
  decided_after none (m ∷ []) = ok (some m)
  decided_after none (m ∷ m' ∷ ms) = err (ambiguous_mapping ns name)
  decided_after (some first) (m ∷ ms) = err (ambiguous_mapping ns name)

  match_all-some :
      (first : SaMapping) (items : List SaMapping)
      → match_all ns name (some first) items ≡ decided_after (some first) (referring items)
  unfolding match_all referring Check.◌>>=◌
  match_all-some first [] = refl
  match_all-some first (m ∷ items) = elim (Bool-cases (refers ns name m)) [
    | inl e ↦ rw e refl
    | inr e ↦ rw e (match_all-some first items)
  ]

  match_all-none :
      (items : List SaMapping) → match_all ns name none items ≡ decided_after none (referring items)
  unfolding match_all referring Check.◌>>=◌
  match_all-none [] = refl
  match_all-none (m ∷ items) = elim (Bool-cases (refers ns name m)) [
    | inl e ↦ rw e (match_all-some m items ∙ after_first (referring items))
    | inr e ↦ rw e (match_all-none items)
  ]
    where
      after_first : (ms : List SaMapping) → decided_after (some m) ms ≡ decided_after none (m ∷ ms)
      after_first [] = refl
      after_first (x ∷ xs) = refl

  chosen :
      (ms : List SaMapping) → Check.◌>>=◌ (decided_after none ms) (matched ns name) ≡ decided ms
  unfolding Check.◌>>=◌
  chosen [] = refl
  chosen (m ∷ []) = refl
  chosen (m ∷ m' ∷ ms) = refl

  -- The loop over the mappings finds the only one that refers to the ServiceAccount: with none it
  -- reports no mapping, and with two or more an ambiguous one, in whatever order they are listed.
  pub select-decided : (items : List SaMapping) → select ns name items ≡ decided (referring items)
  unfolding select
  select-decided items =
      ap (λ r. Check.◌>>=◌ r (matched ns name)) (match_all-none items) ∙ chosen (referring items)
