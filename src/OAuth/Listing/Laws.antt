-- ===== src/OAuth/Listing/Laws.antt =====
-- When the list of the OAuthConfigs panics (list.go).
use authn.Prelude.{
  String, ◌≡◌, ◌↔◌, ◌⊎◌, refl, sym, ap, ◌∙◌, Option, none, List, [], ◌∷◌, ◌++◌, Any, inl, inr,
}
use authn.Go.Error.{Error, wrapf}
use authn.Go.Act.{Result, ok, err, IsOk, IsErr, failure_of, ok-after, rewrap}
use authn.Cluster.{get_operator_namespace}
use authn.OAuth.Listing.{
  Run, returned, panicked, ConfigSpec, Converted, OauthItem, Lister, entry_of, entries_from,
  list_or_error, none_if_missing, list_oauth_config, mark, mark_head, ok_run, marked,
  list_oauth_configs,
}

abbrev pub Unconverted : OauthItem → Type 0
Unconverted item = IsErr item.converted

module _ {W : Type 0} (lister : Lister W) where
  abbrev entries_of : List OauthItem → List (Option ConfigSpec)
  entries_of [] = []
  entries_of (item ∷ items) = entry_of lister item item.converted ∷ entries_of items

  entries_from-last :
      (before : List OauthItem) (last : OauthItem) (failure : Option Error)
      → entries_from lister (before ++ last ∷ []) failure
        ≡ (entries_of (before ++ last ∷ []), failure_of last.converted)
  unfolding entries_from
  entries_from-last [] last failure = refl
  entries_from-last (x ∷ before) last failure =
      ap (λ r. (entry_of lister x x.converted ∷ r.0, r.1)) (entries_from-last before last _)

  mark_head_iff :
      (item : OauthItem) (r : Result Converted) (rest : Run (List ConfigSpec))
      → (mark_head lister (entry_of lister item r) rest ≡ panicked) ↔ (IsErr r ⊎ (rest ≡ panicked))
  mark_head_iff item (err e) rest = (λ _. inl tt, λ _. refl)
  mark_head_iff item (ok el) panicked = (λ _. inr refl, λ _. refl)
  mark_head_iff item (ok el) (returned l) = (λ h. absurd (cc h), back)
    where
      back :
          ⊥ ⊎ (returned l ≡ panicked)
          → mark_head lister (entry_of lister item (ok el)) (returned l) ≡ panicked
      back (inl b) = absurd b
      back (inr h) = absurd (cc h)

  mark_iff :
      (items : List OauthItem) → (mark lister (entries_of items) ≡ panicked) ↔ Any Unconverted items
  unfolding mark
  mark_iff [] = (λ h. absurd (cc h), λ b. absurd b)
  mark_iff (item ∷ items) =
      let head = mark_head_iff item item.converted (mark lister (entries_of items)) in
      let ih = mark_iff items in (λ h. either ih (head.0 h), λ a. head.1 (other ih a))
    where
      either :
          (mark lister (entries_of items) ≡ panicked) ↔ Any Unconverted items
          → Unconverted item ⊎ (mark lister (entries_of items) ≡ panicked)
          → Any Unconverted (item ∷ items)
      either ih (inl e) = inl e
      either ih (inr h) = inr (ih.0 h)

      other :
          (mark lister (entries_of items) ≡ panicked) ↔ Any Unconverted items
          → Any Unconverted (item ∷ items)
          → Unconverted item ⊎ (mark lister (entries_of items) ≡ panicked)
      other ih (inl e) = inl e
      other ih (inr a) = inr (ih.1 a)

  before_last :
      (before : List OauthItem) (last : OauthItem)
      → IsOk last.converted
      → Any Unconverted (before ++ last ∷ [])
      → Any Unconverted before
  before_last [] last o (inl e) = absurd (both last.converted o e)
    where
      both : (r : Result Converted) → IsOk r → IsErr r → ⊥
      both (ok a) o e = e
      both (err d) o e = o
  before_last [] last o (inr b) = absurd b
  before_last (x ∷ before) last o (inl e) = inl e
  before_last (x ∷ before) last o (inr a) = inr (before_last before last o a)

  with_last :
      (before : List OauthItem) (last : OauthItem)
      → Any Unconverted before
      → Any Unconverted (before ++ last ∷ [])
  with_last [] last b = absurd b
  with_last (x ∷ before) last (inl e) = inl e
  with_last (x ∷ before) last (inr a) = inr (with_last before last a)

  ok_run-panicked : (r : Run (List ConfigSpec)) → (ok_run lister r ≡ panicked) ↔ (r ≡ panicked)
  ok_run-panicked panicked = (λ _. refl, λ _. refl)
  ok_run-panicked (returned l) = (λ h. absurd (cc h), λ h. absurd (cc h))

  marked_iff :
      (entries : List (Option ConfigSpec)) (r : Result Converted)
      → (marked lister (list_or_error lister (entries, failure_of r)) ≡ panicked)
        ↔ (IsOk r × (mark lister entries ≡ panicked))
  marked_iff entries (err e) = (λ h. absurd (cc h), λ h. absurd h.0)
  marked_iff entries (ok el) =
      let run = ok_run-panicked (mark lister entries) in (λ h. (tt, run.0 h), λ h. run.1 h.1)

  -- Listing the OAuthConfigs panics exactly where the last one of the list can be converted and one
  -- before it cannot.
  pub list_oauth_configs-panicked_iff :
      (before : List OauthItem) (last : OauthItem) (ns : String) (w v u : W)
      → get_operator_namespace lister.os w ≡ (ok ns, v)
      → lister.list_items ns v ≡ (ok (before ++ last ∷ []), u)
      → ((list_oauth_configs lister w).0 ≡ panicked)
        ↔ (IsOk last.converted × Any Unconverted before)
  unfolding list_oauth_configs list_oauth_config rewrap
  list_oauth_configs-panicked_iff before last ns w v u located listed = (
    λ h.
        let (o, m) = (marked_iff (entries_of every) last.converted).0 (sym same ∙ h) in
        (o, before_last before last o ((mark_iff every).0 m)),
    λ (o, a).
        same
        ∙ (marked_iff (entries_of every) last.converted).1
            (o, (mark_iff every).1 (with_last before last a)),
  )
    where
      every : List OauthItem
      every = before ++ last ∷ []

      same :
          (list_oauth_configs lister w).0
          ≡ marked lister (list_or_error lister (entries_of every, failure_of last.converted))
      same =
          ap (λ x. marked lister x.0)
            (ok-after _ ns v
              (ap (rewrap (wrapf "unable to resolve service namespace: %w" [])) located)
              (ap (none_if_missing lister) listed))
          ∙ ap (λ x. marked lister (list_or_error lister x)) (entries_from-last before last none)
