-- ===== src/Backfill/Stamping.antt =====
-- What a backfill writes of one Secret (backfill.go).
use authn.Prelude.{
  String, ◌≡◌, refl, sym, ap, ◌∙◌, true, false, ◌&&◌, some, [], ◌∷◌, Bool-cases, inl, inr,
}
use authn.Go.Text.{join, has_suffix}
use authn.Go.Dict.{Dict, lookup, has, merge, text_at, lookup-insert, lookup-insert_self}
use authn.Go.Act.{ok, ok-injective}
use authn.Go.Act.Triple.{Triple, Always, bind, lifts, calls, returns}
use authn.Go.Check.{or_err-ok}
use authn.Cluster.{Secret}
use authn.Cert.{Certificate, parse_certificate_base64}
use authn.Storage.{client_cert_label, strategy_annotation, groups_annotation, group_separator}
use authn.Storage.Writes.{Identified, identity_annotations-Identified}
use authn.Backfill.Strategy.{Proven, strategy_of-Proven}
use authn.Backfill.Annotations.{merge-absent_from}
use authn.Backfill.{
  Options, absent_from, stamped_with, derived, missing_annotations, client_config_suffix,
}

abbrev entries_of : String → Certificate → Dict String
entries_of strategy crt =
    (strategy_annotation, strategy)
    ∷ (groups_annotation, join group_separator crt.organization)
    ∷ []

strategy-recorded :
    (have : Dict String) (strategy : String) (crt : Certificate)
    → has strategy_annotation have ≡ false
    → lookup strategy_annotation (merge have (absent_from have (entries_of strategy crt)))
      ≡ some strategy
unfolding absent_from merge lookup
strategy-recorded have strategy crt e = elim (Bool-cases (has groups_annotation have)) [
  | inl g ↦ rw (e, g) (lookup-insert_self strategy_annotation strategy have)
  | inr g ↦
      rw (e, g)
        (lookup-insert groups_annotation strategy_annotation _ _
          ∙ lookup-insert_self strategy_annotation strategy have)
]

groups-recorded :
    (have : Dict String) (strategy : String) (crt : Certificate)
    → has groups_annotation have ≡ false
    → lookup groups_annotation (merge have (absent_from have (entries_of strategy crt)))
      ≡ some (join group_separator crt.organization)
unfolding absent_from merge lookup
groups-recorded have strategy crt e = elim (Bool-cases (has strategy_annotation have)) [
  | inl s ↦ rw (e, s) (lookup-insert_self groups_annotation _ have)
  | inr s ↦ rw (e, s) (lookup-insert_self groups_annotation _ _)
]

module _ {W : Type 0} (options : Options W) where
  open options use {formats, self_username, identities}

  -- A Secret as a backfill rewrites it: nothing but its annotations changes and none of those it has
  -- does, the groups that are added are those of its certificate, and the strategy that is added is
  -- proved for the certificate's name.
  pub record Stamped (sec sec' : Secret) : Type 0 where
    pub named : has_suffix sec.name client_config_suffix ≡ true
    pub crt : Certificate
    pub parsed :
        parse_certificate_base64 formats.codec (text_at (lookup client_cert_label sec.contents))
        ≡ ok crt
    pub strategy : String
    pub proven : Proven identities self_username crt.common_name strategy
    pub changed : sec' ≡ record sec { annotations = sec'.annotations }
    pub kept :
        (k v : String) → lookup k sec.annotations ≡ some v → lookup k sec'.annotations ≡ some v
    pub strategy_recorded :
        has strategy_annotation sec.annotations ≡ false
        → lookup strategy_annotation sec'.annotations ≡ some strategy
    pub groups_recorded :
        has groups_annotation sec.annotations ≡ false
        → lookup groups_annotation sec'.annotations ≡ some (join group_separator crt.organization)

  -- How the missing annotations of a Secret were found.
  pub record Derived (sec : Secret) (missing : Dict String) : Type 0 where
    pub crt : Certificate
    pub parsed :
        parse_certificate_base64 formats.codec (text_at (lookup client_cert_label sec.contents))
        ≡ ok crt
    pub strategy : String
    pub proven : Proven identities self_username crt.common_name strategy
    pub exact : missing ≡ absent_from sec.annotations (entries_of strategy crt)

  identified_missing :
      (sec : Secret) (crt : Certificate) (strategy : String) (want : Dict String)
      → parse_certificate_base64 formats.codec (text_at (lookup client_cert_label sec.contents))
        ≡ ok crt
      → Proven identities self_username crt.common_name strategy
      → Identified formats strategy (text_at (lookup client_cert_label sec.contents)) want
      → Derived sec (absent_from sec.annotations want)
  identified_missing sec crt strategy want parsed proven i = record {
    crt = crt;
    parsed = parsed;
    strategy = strategy;
    proven = proven;
    exact =
        ap (absent_from sec.annotations)
          (i.exact ∙ ap (entries_of strategy) (ok-injective (sym i.parsed ∙ parsed)));
  }

  derived-Derived : (sec : Secret) → Triple Always (derived options sec) (λ m _. Derived sec m)
  derived-Derived sec =
      bind
        {Mid = λ crt _.
          parse_certificate_base64 formats.codec (text_at (lookup client_cert_label sec.contents))
          ≡ ok crt}
        (lifts (λ w p crt e. or_err-ok _ _ e))
        (λ crt.
          bind
            {Mid = λ strategy _.
              (parse_certificate_base64 formats.codec
                  (text_at (lookup client_cert_label sec.contents))
                ≡ ok crt)
              × Proven identities self_username crt.common_name strategy}
            (calls (λ w p strategy u e. (p, strategy_of-Proven identities self_username _ _ w u e)))
            (λ strategy.
              bind {Mid = λ want _. Derived sec (absent_from sec.annotations want)}
                (lifts (λ w p want e.
                  identified_missing sec crt strategy want p.0 p.1
                    (identity_annotations-Identified formats strategy _ want e)))
                (λ want. returns (λ w p. p))))

  pub missing_annotations-Derived :
      (sec : Secret) (entry : String × String) (missing : Dict String) (w u : W)
      → missing_annotations options sec w ≡ (ok (entry ∷ missing), u)
      → Derived sec (entry ∷ missing)
  unfolding missing_annotations
  missing_annotations-Derived sec entry missing w u h =
      elim (Bool-cases
        (has strategy_annotation sec.annotations && has groups_annotation sec.annotations)) [
          | inl e ↦
              let none_missing : [] ≡ entry ∷ missing = ok-injective (ap (λ x. x.0) (rw e at h)) in
              absurd cc
          | inr e ↦ (derived-Derived sec).run w tt _ u (rw e at h)
        ]

  pub stamped_with-Stamped :
      (sec : Secret) (missing : Dict String)
      → has_suffix sec.name client_config_suffix ≡ true
      → Derived sec missing
      → Stamped sec (stamped_with sec missing)
  unfolding stamped_with
  stamped_with-Stamped sec missing named d = rw d.exact (record {
    named = named;
    crt = d.crt;
    parsed = d.parsed;
    strategy = d.strategy;
    proven = d.proven;
    changed = refl;
    kept = λ k v h. merge-absent_from k v sec.annotations _ h;
    strategy_recorded = strategy-recorded sec.annotations d.strategy d.crt;
    groups_recorded = groups-recorded sec.annotations d.strategy d.crt;
  })
