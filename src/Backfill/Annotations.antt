-- ===== src/Backfill/Annotations.antt =====
-- The annotations that a backfill adds to a Secret (backfill.go).
use authn.Prelude.{
  String, ◌≡◌, refl, sym, ◌∙◌, inl, inr, true, false, none, some, [], ◌∷◌, ◌==◌, arith, eq_iff,
  Bool-cases,
}
use authn.Go.Dict.{Dict, lookup, has, insert, merge, lookup-merge_ne}
use authn.Backfill.{absent_from}

module _ {V : Type 0} where
  lookup-has : (k : String) (v : V) (d : Dict V) → lookup k d ≡ some v → has k d ≡ true
  unfolding lookup has
  lookup-has k v [] h = absurd cc
  lookup-has k v ((j, w) ∷ d) h = elim (Bool-cases (j == k)) [
    | inl e ↦ rw e refl
    | inr e ↦ rw e (lookup-has k v d (rw e at h))
  ]

  has-insert : (j k : String) (v : V) (d : Dict V) → has j d ≡ true → has j (insert k v d) ≡ true
  unfolding has insert
  has-insert j k v [] h = absurd cc
  has-insert j k v ((i, w) ∷ d) h =
      ground (arith, eq_iff i k, eq_iff i j, eq_iff k j, has-insert j k v d)

  has-insert_self : (k : String) (v : V) (d : Dict V) → has k (insert k v d) ≡ true
  unfolding has insert
  has-insert_self k v [] = ground (arith, eq_iff k k)
  has-insert_self k v ((i, w) ∷ d) = ground (arith, eq_iff i k, eq_iff k k, has-insert_self k v d)

  pub has-merge : (j : String) (dst src : Dict V) → has j dst ≡ true → has j (merge dst src) ≡ true
  unfolding merge
  has-merge j dst [] h = h
  has-merge j dst ((k, v) ∷ src) h = has-merge j (insert k v dst) src (has-insert j k v dst h)

  has-merge_src : (j : String) (dst src : Dict V) → has j src ≡ true → has j (merge dst src) ≡ true
  unfolding merge has
  has-merge_src j dst [] h = absurd cc
  has-merge_src j dst ((k, v) ∷ src) h = elim (Bool-cases (k == j)) [
    | inl e ↦ rw ((eq_iff k j).0 e) (has-merge j _ src (has-insert_self j v dst))
    | inr e ↦ has-merge_src j (insert k v dst) src (rw e at h)
  ]

  absent : (k : String) (have : Dict V) → has k have ≡ false → lookup k have ≡ none
  unfolding lookup has
  absent k [] h = refl
  absent k ((j, w) ∷ d) h = elim (Bool-cases (j == k)) [
    | inl e ↦ absurd (let z : true ≡ false = rw e at h in cc)
    | inr e ↦ rw e (absent k d (rw e at h))
  ]

-- What is there already is not among what is missing.
absent_from-lookup :
    (k : String) (have want : Dict String)
    → has k have ≡ true
    → lookup k (absent_from have want) ≡ none
unfolding absent_from lookup
absent_from-lookup k have [] h = refl
absent_from-lookup k have ((j, v) ∷ want) h = elim (Bool-cases (has j have)) [
  | inl e ↦ rw e (absent_from-lookup k have want h)
  | inr e ↦ elim (Bool-cases (j == k)) [
    | inl q ↦ absurd (
        let z : has j have ≡ true = rw ((eq_iff j k).0 q) h in
        let y : true ≡ false = sym z ∙ e in cc)
    | inr q ↦ rw (e, lookup, q) (absent_from-lookup k have want h)
  ]
]

has-absent_from :
    (k : String) (have want : Dict String)
    → has k want ≡ true
    → has k have ≡ false
    → has k (absent_from have want) ≡ true
unfolding absent_from has
has-absent_from k have [] h e = absurd cc
has-absent_from k have ((j, v) ∷ want) h e = elim (Bool-cases (j == k)) [
  | inl q ↦ let same : has j have ≡ false = rw ((eq_iff j k).0 q) e in rw (same, has, q) refl
  | inr q ↦
      let there = has-absent_from k have want (rw q at h) e in
      elim (Bool-cases (has j have)) [ inl p ↦ rw p there | inr p ↦ rw (p, has, q) there ]
]

-- What was wanted is there afterwards.
pub has-merge-absent_from :
    (k : String) (have want : Dict String)
    → has k want ≡ true
    → has k (merge have (absent_from have want)) ≡ true
has-merge-absent_from k have want h = elim (Bool-cases (has k have)) [
  | inl e ↦ has-merge k have _ e
  | inr e ↦ has-merge_src k have _ (has-absent_from k have want h e)
]

-- No annotation is overwritten.
pub merge-absent_from :
    (k v : String) (have want : Dict String)
    → lookup k have ≡ some v
    → lookup k (merge have (absent_from have want)) ≡ some v
merge-absent_from k v have want h =
    lookup-merge_ne k have (absent_from have want)
      (absent_from-lookup k have want (lookup-has k v have h))
    ∙ h
