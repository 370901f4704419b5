-- ===== src/RestAction/Deleting.antt =====
-- Which Secrets the removal of a copy deletes (resolver.go).
use authn.Prelude.{
  ◌≡◌, refl, sym, ap, ◌∙◌, Bool, true, false, not, ◌&&◌, ◌||◌, Option, none, some, List, [], ◌∷◌,
  ◌++◌, ◌==◌, arith, eq_iff, Bool-cases, inl, inr,
}
use authn.Go.Act.{Act, ◌>>◌, or_fail, return}
use authn.Cluster.{ObjectRef}
use authn.RestAction.Copies.{Objects, Stage, has_secret, undeleted, delete_endpoints}

abbrev same : ObjectRef → ObjectRef → Bool
same r x = (r.name == x.name) && (r.namespace == x.namespace)

-- The endpoints of the stages, in their order.
unfoldable pub endpoints : List Stage → List ObjectRef
endpoints [] = []
endpoints (stage ∷ stages) = elim stage.endpoint_ref [
  | none ↦ endpoints stages
  | some endpoint ↦ endpoint ∷ endpoints stages
]

-- The references that are not among those seen, each where it stands first.
unfoldable pub fresh : List ObjectRef → List ObjectRef → List ObjectRef
fresh seen [] = []
fresh seen (r ∷ refs) = elim (has_secret seen r) [
  | true ↦ fresh seen refs
  | false ↦ r ∷ fresh (seen ++ r ∷ []) refs
]

-- No reference stands in the list twice.
abbrev pub Once : List ObjectRef → Type 0
Once [] = Unit
Once (r ∷ refs) = (has_secret refs r ≡ false) × Once refs

-- Two lists hold the same references.
abbrev pub SameSecrets : List ObjectRef → List ObjectRef → Type 0
SameSecrets refs refs' = (r : ObjectRef) → has_secret refs r ≡ has_secret refs' r

has_secret-append :
    (list : List ObjectRef) (r x : ObjectRef)
    → has_secret (list ++ r ∷ []) x ≡ (has_secret list x || same r x)
unfolding has_secret
has_secret-append [] r x = ground arith
has_secret-append (y ∷ list) r x = rw (has_secret-append list r x) (or_assoc (same y x) _ _)
  where
    or_assoc : (a b c : Bool) → (a || (b || c)) ≡ ((a || b) || c)
    or_assoc true b c = refl
    or_assoc false b c = refl

same-has_secret :
    (list : List ObjectRef) (r x : ObjectRef)
    → same r x ≡ true
    → has_secret list r ≡ has_secret list x
same-has_secret list r x h =
    let names : r.name ≡ x.name = ground (arith, eq_iff r.name x.name) in
    let spaces : r.namespace ≡ x.namespace = ground (arith, eq_iff r.namespace x.namespace) in
    let whole : r ≡ x = λ i. record { name = names i; namespace = spaces i } in
    ap (has_secret list) whole

kept_out : (s h f : Bool) → (s ≡ true → h ≡ true) → (f && not h) ≡ ((s || f) && not h)
kept_out true h f k = rw (k refl) (ground arith)
kept_out false h f k = refl

let_in : (s h f : Bool) → (s ≡ true → h ≡ false) → (s || (f && not (h || s))) ≡ ((s || f) && not h)
let_in true h f k = rw (k refl) refl
let_in false h f k = ground arith

fresh-has_secret :
    (seen refs : List ObjectRef) (x : ObjectRef)
    → has_secret (fresh seen refs) x ≡ (has_secret refs x && not (has_secret seen x))
unfolding has_secret fresh
fresh-has_secret seen [] x = refl
fresh-has_secret seen (r ∷ refs) x = elim (Bool-cases (has_secret seen r)) [
  | inl e ↦
      rw (e, fresh)
        (fresh-has_secret seen refs x
          ∙ kept_out (same r x) (has_secret seen x) (has_secret refs x)
              (λ s. sym (same-has_secret seen r x s) ∙ e))
  | inr e ↦
      rw
        (e, fresh, has_secret, fresh-has_secret (seen ++ r ∷ []) refs x, has_secret-append seen r x)
        (let_in (same r x) (has_secret seen x) (has_secret refs x)
          (λ s. sym (same-has_secret seen r x s) ∙ e))
]

fresh-Once : (seen refs : List ObjectRef) → Once (fresh seen refs)
unfolding fresh
fresh-Once seen [] = tt
fresh-Once seen (r ∷ refs) = elim (Bool-cases (has_secret seen r)) [
  | inl e ↦ rw (e, fresh) (fresh-Once seen refs)
  | inr e ↦ rw (e, fresh) (gone, fresh-Once (seen ++ r ∷ []) refs)
]
  where
    gone : has_secret (fresh (seen ++ r ∷ []) refs) r ≡ false
    gone =
        rw (fresh-has_secret (seen ++ r ∷ []) refs r, has_secret-append seen r r)
          (ground (arith, eq_iff r.name r.name, eq_iff r.namespace r.namespace))

module _ {W : Type 0} (objects : Objects W) where
  -- One deletion after the other.
  unfoldable pub delete_each : ObjectRef → List ObjectRef → Act W (Unit {0})
  delete_each ref [] = return tt
  delete_each ref (r ∷ refs) =
      or_fail (objects.delete_secret r.namespace r.name) (undeleted objects ref r)
      >> delete_each ref refs

  stage-each :
      (ref : ObjectRef) (seen : List ObjectRef) (stage : Stage) (stages : List Stage)
      (o : Option ObjectRef) (w : W)
      → stage.endpoint_ref ≡ o
      → ((seen : List ObjectRef) (w : W)
          → delete_endpoints objects ref seen stages w
            ≡ delete_each ref (fresh seen (endpoints stages)) w)
      → delete_endpoints objects ref seen (stage ∷ stages) w
        ≡ delete_each ref (fresh seen (endpoints (stage ∷ stages))) w
  unfolding delete_endpoints delete_each endpoints fresh
  stage-each ref seen stage stages none w q ih = rw (q, delete_endpoints, endpoints) (ih seen w)
  stage-each ref seen stage stages (some r) w q ih = elim (Bool-cases (has_secret seen r)) [
    | inl e ↦ rw (q, delete_endpoints, endpoints, e, fresh) (ih seen w)
    | inr e ↦
        let first = or_fail (objects.delete_secret r.namespace r.name) (undeleted objects ref r) in
        let rest : delete_endpoints objects ref (seen ++ r ∷ []) stages
            ≡ delete_each ref (fresh (seen ++ r ∷ []) (endpoints stages)) =
          λ i u. ih (seen ++ r ∷ []) u i in
        rw (q, delete_endpoints, endpoints, e, fresh, delete_each) (ap (λ m. (first >> m) w) rest)
  ]

  delete_endpoints-each :
      (ref : ObjectRef) (seen : List ObjectRef) (stages : List Stage) (w : W)
      → delete_endpoints objects ref seen stages w
        ≡ delete_each ref (fresh seen (endpoints stages)) w
  unfolding delete_endpoints delete_each endpoints fresh
  delete_endpoints-each ref seen [] w = refl
  delete_endpoints-each ref seen (stage ∷ stages) w =
      stage-each ref seen stage stages stage.endpoint_ref w refl
        (λ seen' u. delete_endpoints-each ref seen' stages u)

  -- The removal of a copy deletes the endpoint Secret of every stage, each of them once, in the
  -- order in which the stages name them first.
  pub delete_endpoints-Once :
      (ref : ObjectRef) (stages : List Stage) (w : W)
      → (delete_endpoints objects ref [] stages w ≡ delete_each ref (fresh [] (endpoints stages)) w)
        × (Once (fresh [] (endpoints stages))
            × SameSecrets (fresh [] (endpoints stages)) (endpoints stages))
  unfolding has_secret
  delete_endpoints-Once ref stages w = (
    delete_endpoints-each ref [] stages w,
    (fresh-Once [] (endpoints stages), λ r. fresh-has_secret [] (endpoints stages) r ∙ and_true _),
  )
    where
      and_true : (b : Bool) → (b && true) ≡ b
      and_true true = refl
      and_true false = refl
