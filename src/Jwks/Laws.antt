-- ===== src/Jwks/Laws.antt =====
-- Which previous keys are published (previous.go, jwks.go).
use authn.Prelude.{
  String, ◌≡◌, ◌↔◌, refl, sym, ap, ◌∙◌, Bool, true, false, not, Option, List, [], ◌∷◌, ◌++◌, ◌==◌,
  eq_iff, In, In-append_left, In-append_right, Distinct, Bool-cases, inl, inr, arith,
  slices_contains,
}
use mathlib.Core.List.{append_assoc, append-nil}
use authn.Go.Text.{split, trim_space}
use authn.Go.Dict.{Dict, lookup, insert}
use authn.Go.Dict.Seen.{Tracks, Tracks-insert, contains-false, false-contains}
use authn.Go.Act.{ok, ok-injective}
use authn.Go.Check.{
  bind-ok, ok-bind, next-ok, ok-next, require-ok, ok-require, or_err-ok, ok-or_err,
}
use authn.Jwks.{
  Key, Keys, Jwk, jwk, published, endpoint, is_current, key_of, keys_from, parse_previous_keys,
  kid_and_path, public_key_from_pem,
}

false_of_not : (b : Bool) → not b ≡ true → b ≡ false
false_of_not b h = ground arith

not_of_false : (b : Bool) → b ≡ false → not b ≡ true
not_of_false b h = ground arith

-- The key IDs of a key set.
abbrev pub kids : List Jwk → List String
kids [] = []
kids (k ∷ set) = k.kid ∷ kids set

-- No key has a kid that is known already, or that a key before it has.
abbrev pub Unused : {PublicKey : Type 0} → List String → List (Key PublicKey) → Type 0
Unused known [] = Unit
Unused known (k ∷ found) = ¬ In k.kid known × Unused (known ++ k.kid ∷ []) found

module _ {PublicKey : Type 0} (keys : Keys PublicKey) where
  -- The published keys.
  abbrev pub jwks_of : List (Key PublicKey) → List Jwk
  jwks_of [] = []
  jwks_of (k ∷ found) = jwk keys k ∷ jwks_of found

  published-append :
      (set : List Jwk) (found : List (Key PublicKey))
      → published keys set found ≡ set ++ jwks_of found
  unfolding published
  published-append set [] = sym (append-nil set)
  published-append set (k ∷ found) =
      published-append (set ++ jwk keys k ∷ []) found
      ∙ append_assoc set (jwk keys k ∷ []) (jwks_of found)

module _ {PublicKey : Type 0} (keys : Keys PublicKey) (current_kid : String)
    (current : Option PublicKey) where
  -- An entry names this key: it is kid=path, and the file of the path holds the key, which is not the
  -- current one.
  pub record Names (entry : String) (k : Key PublicKey) : Type 0 where
    pub path : String
    pub raw : String
    pub parts : kid_and_path entry ≡ ok (k.kid, path)
    pub held : keys.read_file path ≡ ok raw
    pub parsed : public_key_from_pem keys raw ≡ ok k.public
    pub retired : is_current keys current_kid current k.public ≡ false

  -- The keys that the entries name, one for each that is not blank, in their order.
  pub data Listed : List String → List (Key PublicKey) → Type 0 where
    none_left : Listed [] []
    blank :
        {entry : String} {entries : List String} {found : List (Key PublicKey)}
        → trim_space entry ≡ ""
        → Listed entries found
        → Listed (entry ∷ entries) found
    key :
        {entry : String} {entries : List String} {k : Key PublicKey} {found : List (Key PublicKey)}
        → (trim_space entry == "") ≡ false
        → Names (trim_space entry) k
        → Listed entries found
        → Listed (entry ∷ entries) (k ∷ found)

  module _ (seen : Dict Bool) (known : List String) (t : Tracks seen known) where
    key_of-ok :
        (entry : String) (k : Key PublicKey)
        → key_of keys current_kid current seen entry ≡ ok k
        → Names entry k × ¬ In k.kid known
    unfolding key_of
    key_of-ok entry k h =
        let (kp, parts, h₁) = bind-ok _ _ h in
        let ((_, unseen), h₂) = next-ok _ _ h₁ in
        let (raw, held, h₃) = bind-ok _ _ h₂ in
        let (public, parsed, h₄) = bind-ok _ _ h₃ in
        let ((_, other), h₅) = next-ok _ _ h₄ in
        rw (← ok-injective h₅) (
          record {
            path = kp.1;
            raw = raw;
            parts = parts;
            held = or_err-ok _ _ held;
            parsed = or_err-ok _ _ parsed;
            retired = false_of_not _ (require-ok _ _ other);
          },
          contains-false known kp.0 (sym (t kp.0) ∙ false_of_not _ (require-ok _ _ unseen)),
        )

    ok-key_of :
        (entry : String) (k : Key PublicKey)
        → Names entry k
        → ¬ In k.kid known
        → key_of keys current_kid current seen entry ≡ ok k
    unfolding key_of
    ok-key_of entry k n fresh =
        ok-bind _ _ (k.kid, n.path) n.parts
          (ok-next _ _ tt
            (ok-require _ _ (not_of_false _ (t k.kid ∙ false-contains known k.kid fresh)))
            (ok-bind _ _ n.raw (ok-or_err _ _ n.held) (
              ok-bind _ _ k.public (ok-or_err _ _ n.parsed)
                (ok-next _ _ tt (ok-require _ _ (not_of_false _ n.retired)) refl))))

  abbrev Read : List String → List String → List (Key PublicKey) → Type 0
  Read known entries found = Listed entries found × Unused known found

  keys_from-ok :
      (seen : Dict Bool) (known : List String) (found : List (Key PublicKey))
      (entries : List String) (every : List (Key PublicKey))
      → Tracks seen known
      → keys_from keys current_kid current seen found entries ≡ ok every
      → (more : List (Key PublicKey)) × (every ≡ found ++ more) × Read known entries more
  unfolding keys_from
  keys_from-ok seen known found [] every t h =
      ([], sym (ok-injective h) ∙ sym (append-nil found), (none_left, tt))
  keys_from-ok seen known found (entry ∷ entries) every t h =
      elim (Bool-cases (trim_space entry == "")) [
        | inl e ↦
            let (more, same, (listed, unused)) =
              keys_from-ok seen known found entries every t (rw e at h) in
            (more, same, (blank ((eq_iff _ _).0 e) listed, unused))
        | inr e ↦
            let (k, first, rest) = bind-ok _ _ (rw e at h) in
            let (names, fresh) = key_of-ok seen known t (trim_space entry) k first in
            let (more, same, (listed, unused)) =
              keys_from-ok (insert k.kid true seen) (known ++ k.kid ∷ []) (found ++ k ∷ []) entries
                every (Tracks-insert seen known k.kid t) rest in
            (
              k ∷ more,
              same ∙ append_assoc found (k ∷ []) more,
              (key e names listed, (fresh, unused)),
            )
      ]

  ok-keys_from :
      (seen : Dict Bool) (known : List String) (found : List (Key PublicKey))
      {entries : List String} {more : List (Key PublicKey)}
      → Tracks seen known
      → Listed entries more
      → Unused known more
      → keys_from keys current_kid current seen found entries ≡ ok (found ++ more)
  unfolding keys_from
  ok-keys_from seen known found t none_left u = ap (λ l. ok l) (sym (append-nil found))
  ok-keys_from seen known found t (blank {entry} e l) u =
      rw ((eq_iff (trim_space entry) "").1 e) (ok-keys_from seen known found t l u)
  ok-keys_from seen known found t (key {entry} {k = k} {found = more} ne n l) (fresh, u) = rw ne (
      ok-bind _ _ k (ok-key_of seen known t (trim_space entry) k n fresh) (
        ok-keys_from (insert k.kid true seen) (known ++ k.kid ∷ []) (found ++ k ∷ [])
          (Tracks-insert seen known k.kid t) l u
        ∙ ap (λ l. ok l) (append_assoc found (k ∷ []) more)))

  -- The previous keys are read exactly when every entry that is not blank names one, as kid=path
  -- with a file that holds a key other than the current one, and no two of them have one kid, nor
  -- any the current one; they are then these keys, in the order of the entries.
  pub parse_previous_keys_iff :
      (spec : String) (found : List (Key PublicKey))
      → (parse_previous_keys keys current_kid current spec ≡ ok found)
        ↔ (Listed (split b',' spec) found × Unused (current_kid ∷ []) found)
  unfolding parse_previous_keys lookup slices_contains
  parse_previous_keys_iff spec found = (
    λ h.
        let (more, same, read) =
          keys_from-ok ((current_kid, true) ∷ []) (current_kid ∷ []) [] _ found start h in
        rw same read,
    λ (l, u). ok-keys_from ((current_kid, true) ∷ []) (current_kid ∷ []) [] start l u,
  )
    where
      start : Tracks ((current_kid, true) ∷ []) (current_kid ∷ [])
      start g = ground (arith, eq_iff current_kid g)

  Unused-new :
      (known : List String) (found : List (Key PublicKey)) (g : String)
      → Unused known found
      → In g (kids (jwks_of keys found))
      → ¬ In g known
  unfolding jwk
  Unused-new known [] g u m = absurd m
  Unused-new known (k ∷ found) g (fresh, u) (inl e) = λ n. fresh (rw e n)
  Unused-new known (k ∷ found) g (fresh, u) (inr m) =
      λ n. Unused-new (known ++ k.kid ∷ []) found g u m (In-append_left g known (k.kid ∷ []) n)

  Unused-Distinct :
      (known : List String) (found : List (Key PublicKey))
      → Unused known found
      → Distinct (kids (jwks_of keys found))
  unfolding jwk
  Unused-Distinct known [] u = tt
  Unused-Distinct known (k ∷ found) (fresh, u) = (
    λ m.
        Unused-new (known ++ k.kid ∷ []) found k.kid u m
          (In-append_right k.kid known (k.kid ∷ []) (inl refl)),
    Unused-Distinct (known ++ k.kid ∷ []) found u,
  )

  -- With the previous keys that were read, the key set that is served is the current key under its
  -- kid, followed by them in their order, and no kid stands in it twice.
  pub endpoint-Distinct :
      (public : PublicKey) (spec : String) (found : List (Key PublicKey))
      → parse_previous_keys keys current_kid current spec ≡ ok found
      → (endpoint keys public current_kid found
          ≡ jwk keys (record { kid = current_kid; public = public }) ∷ jwks_of keys found)
        × Distinct (kids (endpoint keys public current_kid found))
  unfolding endpoint jwk
  endpoint-Distinct public spec found h =
      let unused = ((parse_previous_keys_iff spec found).0 h).1 in
      let whole =
        published-append keys (jwk keys (record { kid = current_kid; public = public }) ∷ [])
          found in
      (
        whole,
        rw whole (
          λ m. Unused-new (current_kid ∷ []) found current_kid unused m (inl refl),
          Unused-Distinct (current_kid ∷ []) found unused,
        ),
      )
