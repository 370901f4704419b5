-- ===== src/RestAction/Laws.antt =====
-- What a resolved RESTAction proves (resolver.go).
use Prim.Native.String
use authn.Prelude.{
  ℕ, String, ◌≡◌, ◌≢◌, refl, ap, true, not, Option, none, some, [], ◌∷◌, nat_eq, ◌==◌, arith,
  eq_iff, Bool-cases, inl, inr,
}
use authn.Go.Dict.{Dict}
use authn.Go.Json.{Json}
use authn.Go.Http.{HttpRequest, HttpResponse}
use authn.Go.Act.{ok, ok-injective, err≢ok, lift, ◌>>=◌}
use authn.Go.Act.Triple.{Triple, bind, next, lifts, or_fails, calls, returns}
use authn.Go.Check.{or_err-ok, require-ok}
use authn.Cluster.{ObjectRef}
use authn.RestAction.{Snowplow, call, resolve, accepted, jwt_of, read_request, status_in, read_url}

module _ {W : Type 0} (snowplow : Snowplow W) where
  open snowplow use {
    snowplow_url, access_token, marshal_extras, encode_query, send, unmarshal_status,
  }

  -- A request that snowplow answered with 200 and this body, and the worlds before and after it.
  pub record Got (request : HttpRequest) (before : W) (raw : String) (later : W) : Type 0 where
    pub resp : HttpResponse
    pub sent : send request before ≡ (ok resp, later)
    pub read : resp.body ≡ ok raw
    pub status_ok : resp.status_code ≡ 200

  accepted-ok :
      (code : ℕ) (raw : String) {u : Unit {0}} → accepted snowplow code raw ≡ ok u → code ≡ 200
  accepted-ok code raw h = elim (Bool-cases (nat_eq code 200)) [
    | inl e ↦ ground arith
    | inr e ↦ absurd (err≢ok (rw e at h))
  ]

  call-Got :
      (request : HttpRequest) (start : W)
      → Triple (λ v. v ≡ start) (call snowplow request) (Got request start)
  unfolding call
  call-Got request start =
      bind {Mid = λ resp u. send request start ≡ (ok resp, u)}
        (or_fails _ (calls (λ w p resp u e. rw p at e)))
        (λ resp.
          bind {Mid = λ raw u. (send request start ≡ (ok resp, u)) × (resp.body ≡ ok raw)}
            (or_fails _ (lifts (λ w p raw e. (p, e))))
            (λ raw.
              next
                {Mid = λ _ u.
                  (send request start ≡ (ok resp, u))
                  × (resp.body ≡ ok raw)
                  × (resp.status_code ≡ 200)}
                (lifts (λ w p v e. (p.0, p.1, accepted-ok resp.status_code raw e)))
                (λ _.
                  returns
                    (λ w p. record { resp = resp; sent = p.0; read = p.1; status_ok = p.2 }))))

  -- A RESTAction that was resolved: snowplow answered with 200 to the one request that was sent, whose
  -- body holds the user's token and whose address and headers do not depend on it.
  pub record Resolved (ref : ObjectRef) (bearer_token : String) (w : W) (values : Dict Json) (u : W)
      : Type 0 where
    pub configured : snowplow_url ≢ ""
    pub body : String
    pub holds_token : marshal_extras bearer_token ≡ ok body
    pub jwt : String
    pub from_context : access_token ≡ some jwt
    pub raw : String
    pub got :
        Got
          (record {
            method = "POST";
            url = String.◌++◌ snowplow_url (
                String.◌++◌ "/call/read?" (
                  encode_query (
                    ("apiVersion", "templates.krateo.io/v1")
                    ∷ ("resource", "restactions")
                    ∷ ("name", ref.name)
                    ∷ ("namespace", ref.namespace)
                    ∷ [])));
            headers =
                ("Content-Type", "application/json")
                ∷ ("Accept", "application/json")
                ∷ ("Authorization", String.◌++◌ "Bearer " jwt)
                ∷ [];
            body = body;
          })
          w
          raw
          u
    pub understood : unmarshal_status raw ≡ ok values

  jwt_of-ok : (o : Option String) {jwt : String} → jwt_of snowplow o ≡ ok jwt → o ≡ some jwt
  jwt_of-ok none h = absurd (err≢ok h)
  jwt_of-ok (some jwt) h = ap (λ r. some r) (ok-injective h)

  configured-ne : not (snowplow_url == "") ≡ true → snowplow_url ≢ ""
  configured-ne h = ground (arith, eq_iff snowplow_url "")

  record Prepared (bearer_token body jwt : String) : Type 0 where
    configured : snowplow_url ≢ ""
    holds_token : marshal_extras bearer_token ≡ ok body
    from_context : access_token ≡ some jwt

  answered :
      (ref : ObjectRef) (bearer_token body jwt : String) (start : W)
      → Triple
          (λ v. (v ≡ start) × Prepared bearer_token body jwt)
          (call snowplow (read_request snowplow ref jwt body)
            >>= (λ raw. lift (status_in snowplow raw)))
          (Resolved ref bearer_token start)
  unfolding read_request read_url
  answered ref bearer_token body jwt start =
      bind
        {Mid = λ raw u.
          Prepared bearer_token body jwt × Got (read_request snowplow ref jwt body) start raw u}
        (calls (λ w p raw u e. (p.1, (call-Got _ start).run w p.0 raw u e)))
        (λ raw. lifts (λ w p v e. record {
          configured = p.0.configured;
          body = body;
          holds_token = p.0.holds_token;
          jwt = jwt;
          from_context = p.0.from_context;
          raw = raw;
          got = p.1;
          understood = or_err-ok _ _ e;
        }))

  resolve-Triple :
      (ref : ObjectRef) (bearer_token : String) (start : W)
      → Triple
          (λ v. v ≡ start)
          (resolve snowplow ref bearer_token)
          (Resolved ref bearer_token start)
  unfolding resolve
  resolve-Triple ref bearer_token start =
      next {Mid = λ _ v. (v ≡ start) × (snowplow_url ≢ "")}
        (lifts (λ w p u e. (p, configured-ne (require-ok _ _ e))))
        (λ _.
          bind
            {Mid = λ body v.
              (v ≡ start) × (snowplow_url ≢ "") × (marshal_extras bearer_token ≡ ok body)}
            (lifts (λ w p body e. (p.0, p.1, or_err-ok _ _ e)))
            (λ body.
              next
                {Mid = λ _ v.
                  (v ≡ start) × (snowplow_url ≢ "") × (marshal_extras bearer_token ≡ ok body)}
                (lifts (λ w p u e. p))
                (λ _.
                  bind {Mid = λ jwt v. (v ≡ start) × Prepared bearer_token body jwt}
                    (lifts (λ w p jwt e. (
                      p.0,
                      record {
                        configured = p.1;
                        holds_token = p.2;
                        from_context = jwt_of-ok access_token e;
                      },
                    )))
                    (λ jwt. answered ref bearer_token body jwt start))))

  -- A RESTAction is resolved only by an answer of 200 to one request: the user's token is in its body
  -- alone, while its address names the RESTAction and its headers hold this service's own token; and
  -- nothing else is asked of the world.
  pub resolve-Resolved :
      (ref : ObjectRef) (bearer_token : String) (values : Dict Json) (w u : W)
      → resolve snowplow ref bearer_token w ≡ (ok values, u)
      → Resolved ref bearer_token w values u
  resolve-Resolved ref bearer_token values w u h =
      (resolve-Triple ref bearer_token w).run w refl values u h
