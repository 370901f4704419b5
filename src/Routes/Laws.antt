-- ===== src/Routes/Laws.antt =====
-- Which route answers a request (routes.go).
use authn.Prelude.{
  String, ◌≡◌, refl, sym, ap, ◌∙◌, true, false, ◌&&◌, List, [], ◌∷◌, ◌++◌, ◌==◌, Bool-cases, inl,
  inr,
}
use mathlib.Core.List.{append_assoc, append-nil}
use authn.Routes.{
  Route, Served, calls, page_not_found, method_not_allowed, refuse, serve_from, serve,
}

module _ {H : Type 0} (path : String) where
  -- The methods of the routes with this path, in their order.
  unfoldable pub methods_at : List (Route H) → List String
  methods_at [] = []
  methods_at (route ∷ all) = elim (path == route.pattern) [
    | true ↦ route.method ∷ methods_at all
    | false ↦ methods_at all
  ]

  -- The first route with this path and this method, or else the answer given.
  unfoldable pub first_or : String → Served H → List (Route H) → Served H
  first_or method other [] = other
  first_or method other (route ∷ all) = elim ((path == route.pattern) && (method == route.method)) [
    | true ↦ calls route.handler
    | false ↦ first_or method other all
  ]

  methods_at-hit :
      (route : Route H) (all : List (Route H))
      → (path == route.pattern) ≡ true
      → methods_at (route ∷ all) ≡ route.method ∷ methods_at all
  unfolding methods_at
  methods_at-hit route all p = rw (p, methods_at) refl

  methods_at-miss :
      (route : Route H) (all : List (Route H))
      → (path == route.pattern) ≡ false
      → methods_at (route ∷ all) ≡ methods_at all
  unfolding methods_at
  methods_at-miss route all p = rw (p, methods_at) refl

  serve_from-first_or :
      (method : String) (allow : List String) (all : List (Route H))
      → serve_from allow all path method ≡ first_or method (refuse (allow ++ methods_at all)) all
  unfolding serve_from first_or methods_at
  serve_from-first_or method allow [] = ap refuse (sym (append-nil allow))
  serve_from-first_or method allow (route ∷ all) = elim (Bool-cases (path == route.pattern)) [
    | inl p ↦ elim (Bool-cases (method == route.method)) [
      | inl m ↦ rw (p, m, first_or) refl
      | inr m ↦ rw (methods_at-hit route all p) (
          rw (p, m, first_or)
            (serve_from-first_or method (allow ++ route.method ∷ []) all
              ∙ ap (λ l. first_or method (refuse l) all)
                  (append_assoc allow (route.method ∷ []) _)))
    ]
    | inr p ↦
        rw (methods_at-miss route all p) (rw (p, first_or) (serve_from-first_or method allow all))
  ]

  -- The answer where no route has this path and the method: 404 where none has the path, and else
  -- 405 with their methods.
  unfoldable pub not_served : List String → Served H
  not_served [] = page_not_found
  not_served (m ∷ methods) = method_not_allowed (m ∷ methods)

  refuse-not_served : (methods : List String) → refuse methods ≡ not_served methods
  unfolding not_served
  refuse-not_served [] = refl
  refuse-not_served (m ∷ methods) = refl

  -- A request is served by the handler of the first route with its path and its method; where there
  -- is none it is answered with 405 and the methods of the routes with its path, in their order, and
  -- with 404 where no route has its path.
  pub serve_lem :
      (method : String) (all : List (Route H))
      → serve all path method ≡ first_or method (not_served (methods_at all)) all
  unfolding serve
  serve_lem method all =
      serve_from-first_or method [] all
      ∙ ap (λ other. first_or method other all) (refuse-not_served (methods_at all))
