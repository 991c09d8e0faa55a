-- ===== src/Api/Matching/Laws.antt =====
-- Which route a filled template is matched with.
use automated_actions.Prelude.{
  String, ◌≡◌, refl, ap, ◌∙◌, inl, inr, Bool, true, false, not, ◌&&◌, ◌||◌, Option, none, some,
  List, [], ◌∷◌, ◌==◌, if◌then◌else◌, Bool-cases, eq_iff, eq_refl, arith,
}
use automated_actions.Dict.{lookup}
use automated_actions.Api.Signature.{Method, same_method}
use automated_actions.Api.Routes.{ApiRoute}
use automated_actions.Api.Matching.{
  Segment, literal, param, segments, has_param, fill, params_of, match_segments, first_match, Http,
  IsPiece, IsHttp,
}

-- Two templates that no path matches, if values are given for the second one.
abbrev pub differ : List Segment → List Segment → Bool
differ [] [] = false
differ [] (u ∷ us) = true
differ (s ∷ ss) [] = true
differ (literal s ∷ ss) (literal u ∷ us) = not (s == u) || differ ss us
differ (literal s ∷ ss) (param u ∷ us) = differ ss us
differ (param s ∷ ss) (literal u ∷ us) = differ ss us
differ (param s ∷ ss) (param u ∷ us) = differ ss us

-- The route for a template, where those before it differ from it in the method or the literals.
abbrev pub selected : Method → String → List ApiRoute → Option ApiRoute
selected method template [] = none
selected method template (r ∷ routes) =
    let rest = selected method template routes in
    if same_method r.method method && (r.path == template)
    then some r
    else if not (same_method r.method method) || differ (segments r.path) (segments template)
    then rest
    else none

some-injective : {a b : ApiRoute} → ◌≡◌ {A = Option ApiRoute} (some a) (some b) → a ≡ b
some-injective h = cc

module _ (values : String → String) where
  match-fill :
      (ss : List Segment)
      → ((k : String) → has_param k ss ≡ true → IsPiece (values k))
      → match_segments ss (fill values ss) ≡ some (params_of values ss)
  unfolding match_segments fill params_of
  match-fill [] h = refl
  match-fill (literal s ∷ ss) h = rw (eq_refl s, match-fill ss h) refl
  match-fill (param name ∷ ss) h =
      let piece = h name (rw (eq_refl name) refl) in
      rw (piece.nonempty, match-fill ss (λ k p. h k (or-later (name == k) (has_param k ss) p))) refl
    where
      or-later : (a b : Bool) → b ≡ true → (a || b) ≡ true
      or-later a b p = ground arith

  match-none :
      (ss us : List Segment) → differ ss us ≡ true → match_segments ss (fill values us) ≡ none
  unfolding match_segments fill
  match-none [] [] h = cc
  match-none [] (literal u ∷ us) h = refl
  match-none [] (param u ∷ us) h = refl
  match-none (s ∷ ss) [] h = refl
  match-none (literal s ∷ ss) (literal u ∷ us) h = ground (arith, match-none ss us)
  match-none (literal s ∷ ss) (param u ∷ us) h = ground (arith, match-none ss us)
  match-none (param s ∷ ss) (literal u ∷ us) h = ground (arith, match-none ss us)
  match-none (param s ∷ ss) (param u ∷ us) h = ground (arith, match-none ss us)

  pub lookup-params_of :
      (k : String) (ss : List Segment)
      → has_param k ss ≡ true
      → lookup k (params_of values ss) ≡ some (values k)
  unfolding lookup params_of
  lookup-params_of k [] h = cc
  lookup-params_of k (literal s ∷ ss) h = lookup-params_of k ss h
  lookup-params_of k (param name ∷ ss) h = elim (Bool-cases (name == k)) [
    | inl e ↦ rw (e, (eq_iff _ _).0 e) refl
    | inr e ↦ rw (e, lookup-params_of k ss (rw e at h)) refl
  ]

  match_filled :
      (path template : String)
      → path ≡ template
      → ((k : String) → has_param k (segments template) ≡ true → IsPiece (values k))
      → match_segments (segments path) (fill values (segments template))
        ≡ some (params_of values (segments template))
  match_filled path template e h = rw e (match-fill (segments template) h)

  none-ne-some : {A : Type 0} {a : A} → ◌≡◌ {A = Option A} none (some a) → ⊥
  none-ne-some h = cc

  -- The route that is selected by its template takes the path.
  first_match-fill :
      (method : Method) (template : String) (routes : List ApiRoute) (route : ApiRoute)
      → ((k : String) → has_param k (segments template) ≡ true → IsPiece (values k))
      → selected method template routes ≡ some route
      → first_match method (fill values (segments template)) routes
        ≡ some (route, params_of values (segments template))
  unfolding first_match
  first_match-fill method template [] route h e = absurd (none-ne-some e)
  first_match-fill method template (r ∷ routes) route h e =
      elim (Bool-cases (same_method r.method method)) [
        | inr other ↦ rw other (first_match-fill method template routes route h (rw other at e))
        | inl same ↦ elim (Bool-cases (r.path == template)) [
          | inl here ↦
              rw (same, match_filled r.path template ((eq_iff _ _).0 here) h)
                (ap (λ q. some (q, params_of values (segments template)))
                  (some-injective (rw (same, here) at e)))
          | inr there ↦ elim (Bool-cases (differ (segments r.path) (segments template))) [
            | inl apart ↦
                rw (same, match-none (segments r.path) (segments template) apart)
                  (first_match-fill method template routes route h (rw (same, there, apart) at e))
            | inr close ↦ absurd (none-ne-some (rw (same, there, close) at e))
          ]
        ]
      ]

module _ (http : Http) (works : IsHttp http) where
  -- A request for a template with its values gets to the route that is selected.
  pub route_for-sent_path :
      (values : String → String) (method : Method) (template : String) (routes : List ApiRoute)
      (route : ApiRoute)
      → ((k : String) → has_param k (segments template) ≡ true → IsPiece (values k))
      → selected method template routes ≡ some route
      → http.route_for routes method (http.sent_path template values)
        ≡ some (route, params_of values (segments template))
  route_for-sent_path values method template routes route h e =
      works.routed routes method (http.sent_path template values)
      ∙ (ap (λ pieces. first_match method pieces routes) (works.sent template values h)
          ∙ first_match-fill values method template routes route h e)
