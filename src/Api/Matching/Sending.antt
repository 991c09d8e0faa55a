-- ===== src/Api/Matching/Sending.antt =====
-- A library that joins the pieces of a filled template with slashes sends what is asked of it.
use automated_actions.Prelude.{
  String, ◌≡◌, refl, ap, ◌∙◌, ◌⊎◌, inl, inr, Bool, true, false, ◌||◌, List, [], ◌∷◌, map,
  Bool-cases, eq_refl, arith,
}
use text.Mathlib.Text.{starts_with}
use automated_actions.Text.{split, join, rstrip}
use automated_actions.Text.Laws.{split-cons, split-join, some_has, some_has-split}
use automated_actions.Api.Matching.{literal, param, segment, segments, has_param, fill, IsPiece}

segment-cases :
    (s : String) → (segment s ≡ literal s) ⊎ ((name : String) × (segment s ≡ param name))
unfolding segment
segment-cases String.[] = inl refl
segment-cases (String.◌∷◌ c s) = elim (Bool-cases (starts_with (String.◌∷◌ c s) "{")) [
  | inl named ↦ inr (rstrip 125 s, rw named refl)
  | inr plain ↦ inl (rw plain refl)
]

module _ (values : String → String) where
  fill_whole :
      (pieces : List String)
      → some_has 47 pieces ≡ false
      → ((k : String) → has_param k (map segment pieces) ≡ true → IsPiece (values k))
      → some_has 47 (fill values (map segment pieces)) ≡ false
  unfolding fill
  fill_whole [] h p = refl
  fill_whole (s ∷ pieces) h p = elim (segment-cases s) [
    | inl e ↦
        let rest = fill_whole pieces (tail_whole _ _ h) (λ k among. p k (rw e among)) in
        rw e (neither _ _ (head_whole _ _ h) rest)
    | inr (name, e) ↦
        let here = p name (rw (e, eq_refl name) refl) in
        let rest = fill_whole pieces (tail_whole _ _ h) (λ k among. p k (rw e (later _ _ among))) in
        rw e (neither _ _ here.whole rest)
  ]
    where
      head_whole : (a b : Bool) → (a || b) ≡ false → a ≡ false
      head_whole a b g = ground arith

      tail_whole : (a b : Bool) → (a || b) ≡ false → b ≡ false
      tail_whole a b g = ground arith

      neither : (a b : Bool) → a ≡ false → b ≡ false → (a || b) ≡ false
      neither a b g i = ground arith

      later : (a b : Bool) → b ≡ true → (a || b) ≡ true
      later a b g = ground arith

  fill-cons :
      (s : String) (pieces : List String)
      → (first : String) × (rest : List String) × (fill values (map segment (s ∷ pieces))
          ≡ first ∷ rest)
  unfolding fill
  fill-cons s pieces = elim (segment-cases s) [
    | inl e ↦ (s, fill values (map segment pieces), rw e refl)
    | inr (name, e) ↦ (values name, fill values (map segment pieces), rw e refl)
  ]

  pub split-filled :
      (template : String)
      → ((k : String) → has_param k (segments template) ≡ true → IsPiece (values k))
      → split 47 (join "/" (fill values (segments template))) ≡ fill values (segments template)
  unfolding segments
  split-filled template p =
      let (s, pieces, e) = split-cons 47 template in
      let whole = fill_whole (split 47 template) (some_has-split 47 template) p in
      let (first, rest, filled) = fill-cons s pieces in
      let all : fill values (map segment (split 47 template)) ≡ first ∷ rest =
        ap (λ ps. fill values (map segment ps)) e ∙ filled in
      rw all (split-join _ first rest (rw all at whole))
