-- ===== src/Text/Laws.antt =====
-- Splitting and joining texts.
use Prim.Native.Char.{Char, code}
use text.Mathlib.TextLemmas.{nil-append, cons-append}
use text.Mathlib.TextEquality.{Char-path}
use automated_actions.Prelude.{
  ℕ, Bool, String, ◌≡◌, refl, ap, ◌∙◌, sym, true, false, ◌||◌, List, [], ◌∷◌, arith, eqb,
  Bool-cases, inl, inr,
}
use automated_actions.Text.{◌+++◌, has_char, prepend, split, join}

pub eqb→eq : (a b : ℕ) → eqb a b ≡ true → a ≡ b
eqb→eq a b h = ground arith

-- A split has at least one piece.
pub split-cons :
    (c : ℕ) (s : String) → (piece : String) × (pieces : List String) × (split c s ≡ piece ∷ pieces)
unfolding split
split-cons c String.[] = ("", [], refl)
split-cons c (String.◌∷◌ d s) =
    let (piece, pieces, e) = split-cons c s in
    elim (Bool-cases (eqb (code d) c)) [
      | inl sep ↦ ("", split c s, rw sep)
      | inr more ↦ (String.◌∷◌ d piece, pieces, rw more (rw e))
    ]

join-prepend :
    (sep : String) (d : Char) (piece : String) (pieces : List String)
    → join sep (prepend d (piece ∷ pieces)) ≡ String.◌∷◌ d (join sep (piece ∷ pieces))
unfolding join
join-prepend sep d piece [] = refl
join-prepend sep d piece (next ∷ pieces) = cons-append d piece _

join-separated :
    (d e : Char) (piece : String) (pieces : List String) (s : String)
    → eqb (code e) (code d) ≡ true
    → join (String.◌∷◌ d String.[]) (piece ∷ pieces) ≡ s
    → join (String.◌∷◌ d String.[]) ("" ∷ piece ∷ pieces) ≡ String.◌∷◌ e s
unfolding join
join-separated d e piece pieces s sep ih =
    nil-append _
    ∙ cons-append d String.[] _
    ∙ ap (String.◌∷◌ d) (nil-append _ ∙ ih)
    ∙ ap (λ c. String.◌∷◌ c s) (sym (Char-path e d (eqb→eq _ _ sep)))

-- Joining the pieces with the separator gives the text back.
pub join-split : (d : Char) (s : String) → join (String.◌∷◌ d String.[]) (split (code d) s) ≡ s
unfolding split
join-split d String.[] = unfold join in refl
join-split d (String.◌∷◌ e s) =
    let (piece, pieces, eq) = split-cons (code d) s in
    let ih = join-split d s in
    elim (Bool-cases (eqb (code e) (code d))) [
      | inl sep ↦ rw sep (rw eq (join-separated d e piece pieces s sep (rw eq at ih)))
      | inr more ↦ rw more (rw eq (join-prepend _ e piece pieces ∙ ap (String.◌∷◌ e) (rw eq at ih)))
    ]

-- A text without the separator is one piece.
pub split_whole : (c : ℕ) (s : String) → has_char c s ≡ false → split c s ≡ s ∷ []
unfolding split has_char
split_whole c String.[] h = refl
split_whole c (String.◌∷◌ d s) h = elim (Bool-cases (eqb (code d) c)) [
  | inl sep ↦ ground arith
  | inr more ↦ rw more (rw (split_whole c s (ground arith)))
]

abbrev pub is_cons : List String → Bool
is_cons [] = false
is_cons (piece ∷ pieces) = true

-- The first piece has no separator, and there is a second one if the text has a separator.
pub split_first :
    (c : ℕ) (s : String)
    → (piece : String) × (pieces : List String) × (split c s ≡ piece ∷ pieces)
      × (has_char c piece ≡ false)
      × (is_cons pieces ≡ has_char c s)
unfolding split has_char
split_first c String.[] = ("", [], refl, refl, refl)
split_first c (String.◌∷◌ d s) =
    let (piece, pieces, e, free, second) = split_first c s in
    elim (Bool-cases (eqb (code d) c)) [
      | inl sep ↦ ("", split c s, rw sep, refl, rw sep (ap is_cons e))
      | inr more ↦ (String.◌∷◌ d piece, pieces, rw more (rw e), rw more free, rw more second)
    ]

-- Whether a piece has the character.
abbrev pub some_has : ℕ → List String → Bool
some_has c [] = false
some_has c (piece ∷ pieces) = has_char c piece || some_has c pieces

split_separated :
    (d : Char) (piece s : String)
    → has_char (code d) piece ≡ false
    → split (code d) (piece +++ String.◌∷◌ d s) ≡ piece ∷ split (code d) s
unfolding split has_char
split_separated d String.[] s h = rw (nil-append (String.◌∷◌ d s)) (rw (eqb_same (code d)) refl)
  where
    eqb_same : (n : ℕ) → eqb n n ≡ true
    eqb_same n = ground arith
split_separated d (String.◌∷◌ e piece) s h = elim (Bool-cases (eqb (code e) (code d))) [
  | inl sep ↦ ground arith
  | inr more ↦
      rw (cons-append e piece (String.◌∷◌ d s))
        (rw (more, split_separated d piece s (ground arith)) refl)
]

one_char : (d : Char) (s : String) → (String.◌∷◌ d String.[]) +++ s ≡ String.◌∷◌ d s
one_char d s = cons-append d String.[] s ∙ ap (String.◌∷◌ d) (nil-append s)

-- Splitting what was joined gives the pieces back, if none of them has the separator.
pub split-join :
    (d : Char) (piece : String) (pieces : List String)
    → some_has (code d) (piece ∷ pieces) ≡ false
    → split (code d) (join (String.◌∷◌ d String.[]) (piece ∷ pieces)) ≡ piece ∷ pieces
unfolding join
split-join d piece [] h = split_whole (code d) piece (ground arith)
split-join d piece (next ∷ pieces) h =
    rw (one_char d (join (String.◌∷◌ d String.[]) (next ∷ pieces))) (
      split_separated d piece _ (ground arith)
      ∙ ap (λ ps. piece ∷ ps) (split-join d next pieces (ground arith)))

some_has-prepend :
    (c : ℕ) (d : Char) (pieces : List String)
    → eqb (code d) c ≡ false
    → some_has c (prepend d pieces) ≡ some_has c pieces
unfolding has_char
some_has-prepend c d [] h = rw h refl
some_has-prepend c d (piece ∷ pieces) h = rw h refl

-- No piece of a split text has the separator.
pub some_has-split : (c : ℕ) (s : String) → some_has c (split c s) ≡ false
unfolding split has_char
some_has-split c String.[] = refl
some_has-split c (String.◌∷◌ d s) = elim (Bool-cases (eqb (code d) c)) [
  | inl sep ↦ rw sep (some_has-split c s)
  | inr more ↦ rw more (some_has-prepend c d (split c s) more ∙ some_has-split c s)
]
