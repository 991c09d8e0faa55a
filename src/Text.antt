-- ===== src/Text.antt =====
-- The methods of Python's `str` that the program calls, over native texts. A character is given by
-- its code point.
pub mod Laws
pub mod Decimal
use Prim.Native.Char.{Char, code}
use Prim.Native.String
use automated_actions.Prelude.{ℕ, String, Bool, true, false, List, [], ◌∷◌, eqb, if◌then◌else◌}

infixr 66 ◌+++◌
-- `s + t`
abbrev pub ◌+++◌ : String → String → String
s +++ t = String.◌++◌ s t

-- `chr(c) in s`
unfoldable pub has_char : ℕ → String → Bool
has_char c String.[] = false
has_char c (String.◌∷◌ d s) = let rest = has_char c s in if eqb (code d) c then true else rest

-- `s.rstrip(chr(c))`: a character goes if it is `c` and nothing is left behind it.
drop_if_last : ℕ → Char → String → String
drop_if_last c d String.[] = if eqb (code d) c then "" else String.◌∷◌ d String.[]
drop_if_last c d (String.◌∷◌ e s) = String.◌∷◌ d (String.◌∷◌ e s)

unfoldable pub rstrip : ℕ → String → String
unfolding drop_if_last
rstrip c String.[] = ""
rstrip c (String.◌∷◌ d s) = drop_if_last c d (rstrip c s)

-- A character in front of the first piece.
abbrev pub prepend : Char → List String → List String
prepend d [] = String.◌∷◌ d String.[] ∷ []
prepend d (piece ∷ pieces) = String.◌∷◌ d piece ∷ pieces

-- `s.split(chr(c))`
unfoldable pub split : ℕ → String → List String
split c String.[] = "" ∷ []
split c (String.◌∷◌ d s) =
    let pieces = split c s in if eqb (code d) c then "" ∷ pieces else prepend d pieces

-- `sep.join(pieces)`
unfoldable pub join : String → List String → String
join sep [] = ""
join sep (piece ∷ []) = piece
join sep (piece ∷ next ∷ pieces) = piece +++ (sep +++ join sep (next ∷ pieces))
