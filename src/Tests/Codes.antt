-- ===== src/Tests/Codes.antt =====
-- Two texts, or a number, in one text: what the concrete tokens of the tests are made of.
use Prim.Native.Char.{code}
use automated_actions.Prelude.{
  ℕ, zero, suc, ◌≡◌, refl, ap, String, Option, none, some, eqb, if◌then◌else◌,
}

-- Each character of the first text is marked with a 1, and a 0 stands before the second.
abbrev pub pack : String → String → String
pack String.[] b = String.◌∷◌ "0" b
pack (String.◌∷◌ c a) b = String.◌∷◌ "1" (String.◌∷◌ c (pack a b))

abbrev pub unpack : String → String × String
unpack String.[] = ("", "")
unpack (String.◌∷◌ d String.[]) = ("", "")
unpack (String.◌∷◌ d (String.◌∷◌ c s)) =
    let rest = unpack s in
    if eqb (code d) b'1' then (String.◌∷◌ c rest.0, rest.1) else ("", String.◌∷◌ c s)

pub unpack-pack : (a b : String) → unpack (pack a b) ≡ (a, b)
unpack-pack String.[] String.[] = refl
unpack-pack String.[] (String.◌∷◌ d b) = refl
unpack-pack (String.◌∷◌ c a) b = ap (λ p. (String.◌∷◌ c p.0, p.1)) (unpack-pack a b)

abbrev pub unary : ℕ → String
unary zero = ""
unary (suc n) = String.◌∷◌ "1" (unary n)

abbrev pub count : String → ℕ
count String.[] = zero
count (String.◌∷◌ c s) = suc (count s)

pub count-unary : (n : ℕ) → count (unary n) ≡ n
count-unary zero = refl
count-unary (suc n) = ap suc (count-unary n)

abbrev pub optional : Option String → String
optional none = "n"
optional (some s) = String.◌∷◌ "s" s

abbrev pub read_optional : String → Option String
read_optional String.[] = none
read_optional (String.◌∷◌ d s) = if eqb (code d) b's' then some s else none

pub read_optional-optional : (o : Option String) → read_optional (optional o) ≡ o
read_optional-optional none = refl
read_optional-optional (some s) = refl
