-- ===== src/Text/Decimal.antt =====
-- Python's `str` of a natural number, and `int` of a text: ASCII digits, with underscores between
-- them, a sign in front, and spaces around.
use Prim.Native.Char.{Char, code}
use automated_actions.Prelude.{
  ℕ, zero, suc, ◌+◌, ◌-◌, ◌*◌, ◌/◌, ◌%◌, ◌<◌, String, ◌≡◌, refl, ap, ◌∙◌, Bool, true, false, ◌&&◌,
  ◌||◌, Option, none, some, ltb, leb, eqb, if◌then◌else◌, Bool-cases, inl, inr, arith,
}

pub data ℤ : Type 0 where
  pos negsuc : ℕ → ℤ

-- The character of a digit.
abbrev pub digit : ℕ → Char
digit zero = "0"
digit (suc zero) = "1"
digit (suc (suc zero)) = "2"
digit (suc (suc (suc zero))) = "3"
digit (suc (suc (suc (suc zero)))) = "4"
digit (suc (suc (suc (suc (suc zero))))) = "5"
digit (suc (suc (suc (suc (suc (suc zero)))))) = "6"
digit (suc (suc (suc (suc (suc (suc (suc zero))))))) = "7"
digit (suc (suc (suc (suc (suc (suc (suc (suc zero)))))))) = "8"
digit (suc (suc (suc (suc (suc (suc (suc (suc (suc n))))))))) = "9"

-- The digits of a number in front of a text.
unfoldable pub show_from : ℕ → ℕ → String → String
show_from zero n t = t
show_from (suc fuel) n t =
    let rest = show_from fuel (n / 10) (String.◌∷◌ (digit (n % 10)) t) in
    if ltb n 10 then String.◌∷◌ (digit n) t else rest

-- `str(n)`
unfoldable pub show : ℕ → String
unfolding show_from
show n = show_from (n + 1) n ""

unfoldable pub is_digit : Char → Bool
is_digit c = leb b'0' (code c) && leb (code c) b'9'

unfoldable pub is_space : Char → Bool
is_space c = eqb (code c) 32 || (leb 9 (code c) && leb (code c) 13)

all_space : String → Bool
unfolding is_space
all_space String.[] = true
all_space (String.◌∷◌ c s) = let rest = all_space s in is_space c && rest

-- The digits that are left, after a number; where one is needed, neither an underscore nor the end
-- will do.
unfoldable pub digits_from : Bool → ℕ → String → Option ℕ
unfolding is_digit all_space
digits_from need acc String.[] = if need then none else some acc
digits_from need acc (String.◌∷◌ c s) =
    let next = digits_from false (acc * 10 + (code c - b'0')) s in
    let after = digits_from true acc s in
    if is_digit c
    then next
    else if need
    then none
    else if eqb (code c) b'_'
    then after
    else if all_space (String.◌∷◌ c s)
    then some acc
    else none

skip_spaces : String → String
skip_spaces String.[] = String.[]
skip_spaces (String.◌∷◌ c s) =
    let rest = skip_spaces s in if is_space c then rest else String.◌∷◌ c s

negate : ℕ → ℤ
negate zero = pos zero
negate (suc n) = negsuc n

signed : String → Option ℤ
unfolding digits_from negate
signed String.[] = none
signed (String.◌∷◌ c s) =
    if eqb (code c) b'-'
    then elim (digits_from true 0 s) [ none ↦ none | some n ↦ some (negate n) ]
    else if eqb (code c) b'+'
    then elim (digits_from true 0 s) [ none ↦ none | some n ↦ some (pos n) ]
    else elim (digits_from true 0 (String.◌∷◌ c s)) [ none ↦ none | some n ↦ some (pos n) ]

-- `int(s)`; `none` is a ValueError.
unfoldable pub int : String → Option ℤ
unfolding signed skip_spaces
int s = signed (skip_spaces s)

code-digit : (n : ℕ) → n < 10 → code (digit n) ≡ b'0' + n
code-digit zero h = refl
code-digit (suc zero) h = refl
code-digit (suc (suc zero)) h = refl
code-digit (suc (suc (suc zero))) h = refl
code-digit (suc (suc (suc (suc zero)))) h = refl
code-digit (suc (suc (suc (suc (suc zero))))) h = refl
code-digit (suc (suc (suc (suc (suc (suc zero)))))) h = refl
code-digit (suc (suc (suc (suc (suc (suc (suc zero))))))) h = refl
code-digit (suc (suc (suc (suc (suc (suc (suc (suc zero)))))))) h = refl
code-digit (suc (suc (suc (suc (suc (suc (suc (suc (suc n))))))))) h =
    let e : n ≡ 0 = omega arith in rw e refl

is_digit-digit : (n : ℕ) → n < 10 → is_digit (digit n) ≡ true
unfolding is_digit
is_digit-digit n h = rw (code-digit n h) (ground arith)

digits_from-digit :
    (need : Bool) (acc n : ℕ) (t : String)
    → n < 10
    → digits_from need acc (String.◌∷◌ (digit n) t) ≡ digits_from false (acc * 10 + n) t
unfolding digits_from
digits_from-digit need acc n t h =
    rw (is_digit-digit n h) (rw (code-digit n h) (ap (λ d. digits_from false d t) (omega arith)))

digits_from-show_from :
    (fuel n : ℕ) (t : String)
    → n < fuel
    → digits_from true 0 (show_from fuel n t) ≡ digits_from false n t
unfolding show_from
digits_from-show_from zero n t h = elim h [ ]
digits_from-show_from (suc fuel) n t h = elim (Bool-cases (ltb n 10)) [
  | inl e ↦
      rw e (
        digits_from-digit true 0 n t (ground arith) ∙ ap (λ d. digits_from false d t) (omega arith))
  | inr e ↦ rw e (
      digits_from-show_from fuel (n / 10) _ (ground arith)
      ∙ (digits_from-digit false (n / 10) (n % 10) t (omega arith)
          ∙ ap (λ d. digits_from false d t) (omega arith)))
]

-- The first character is a digit.
starts : String → Bool
starts String.[] = false
starts (String.◌∷◌ c s) = is_digit c

starts-show_from : (fuel n : ℕ) (t : String) → n < fuel → starts (show_from fuel n t) ≡ true
unfolding show_from starts
starts-show_from zero n t h = elim h [ ]
starts-show_from (suc fuel) n t h = elim (Bool-cases (ltb n 10)) [
  | inl e ↦ rw e (is_digit-digit n (ground arith))
  | inr e ↦ rw e (starts-show_from fuel (n / 10) _ (ground arith))
]

no_space : (c : Char) → is_digit c ≡ true → is_space c ≡ false
unfolding is_digit is_space
no_space c h = ground arith

no_sign : (c : Char) → is_digit c ≡ true → (eqb (code c) b'-' ≡ false) × (eqb (code c) b'+' ≡ false)
unfolding is_digit
no_sign c h = (ground arith, ground arith)

int_of_digits :
    (s : String) (n : ℕ) → starts s ≡ true → digits_from true 0 s ≡ some n → int s ≡ some (pos n)
unfolding int starts
int_of_digits String.[] n h k = cc
int_of_digits (String.◌∷◌ c s) n h k =
    rw (no_space c h) (rw (no_sign c h).0 (rw (no_sign c h).1 (rw k refl)))

-- `int(str(n))` is `n`.
pub int-show : (n : ℕ) → int (show n) ≡ some (pos n)
unfolding show digits_from
int-show n =
    int_of_digits (show_from (n + 1) n "") n (starts-show_from (n + 1) n "" (omega arith))
      (digits_from-show_from (n + 1) n "" (omega arith))
