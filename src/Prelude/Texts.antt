-- ===== src/Prelude/Texts.antt =====
-- The operations of the standard library on texts that the models use: joining, cutting one character
-- off an end, and decimal numbers.
use Prim.Native.Char.{Char, code}
use Prim.Native.String.{String, [] as empty, ◌∷◌ as ◌then◌, ◌++◌ as ◌with◌}
use Prim.Native.Nat.{ℕ, zero, suc, ◌+◌, ◌-◌, ◌*◌, ◌/◌, ◌%◌, ◌<◌, ◌≤◌}
use mathlib.Core.Path.{◌≡◌, refl, sym, ap, subst, ◌∙◌}
use mathlib.Core.Logic.{inl, inr}
use mathlib.Core.Bool.{Bool, true, ◌&&◌, ◌||◌}
use mathlib.Core.Option.{Option, none, some}
use mathlib.Core.List.{List, [], ◌∷◌}
use native.Mathlib.Omega.{arith}
use llmgateway_go.Prelude.Tests.{eqb, ltb, leb, Bool-cases, if◌then◌else◌}
use llmgateway_go.Prelude.Lists.{All, length}

-- strings.Join
unfoldable pub join : String → List String → String
join separator [] = ""
join separator (s ∷ []) = s
join separator (s ∷ t ∷ rest) = s with (separator with join separator (t ∷ rest))

-- strings.TrimSuffix of one character
abbrev cut : ℕ → Char → String → String → String
cut character c empty rest = if eqb (code c) character then "" else c then empty
cut character c (d then s) rest = c then rest

unfoldable pub trim_suffix : ℕ → String → String
trim_suffix character empty = ""
trim_suffix character (c then s) = cut character c s (trim_suffix character s)

-- strings.TrimPrefix of one character
unfoldable pub trim_prefix : ℕ → String → String
trim_prefix character empty = ""
trim_prefix character (c then s) = if eqb (code c) character then s else c then s

-- unicode.IsSpace
abbrev is_space : ℕ → Bool
is_space c =
    (leb 9 c && leb c 13)
    || eqb c 32
    || eqb c 0x85
    || eqb c 0xa0
    || eqb c 0x1680
    || (leb 0x2000 c && leb c 0x200a)
    || eqb c 0x2028
    || eqb c 0x2029
    || eqb c 0x202f
    || eqb c 0x205f
    || eqb c 0x3000

unfoldable pub trim_left : (ℕ → Bool) → String → String
trim_left drop empty = ""
trim_left drop (c then s) = let rest = trim_left drop s in if drop (code c) then rest else c then s

abbrev pub cut_last : (ℕ → Bool) → Char → String → String
cut_last drop c empty = if drop (code c) then "" else c then empty
cut_last drop c (d then s) = c then (d then s)

unfoldable pub trim_right : (ℕ → Bool) → String → String
trim_right drop empty = ""
trim_right drop (c then s) = cut_last drop c (trim_right drop s)

-- strings.Trim of the characters that pass a test
unfoldable pub trim : (ℕ → Bool) → String → String
unfolding trim_left trim_right
trim drop s = trim_right drop (trim_left drop s)

-- strings.TrimSpace
unfoldable pub trim_space : String → String
unfolding trim
trim_space s = trim is_space s

-- The digits of a number before the digits that are there already: strconv.AppendInt in base ten. There
-- are never more rounds than the number says.
decimal_from : ℕ → ℕ → List ℕ → List ℕ
decimal_from zero n rest = rest
decimal_from (suc fuel) n rest =
    let more = decimal_from fuel (n / 10) ((48 + n % 10) ∷ rest) in
    if ltb n 10 then (48 + n) ∷ rest else more

unfoldable pub decimal : ℕ → List ℕ
unfolding decimal_from
decimal n = decimal_from (suc n) n []

abbrev pub is_digit : ℕ → Bool
is_digit d = leb 48 d && leb d 57

-- The number that digits say, after a number that is read already.
unfoldable pub value_from : ℕ → List ℕ → Option ℕ
value_from v [] = some v
value_from v (d ∷ rest) =
    let more = value_from (v * 10 + (d - 48)) rest in if is_digit d then more else none

value_from-decimal_from :
    (fuel n : ℕ) (rest : List ℕ)
    → n < fuel
    → value_from 0 (decimal_from fuel n rest) ≡ value_from n rest
unfolding decimal_from value_from
value_from-decimal_from zero n rest h = absurd (omega arith)
value_from-decimal_from (suc fuel) n rest h = elim (Bool-cases (ltb n 10)) [
  | inl e ↦ rw e (ground arith)
  | inr e ↦ rw e (
      value_from-decimal_from fuel (n / 10) ((48 + n % 10) ∷ rest) (ground arith)
      ∙ ground (arith, last_digit))
]
  where
    last_digit : n / 10 * 10 + (48 + n % 10 - 48) ≡ n
    last_digit = omega arith

pub value_from-decimal : (n : ℕ) → value_from 0 (decimal n) ≡ some n
unfolding decimal value_from
value_from-decimal n = value_from-decimal_from (suc n) n [] (omega arith)

decimal_from-digits :
    (fuel n : ℕ) (rest : List ℕ)
    → All (λ d. is_digit d ≡ true) rest
    → All (λ d. is_digit d ≡ true) (decimal_from fuel n rest)
unfolding decimal_from
decimal_from-digits zero n rest h = h
decimal_from-digits (suc fuel) n rest h = elim (Bool-cases (ltb n 10)) [
  | inl e ↦ rw e (ground arith, h)
  | inr e ↦ rw e (decimal_from-digits fuel (n / 10) ((48 + n % 10) ∷ rest) (ground arith, h))
]

pub decimal_digits : (n : ℕ) → All (λ d. is_digit d ≡ true) (decimal n)
unfolding decimal
decimal_digits n = decimal_from-digits (suc n) n [] tt

length-decimal_from : (fuel n : ℕ) (rest : List ℕ) → length rest ≤ length (decimal_from fuel n rest)
unfolding decimal_from
length-decimal_from zero n rest = omega arith
length-decimal_from (suc fuel) n rest = elim (Bool-cases (ltb n 10)) [
  | inl e ↦ rw e (omega arith)
  | inr e ↦ rw e (omega (arith, length-decimal_from fuel (n / 10) ((48 + n % 10) ∷ rest)))
]

pub length-decimal : (n : ℕ) → 0 < length (decimal n)
unfolding decimal decimal_from
length-decimal n = elim (Bool-cases (ltb n 10)) [
  | inl e ↦ rw e (omega arith)
  | inr e ↦ rw e (omega (arith, length-decimal_from n (n / 10) ((48 + n % 10) ∷ [])))
]

-- A digit as a character.
glyph : ℕ → Char
glyph d =
    if eqb d 48
    then "0"
    else if eqb d 49
    then "1"
    else if eqb d 50
    then "2"
    else if eqb d 51
    then "3"
    else if eqb d 52
    then "4"
    else if eqb d 53
    then "5"
    else if eqb d 54
    then "6"
    else if eqb d 55
    then "7"
    else if eqb d 56
    then "8"
    else "9"

-- The code points of a text.
abbrev pub codes : String → List ℕ
codes empty = []
codes (c then s) = code c ∷ codes s

text_of : List ℕ → String
unfolding glyph
text_of [] = ""
text_of (d ∷ rest) = glyph d then text_of rest

-- %d of a number that is not negative
unfoldable pub number_text : ℕ → String
unfolding text_of decimal
number_text n = text_of (decimal n)

-- Whether the characters of the digits below a bound are right, by evaluation.
are_glyphs : ℕ → Bool
unfolding glyph
are_glyphs zero = true
are_glyphs (suc n) = eqb (code (glyph (48 + n))) (48 + n) && are_glyphs n

are_glyphs-code : (n k : ℕ) → are_glyphs n ≡ true → k < n → code (glyph (48 + k)) ≡ 48 + k
unfolding are_glyphs
are_glyphs-code zero k h l = absurd (omega arith)
are_glyphs-code (suc n) k h l = ground (arith, are_glyphs-code n k)

ten_glyphs : are_glyphs 10 ≡ true
unfolding are_glyphs
ten_glyphs = refl

code-glyph : (d : ℕ) → is_digit d ≡ true → code (glyph d) ≡ d
code-glyph d h =
    let e : 48 + (d - 48) ≡ d = ground arith in
    subst (λ k. code (glyph k) ≡ k) e (are_glyphs-code 10 (d - 48) ten_glyphs (ground arith))

codes-text_of : (ds : List ℕ) → All (λ d. is_digit d ≡ true) ds → codes (text_of ds) ≡ ds
unfolding text_of
codes-text_of [] h = refl
codes-text_of (d ∷ rest) h = cc (code-glyph d h.0, codes-text_of rest h.1)

pub number_text-injective : (n m : ℕ) → number_text n ≡ number_text m → n ≡ m
unfolding number_text
number_text-injective n m h =
    let a : codes (text_of (decimal n)) ≡ codes (text_of (decimal m)) = ap codes h in
    let b : decimal n ≡ decimal m =
      sym (codes-text_of (decimal n) (decimal_digits n))
      ∙ a
      ∙ codes-text_of (decimal m) (decimal_digits m) in
    cc (value_from-decimal n, value_from-decimal m, b)
