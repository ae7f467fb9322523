-- ===== src/GoText/Decimal.antt =====
-- `strconv.Itoa` on numbers that are not negative, and `strconv.ParseInt(s, 10, 32)`.
use go_inbucket.Base.{
  ℕ, zero, suc, ◌+◌, ◌-◌, ◌*◌, ◌/◌, ◌%◌, ◌^◌, ◌<◌, ◌≡◌, ◌≢◌, refl, sym, ap, ◌∙◌, Bool, true, false,
  not, ◌&&◌, Option, none, some, [], ◌∷◌, inl, inr, arith, ltb, leb, ◌==◌, if◌then◌else◌, Bytes,
  txt, Bool-cases,
}

digits : ℕ → ℕ → Bytes → Bytes
digits zero n out = out
digits (suc f) n out =
    let more = digits f (n / 10) ((b'0' + n % 10) ∷ out) in
    if ltb n 10 then (b'0' + n) ∷ out else more

-- Each round divides by ten, so `n + 1` rounds are enough.
unfoldable pub itoa : ℕ → Bytes
unfolding digits
itoa n = digits (suc n) n []

abbrev is_digit : ℕ → Bool
is_digit c = leb b'0' c && leb c b'9'

unfoldable pub parse_digits : ℕ → Bytes → Option ℕ
parse_digits n [] = some n
parse_digits n (c ∷ s) =
    let rest = parse_digits (n * 10 + (c - b'0')) s in if is_digit c then rest else none

-- An integer that the program parsed: its sign and its size.
pub record SignedSize : Type 0 where
  pub negative : Bool
  pub size : ℕ

unfoldable pub parse_uint : Bytes → Option ℕ
unfolding parse_digits
parse_uint [] = none
parse_uint (c ∷ s) = parse_digits 0 (c ∷ s)

-- `strconv.ParseInt(s, 10, bits)` for `limit = 2 ^ (bits - 1)`; `none` stands for any error.
in_range : ℕ → Bool → ℕ → Option SignedSize
in_range limit neg n =
    if (if neg then leb n limit else ltb n limit)
    then some (record { negative = neg && not (n == 0); size = n })
    else none

unfoldable pub parse_int : ℕ → Bytes → Option SignedSize
unfolding parse_uint in_range
parse_int limit [] = none
parse_int limit (c ∷ s) =
    if c == b'-'
    then elim (parse_uint s) [ none ↦ none | some n ↦ in_range limit true n ]
    else if c == b'+'
    then elim (parse_uint s) [ none ↦ none | some n ↦ in_range limit false n ]
    else elim (parse_uint (c ∷ s)) [ none ↦ none | some n ↦ in_range limit false n ]

abbrev pub int32_limit : ℕ
int32_limit = 2 ^ 31

parse_digits-digits :
    (f n : ℕ) (out : Bytes) → n < f → parse_digits 0 (digits f n out) ≡ parse_digits n out
unfolding digits parse_digits
parse_digits-digits zero n out h = absurd (omega arith)
parse_digits-digits (suc f) n out h = elim (Bool-cases (ltb n 10)) [
  | inl small ↦ rw small (ground arith)
  | inr big ↦
      rw big (parse_digits-digits f (n / 10) ((b'0' + n % 10) ∷ out) (ground arith) ∙ ground arith)
]

pub parse_digits-itoa : (n : ℕ) → parse_digits 0 (itoa n) ≡ some n
unfolding itoa parse_digits
parse_digits-itoa n = parse_digits-digits (suc n) n [] (omega arith)

parse_uint-digits :
    (f n : ℕ) (out : Bytes) → n < f → parse_uint (digits f n out) ≡ parse_digits 0 (digits f n out)
unfolding digits parse_uint
parse_uint-digits zero n out h = absurd (omega arith)
parse_uint-digits (suc f) n out h = elim (Bool-cases (ltb n 10)) [
  | inl small ↦ rw small refl
  | inr big ↦ rw big (parse_uint-digits f (n / 10) ((b'0' + n % 10) ∷ out) (ground arith))
]

pub parse_uint-itoa : (n : ℕ) → parse_uint (itoa n) ≡ some n
unfolding itoa
parse_uint-itoa n = parse_uint-digits (suc n) n [] (omega arith) ∙ parse_digits-itoa n

-- Different numbers have different texts.
pub itoa-injective : (a b : ℕ) → itoa a ≡ itoa b → a ≡ b
itoa-injective a b e =
    let both : some a ≡ some b =
      sym (parse_digits-itoa a) ∙ ap (parse_digits 0) e ∙ parse_digits-itoa b in
    cc

-- `latest` is the text of no number.
pub itoa-ne-latest : (n : ℕ) → itoa n ≢ txt "latest"
unfolding parse_digits txt
itoa-ne-latest n e =
    let parsed : some n ≡ none = sym (parse_digits-itoa n) ∙ ap (parse_digits 0) e in cc

itoa_runs : itoa 1203 ≡ txt "1203"
unfolding itoa txt
itoa_runs = refl

parse_int_runs :
    (parse_int int32_limit (txt "-7") ≡ some (record { negative = true; size = 7 }))
    × (parse_int int32_limit (txt "2147483648") ≡ none)
    × (parse_int int32_limit (txt "1x") ≡ none)
unfolding parse_int txt
parse_int_runs = (refl, refl, refl)
