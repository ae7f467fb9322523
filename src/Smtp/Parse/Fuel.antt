-- ===== src/Smtp/Parse/Fuel.antt =====
-- The fuel of `find_all`, the search of parseArgs in pkg/server/smtp/handler.go.
use go_inbucket.Base.{
  ℕ, zero, suc, ◌≤◌, ◌≡◌, refl, ap, Option, none, some, [], ◌∷◌, arith, ◌==◌, not, ◌&&◌, Bytes,
  bytes_eq, length, Bool-cases, inl, inr,
}
use go_inbucket.Smtp.Parse.{is_word, span_word, value_at, value_of, match_at, find_all}

length-span_word : (s : Bytes) → length (span_word s).1 ≤ length s
unfolding span_word
length-span_word [] = omega arith
length-span_word (c ∷ s) = elim (Bool-cases (is_word c)) [
  | inl word ↦ rw word (omega (arith, length-span_word s))
  | inr other ↦ rw other (omega arith)
]

abbrev Shorter : ℕ → Option ((Bytes × Bytes) × Bytes) → Type 0
Shorter n none = Unit {0}
Shorter n (some (kv, rest)) = length rest ≤ n

abbrev ShorterValue : ℕ → Option (Bytes × Bytes) → Type 0
ShorterValue n none = Unit {0}
ShorterValue n (some (v, rest)) = length rest ≤ n

value_at-Shorter : (s : Bytes) → ShorterValue (length s) (value_at s)
unfolding value_at
value_at-Shorter [] = tt
value_at-Shorter (c ∷ []) = elim (Bool-cases (is_word c)) [
  | inl word ↦ rw word (omega arith)
  | inr other ↦ rw other tt
]
value_at-Shorter (c ∷ d ∷ s) = elim (Bool-cases (is_word c)) [
  | inl word ↦ rw word (omega (arith, length-span_word (d ∷ s)))
  | inr other ↦ elim (Bool-cases (c == b'<' && d == b'>')) [
    | inl angles ↦ rw (other, angles) (omega arith)
    | inr apart ↦ rw (other, apart) tt
  ]
]

value_of-Shorter : (key s : Bytes) → Shorter (length s) (value_of key s)
unfolding value_of
value_of-Shorter key [] = tt
value_of-Shorter key (c ∷ s) = elim (Bool-cases (c == b'=')) [
  | inr other ↦ rw other tt
  | inl equals ↦ rw equals (go (value_at s) (value_at-Shorter s))
]
  where
    go :
        (v : Option (Bytes × Bytes))
        → ShorterValue (length s) v
        → Shorter (suc (length s)) (elim v [ none ↦ none | some (x, rest) ↦ some ((key, x), rest) ])
    go none h = tt
    go (some (x, rest)) h = omega (arith, h)

-- What follows a match is shorter than the text.
match_at-Shorter : (c : ℕ) (s : Bytes) → Shorter (length s) (match_at (c ∷ s))
unfolding match_at
match_at-Shorter c s = elim (Bool-cases (c == b' ' && not (bytes_eq (span_word s).0 []))) [
  | inr other ↦ rw other tt
  | inl here ↦ rw here (
      weaken (value_of (span_word s).0 (span_word s).1)
        (value_of-Shorter (span_word s).0 (span_word s).1))
]
  where
    weaken :
        (r : Option ((Bytes × Bytes) × Bytes))
        → Shorter (length (span_word s).1) r
        → Shorter (length s) r
    weaken none h = tt
    weaken (some (kv, rest)) h = omega (arith, h, length-span_word s)

-- A round for each byte is enough for the search of `parseArgs`: with more rounds it finds the same.
pub find_all-fuel :
    (f g : ℕ) (s : Bytes) → length s ≤ f → length s ≤ g → find_all f s ≡ find_all g s
unfolding find_all
find_all-fuel zero zero s a b = refl
find_all-fuel zero (suc g) [] a b = refl
find_all-fuel zero (suc g) (c ∷ s) a b = absurd (omega (arith, a))
find_all-fuel (suc f) zero [] a b = refl
find_all-fuel (suc f) zero (c ∷ s) a b = absurd (omega (arith, b))
find_all-fuel (suc f) (suc g) [] a b = refl
find_all-fuel (suc f) (suc g) (c ∷ s) a b =
    go (λ rest. find_all-fuel f g rest) (match_at (c ∷ s)) (match_at-Shorter c s)
  where
    go :
        ((rest : Bytes) → length rest ≤ f → length rest ≤ g → find_all f rest ≡ find_all g rest)
        → (r : Option ((Bytes × Bytes) × Bytes)) → Shorter (length s) r
        → elim r [ none ↦ find_all f s | some (kv, rest) ↦ kv ∷ find_all f rest ]
          ≡ elim r [ none ↦ find_all g s | some (kv, rest) ↦ kv ∷ find_all g rest ]
    go next none h = next s (omega (arith, a)) (omega (arith, b))
    go next (some (kv, rest)) h =
        ap (◌∷◌ kv) (next rest (omega (arith, a, h)) (omega (arith, b, h)))
