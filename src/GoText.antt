-- ===== src/GoText.antt =====
-- What the program uses of Go's `strings`, `strconv` and `bytes` packages, over lists of bytes.
-- The case tables and the decoding of texts with a byte above 127 are the parameter `Unicode`.
pub mod Decimal
use go_inbucket.Base.{
  ℕ, zero, suc, ◌+◌, ◌-◌, ◌*◌, ◌/◌, ◌%◌, ◌≤◌, ◌<◌, ◌≡◌, refl, Bool, true, false, not, ◌&&◌, ◌||◌,
  Option, none, some, List, [], ◌∷◌, ◌++◌, map, arith, ltb, leb, ◌==◌, if◌then◌else◌, Bytes,
}

pub record Unicode : Type 0 where
  pub lower : Bytes → Bytes
  pub upper : Bytes → Bytes
  pub runes : Bytes → List ℕ

unfoldable pub is_ascii : Bytes → Bool
is_ascii [] = true
is_ascii (c ∷ s) = ltb c 128 && is_ascii s

unfoldable pub lower_byte : ℕ → ℕ
lower_byte c = if leb b'A' c && leb c b'Z' then c + 32 else c

unfoldable pub upper_byte : ℕ → ℕ
upper_byte c = if leb b'a' c && leb c b'z' then c - 32 else c

-- `strings.ToLower`, `strings.ToUpper` and `[]rune(s)`.
unfoldable pub to_lower : Unicode → Bytes → Bytes
unfolding is_ascii lower_byte
to_lower u s = if is_ascii s then map lower_byte s else u.lower s

unfoldable pub to_upper : Unicode → Bytes → Bytes
unfolding is_ascii upper_byte
to_upper u s = if is_ascii s then map upper_byte s else u.upper s

unfoldable pub to_runes : Unicode → Bytes → List ℕ
unfolding is_ascii
to_runes u s = if is_ascii s then s else u.runes s

-- `strings.IndexByte(s, c)`, as the text before and after the first `c`; `none` is -1.
unfoldable pub cut_at : ℕ → Bytes → Option (Bytes × Bytes)
cut_at c [] = none
cut_at c (x ∷ s) =
    let later : Option (Bytes × Bytes) = elim (cut_at c s) [
      | none ↦ none
      | some (a, b) ↦ some (x ∷ a, b)
    ] in
    if x == c then some ([], s) else later

-- `strings.IndexByte(s, c) >= 0`.
unfoldable pub contains_byte : ℕ → Bytes → Bool
contains_byte c [] = false
contains_byte c (x ∷ s) = c == x || contains_byte c s

-- `strings.TrimLeft(s, cutset)` and `strings.TrimRight(s, cutset)`, for an ASCII cutset.
unfoldable pub trim_left : Bytes → Bytes → Bytes
unfolding contains_byte
trim_left set [] = []
trim_left set (c ∷ s) = let rest = trim_left set s in if contains_byte c set then rest else c ∷ s

unfoldable pub trim_right : Bytes → Bytes → Bytes
unfolding contains_byte
trim_right set [] = []
trim_right set (c ∷ s) = elim (trim_right set s) [
  | [] ↦ if contains_byte c set then [] else c ∷ []
  | d ∷ r ↦ c ∷ d ∷ r
]

-- `strings.Trim(s, cutset)`.
unfoldable pub trim : Bytes → Bytes → Bytes
unfolding trim_left trim_right
trim set s = trim_right set (trim_left set s)

-- `strings.Split(s, sep)` for a separator of one byte, as the first part and the others.
unfoldable pub split_parts : ℕ → Bytes → Bytes × List Bytes
split_parts sep [] = ([], [])
split_parts sep (c ∷ s) =
    let (part, parts) = split_parts sep s in
    if c == sep then ([], part ∷ parts) else (c ∷ part, parts)

unfoldable pub split : ℕ → Bytes → List Bytes
unfolding split_parts
split sep s = (split_parts sep s).0 ∷ (split_parts sep s).1

-- `s[len(s)-1]`, with a value for the empty text.
unfoldable pub last_or : ℕ → Bytes → ℕ
last_or d [] = d
last_or d (c ∷ s) = last_or c s
