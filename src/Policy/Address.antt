-- ===== src/Policy/Address.antt =====
-- `parseEmailAddress` and `parseMailboxName` of pkg/policy/address.go. A write to the buffer never
-- fails, so the tests of its error are left out.
pub mod Plain
pub mod Names
use go_inbucket.Base.{
  ℕ, suc, ◌+◌, ◌≡◌, refl, Bool, true, false, not, ◌&&◌, ◌||◌, Option, none, some, List, [], ◌∷◌,
  ◌++◌, ltb, leb, ◌==◌, if◌then◌else◌, Bytes, bytes_eq, txt, length,
}
use go_inbucket.GoText.{Unicode, to_lower, cut_at, contains_byte}

pub data AddressError : Type 0 where
  empty_address too_long missing_colon empty_after_route leading_period : AddressError
  period_sequence late_quote local_too_long trailing_period non_ascii : AddressError
  must_quote : ℕ → AddressError
  open_char_quote open_string_quote : AddressError
  empty_name bad_domain unknown_strategy : AddressError
  invalid_name : Bytes → AddressError

pub data Result {ℓ} (A : Type ℓ) : Type ℓ where
  ok : A → Result A
  err : AddressError → Result A

infixl 5 ◌>>=◌
abbrev pub ◌>>=◌ {ℓ κ} : {A : Type ℓ} {B : Type κ} → Result A → (A → Result B) → Result B
ok a >>= f = f a
err e >>= f = err e

-- The variables of the loop; `i` is the index of the next byte.
pub record Scan : Type 0 where
  pub i : ℕ
  pub buf : Bytes
  pub prev : ℕ
  pub in_char : Bool
  pub in_string : Bool

pub data Step : Type 0 where
  more : Scan → Step
  fail : AddressError → Step
  stop : Step

abbrev pub within : ℕ → ℕ → ℕ → Bool
within lo hi c = leb lo c && leb c hi

abbrev pub is_letter : ℕ → Bool
is_letter c = within b'a' b'z' c || within b'A' b'Z' c

abbrev pub is_digit : ℕ → Bool
is_digit c = within b'0' b'9' c

-- The specials that need no quotes.
unfoldable pub is_special : ℕ → Bool
unfolding contains_byte txt
is_special c = contains_byte c (txt "!#$%&'*+-/=?^_`{|}~")

abbrev write : Scan → ℕ → Step
write s c = more (record s { i = s.i + 1; buf = s.buf ++ c ∷ []; prev = c; in_char = false })

abbrev skip : Scan → ℕ → Step
skip s c = more (record s { i = s.i + 1; prev = c })

-- The body of the loop.
unfoldable pub step : Scan → ℕ → Step
step s c =
    if is_letter c || is_digit c || is_special c
    then write s c
    else if c == b'.'
    then (if s.prev == b'.' then fail period_sequence else write s c)
    else if c == b'\\'
    then more (record s { i = s.i + 1; prev = c; in_char = true })
    else if c == b'"'
    then (if s.in_char
        then write s c
        else if s.in_string
        then more (record s { i = s.i + 1; prev = c; in_string = false })
        else if s.i == 0
        then more (record s { i = s.i + 1; prev = c; in_string = true })
        else fail late_quote)
    else if c == b'@'
    then (if s.in_char || s.in_string
        then write s c
        else if ltb 128 s.i
        then fail local_too_long
        else if s.prev == b'.'
        then fail trailing_period
        else stop)
    else if ltb 127 c
    then fail non_ascii
    else if s.in_char || s.in_string
    then write s c
    else fail (must_quote c)

-- The loop, and the tests behind it. At `stop` no quote is open.
unfoldable pub scan_local : Scan → Bytes → Result (Bytes × Bytes)
unfolding step
scan_local s [] =
    if s.in_char
    then err open_char_quote
    else if s.in_string
    then err open_string_quote
    else ok (s.buf, [])
scan_local s (c ∷ rest) = elim (step s c) [
  | more s' ↦ scan_local s' rest
  | fail e ↦ err e
  | stop ↦ ok (s.buf, rest)
]

abbrev pub start : Scan
start = record { i = 0; buf = []; prev = b'.'; in_char = false; in_string = false }

-- The address behind a forward-path route.
unfoldable pub strip_route : Bytes → Result Bytes
unfolding cut_at
strip_route [] = ok []
strip_route (c ∷ s) =
    if c == b'@'
    then elim (cut_at b':' (c ∷ s)) [
      | none ↦ err missing_colon
      | some (_, rest) ↦ if bytes_eq rest [] then err empty_after_route else ok rest
    ]
    else ok (c ∷ s)

unfoldable pub starts_with_byte : ℕ → Bytes → Bool
starts_with_byte c [] = false
starts_with_byte c (x ∷ s) = x == c

-- `parseEmailAddress`.
unfoldable pub parse_address : Bytes → Result (Bytes × Bytes)
unfolding strip_route starts_with_byte scan_local bytes_eq
parse_address address =
    if bytes_eq address []
    then err empty_address
    else if ltb 320 (length address)
    then err too_long
    else (do
      rest ← strip_route address
      if starts_with_byte b'.' rest then err leading_period else scan_local start rest)

-- A byte that a mailbox name may hold.
unfoldable pub is_name_byte : ℕ → Bool
unfolding contains_byte txt
is_name_byte c = within b'a' b'z' c || is_digit c || contains_byte c (txt "!#$%&'*+-=/?^_`.{|}~")

unfoldable pub invalid_bytes : Bytes → Bytes
unfolding is_name_byte
invalid_bytes [] = []
invalid_bytes (c ∷ s) = if is_name_byte c then invalid_bytes s else c ∷ invalid_bytes s

-- The text before the first `+`.
unfoldable pub before_plus : Bytes → Bytes
unfolding cut_at
before_plus s = elim (cut_at b'+' s) [ none ↦ s | some (a, _) ↦ a ]

unfoldable pub parse_mailbox_name : Unicode → Bytes → Result Bytes
unfolding to_lower invalid_bytes before_plus bytes_eq
parse_mailbox_name u local =
    let result = to_lower u local in
    if bytes_eq local []
    then err empty_name
    else if bytes_eq (invalid_bytes result) []
    then ok (before_plus result)
    else err (invalid_name (invalid_bytes result))
