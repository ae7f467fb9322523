-- ===== src/Storage/Lock.antt =====
-- pkg/storage/lock.go: the lock of a mailbox, by the hash of its name.
use go_inbucket.Base.{
  ℕ, ◌+◌, ◌-◌, ◌*◌, ◌<◌, ◌≡◌, refl, arith, true, false, ◌&&◌, Option, none, some, [], ◌∷◌, ltb, leb,
  ◌==◌, if◌then◌else◌, Bytes, ap, ◌∙◌,
}

-- What `Get` returns: nil, or a mutex of the array; or the index of a panic.
pub data Lock : Type 0 where
  no_lock : Lock
  lock : ℕ → Lock
  out_of_range : Lock

-- A hexadecimal digit, of either case.
unfoldable pub hex_value : ℕ → Option ℕ
hex_value c =
    if leb b'0' c && leb c b'9'
    then some (c - b'0')
    else if leb b'a' c && leb c b'f'
    then some (c - b'a' + 10)
    else if leb b'A' c && leb c b'F'
    then some (c - b'A' + 10)
    else none

unfoldable pub parse_hex : ℕ → Bytes → Option ℕ
parse_hex n [] = some n
parse_hex n (c ∷ s) = elim (hex_value c) [ none ↦ none | some d ↦ parse_hex (n * 16 + d) s ]

abbrev positive : Option ℕ → Lock
positive none = no_lock
positive (some n) = if ltb n 4096 then lock n else out_of_range

abbrev negative : Option ℕ → Lock
negative none = no_lock
negative (some n) = if n == 0 then lock 0 else out_of_range

-- `strconv.ParseInt(hash[0:3], 16, 0)`, which takes a sign, and the index.
unfoldable pub get_lock : Bytes → Lock
unfolding parse_hex
get_lock (a ∷ b ∷ c ∷ more) =
    if a == b'-'
    then negative (parse_hex 0 (b ∷ c ∷ []))
    else if a == b'+'
    then positive (parse_hex 0 (b ∷ c ∷ []))
    else positive (parse_hex 0 (a ∷ b ∷ c ∷ []))
get_lock _ = no_lock

hex_value-lt :
    (c d : ℕ) → hex_value c ≡ some d → (d < 16) × ((c == b'-') ≡ false) × ((c == b'+') ≡ false)
unfolding hex_value
hex_value-lt c d h = ground (arith, h)

parse_hex-cons :
    (n c d : ℕ) (s : Bytes) → hex_value c ≡ some d → parse_hex n (c ∷ s) ≡ parse_hex (n * 16 + d) s
unfolding parse_hex
parse_hex-cons n c d s h =
    ap (λ (o : Option ℕ). elim o [ none ↦ none | some e ↦ parse_hex (n * 16 + e) s ]) h

parse_hex-three :
    (a b c x y z : ℕ)
    → hex_value a ≡ some x
    → hex_value b ≡ some y
    → hex_value c ≡ some z
    → parse_hex 0 (a ∷ b ∷ c ∷ []) ≡ some (x * 256 + y * 16 + z)
unfolding parse_hex
parse_hex-three a b c x y z p q r =
    parse_hex-cons 0 a x (b ∷ c ∷ []) p
    ∙ parse_hex-cons (0 * 16 + x) b y (c ∷ []) q
    ∙ parse_hex-cons ((0 * 16 + x) * 16 + y) c z [] r
    ∙ ap (λ n. some n) (omega arith)

-- If the first three bytes of a hash are hexadecimal digits, it has a lock, whose index, below 4096, is
-- the number that they write.
pub get_lock-digits :
    (a b c x y z : ℕ) (more : Bytes)
    → hex_value a ≡ some x
    → hex_value b ≡ some y
    → hex_value c ≡ some z
    → (get_lock (a ∷ b ∷ c ∷ more) ≡ lock (x * 256 + y * 16 + z)) × (x * 256 + y * 16 + z < 4096)
unfolding get_lock
get_lock-digits a b c x y z more p q r =
    let (small, no_minus, no_plus) = hex_value-lt a x p in
    let below : x * 256 + y * 16 + z < 4096 =
      omega (arith, small, (hex_value-lt b y q).0, (hex_value-lt c z r).0) in
    let fits : ltb (x * 256 + y * 16 + z) 4096 ≡ true = ground arith in
    (rw (no_minus, no_plus, parse_hex-three a b c x y z p q r, fits) refl, below)
