-- ===== src/Policy/Address/Plain.antt =====
-- The loop of `parseEmailAddress`: what it returns, and the addresses that it takes as they are.
use mathlib.Core.Path.{subst}
use go_inbucket.Base.{
  ℕ, ◌+◌, ◌≤◌, ◌<◌, ◌≡◌, ◌⊎◌, refl, sym, ap, ◌∙◌, Bool, true, false, not, ◌&&◌, ◌||◌, inl, inr,
  Bool-cases, [], ◌∷◌, ◌++◌, arith, ltb, ◌==◌, if◌then◌else◌, Bytes, All, All-append, length,
  length-append, append_assoc, append-nil,
}
use go_inbucket.Policy.Address.{
  Result, ok, err, Scan, Step, more, fail, stop, is_letter, is_digit, is_special, step, scan_local,
  start, strip_route, parse_address,
}

abbrev is_atom : ℕ → Bool
is_atom c = is_letter c || is_digit c || is_special c

-- Atoms and single dots, with no dot at either end; `prev` is the byte before.
unfoldable pub is_plain : ℕ → Bytes → Bool
is_plain prev [] = not (prev == b'.')
is_plain prev (c ∷ l) =
    if is_atom c then is_plain c l else (c == b'.' && not (prev == b'.')) && is_plain c l

special_ascii : (c : ℕ) → is_special c ≡ true → c < 128
unfolding is_special
special_ascii c h = ground arith

at_not_special : is_special b'@' ≡ false
unfolding is_special
at_not_special = refl

-- What a step keeps: ASCII bytes, no more of them than were read.
step_bytes :
    (s s' : Scan) (c : ℕ)
    → step s c ≡ more s'
    → (s'.i ≡ s.i + 1) × ((s'.buf ≡ s.buf) ⊎ ((s'.buf ≡ s.buf ++ c ∷ []) × (c < 128)))
unfolding step
step_bytes s s' c h = ground (arith, special_ascii c)

step_stop : (s : Scan) (c : ℕ) → step s c ≡ stop → s.i ≤ 128
unfolding step
step_stop s c h = ground arith

abbrev IsAscii : ℕ → Type 0
IsAscii c = c < 128

abbrev Outcome : Bytes → Bytes → Type 0
Outcome local domain = All IsAscii local × ((domain ≡ []) ⊎ (length local ≤ 128))

-- A step keeps what is known of the buffer.
step_keeps :
    (s s' : Scan) (c : ℕ)
    → step s c ≡ more s'
    → All IsAscii s.buf
    → length s.buf ≤ s.i
    → All IsAscii s'.buf × (length s'.buf ≤ s'.i)
step_keeps s s' c p a l =
    let (i, bytes) = step_bytes s s' c p in
    elim bytes [
      | inl kept ↦ (subst (All IsAscii) (sym kept) a, rw kept (omega (arith, i, l)))
      | inr w ↦ (
        subst (All IsAscii) (sym w.0) (All-append IsAscii s.buf (c ∷ []) a (w.1, tt)),
        rw w.0 (omega (arith, i, l, length-append s.buf (c ∷ []))),
      )
    ]

-- Induction over the bytes left, whatever was read before.
scan_local-Outcome :
    (rest : Bytes) (s : Scan) (local domain : Bytes)
    → scan_local s rest ≡ ok (local, domain)
    → All IsAscii s.buf
    → length s.buf ≤ s.i
    → Outcome local domain
unfolding scan_local
scan_local-Outcome [] s local domain h a l =
    let ended : (s.buf ≡ local) × ([] ≡ domain) = ground arith in
    (rw ended.0 at a, inl (sym ended.1))
scan_local-Outcome (c ∷ rest) s local domain h a l =
    go (λ s'. scan_local-Outcome rest s' local domain) (step s c) refl
  where
    go :
        ((s' : Scan)
          → scan_local s' rest ≡ ok (local, domain)
          → All IsAscii s'.buf
          → length s'.buf ≤ s'.i
          → Outcome local domain)
        → (r : Step) → step s c ≡ r
        → Outcome local domain
    go next (fail e) p = absurd (ground arith)
    go next stop p =
        let ended : s.buf ≡ local = ground arith in
        (rw ended at a, inr (omega (arith, step_stop s c p, ap length ended, l)))
    go next (more s') p = let kept = step_keeps s s' c p a l in next s' (ground arith) kept.0 kept.1

parse_address-scan :
    (address : Bytes) {local domain : Bytes}
    → parse_address address ≡ ok (local, domain)
    → (rest : Bytes) × (scan_local start rest ≡ ok (local, domain))
unfolding parse_address
parse_address-scan address {local} {domain} h = go (strip_route address) refl
  where
    go :
        (r : Result Bytes)
        → strip_route address ≡ r
        → (rest : Bytes) × (scan_local start rest ≡ ok (local, domain))
    go (ok rest) e = (rest, ground arith)
    go (err x) e = absurd (ground arith)

-- Whatever `parseEmailAddress` takes, the local part that it returns holds only ASCII bytes, and at
-- most 128 of them if a domain follows.
pub parse_address-Outcome :
    (address : Bytes) {local domain : Bytes}
    → parse_address address ≡ ok (local, domain)
    → All (λ c. c < 128) local × ((domain ≡ []) ⊎ (length local ≤ 128))
parse_address-Outcome address {local} {domain} h =
    let (rest, scanned) = parse_address-scan address h in
    scan_local-Outcome rest start local domain scanned tt (omega arith)

step_atom :
    (s : Scan) (c : ℕ)
    → is_atom c ≡ true
    → step s c ≡ more (record s { i = s.i + 1; buf = s.buf ++ c ∷ []; prev = c; in_char = false })
unfolding step
step_atom s c h = rw h

step_dot :
    (s : Scan)
    → (s.prev == b'.') ≡ false
    → step s b'.'
      ≡ more (record s { i = s.i + 1; buf = s.buf ++ b'.' ∷ []; prev = b'.'; in_char = false })
unfolding step is_special
step_dot s h = rw h

step_at :
    (s : Scan)
    → (s.in_char || s.in_string) ≡ false
    → s.i ≤ 128
    → (s.prev == b'.') ≡ false
    → step s b'@' ≡ stop
unfolding step is_special
step_at s q i d = ground arith

abbrev after : Scan → ℕ → Scan
after s c = record s { i = s.i + 1; buf = s.buf ++ c ∷ []; prev = c; in_char = false }

step_plain :
    (s : Scan) (c : ℕ) (l : Bytes)
    → is_plain s.prev (c ∷ l) ≡ true
    → (step s c ≡ more (after s c)) × (is_plain c l ≡ true)
unfolding is_plain
step_plain s c l h = elim (Bool-cases (is_atom c)) [
  | inl atom ↦ (step_atom s c atom, rw atom at h)
  | inr other ↦
      let dot : c ≡ b'.' = ground arith in
      let first : (s.prev == b'.') ≡ false = ground arith in
      (subst (λ x. step s x ≡ more (after s x)) (sym dot) (step_dot s first), ground arith)
]

scan_more :
    (s s' : Scan) (c : ℕ) (rest : Bytes)
    → step s c ≡ more s'
    → scan_local s (c ∷ rest) ≡ scan_local s' rest
unfolding scan_local
scan_more s s' c rest h =
    ap (λ r. elim r [ more s'' ↦ scan_local s'' rest | fail e ↦ err e | stop ↦ ok (s.buf, rest) ]) h

scan_stop :
    (s : Scan) (c : ℕ) (rest : Bytes) → step s c ≡ stop → scan_local s (c ∷ rest) ≡ ok (s.buf, rest)
unfolding scan_local
scan_stop s c rest h = ground (arith, h)

scan_end : (s : Scan) → (s.in_char || s.in_string) ≡ false → scan_local s [] ≡ ok (s.buf, [])
unfolding scan_local
scan_end s q = ground arith

-- A plain local part is copied, up to the `@` or to the end.
scan_plain :
    (l : Bytes) (s : Scan) (domain : Bytes)
    → (s.in_char || s.in_string) ≡ false
    → is_plain s.prev l ≡ true
    → (s.i + length l ≤ 128 → scan_local s (l ++ b'@' ∷ domain) ≡ ok (s.buf ++ l, domain))
      × (scan_local s l ≡ ok (s.buf ++ l, []))
scan_plain [] s domain q h =
    let no_dot : (s.prev == b'.') ≡ false = unfold is_plain in ground arith in
    (
      λ bound. rw append-nil (scan_stop s b'@' domain (step_at s q (omega arith) no_dot)),
      rw append-nil (scan_end s q),
    )
scan_plain (c ∷ l) s domain q h =
    let (stepped, h') = step_plain s c l h in
    let (with_domain, alone) = scan_plain l (after s c) domain (ground arith) h' in
    let joined : (s.buf ++ c ∷ []) ++ l ≡ s.buf ++ c ∷ l = append_assoc s.buf (c ∷ []) l in
    (
      λ bound.
          scan_more s (after s c) c (l ++ b'@' ∷ domain) stepped
          ∙ with_domain (omega arith)
          ∙ ap (λ x. ok (x, domain)) joined,
      scan_more s (after s c) c l stepped ∙ alone ∙ ap (λ x. ok (x, [])) joined,
    )

plain_head :
    (c : ℕ) (l : Bytes)
    → is_plain b'.' (c ∷ l) ≡ true
    → ((c == b'.') ≡ false) × ((c == b'@') ≡ false)
unfolding is_plain is_special
plain_head c l h = ground arith

-- An address whose local part needs no quotes is split at its `@` and nothing else is changed: the
-- local part, of at most 128 bytes, and whatever follows, up to 320 bytes in all. Without the `@` it is
-- the local part alone.
pub parse_address_plain :
    (local domain : Bytes)
    → is_plain b'.' local ≡ true
    → length local ≤ 128
    → length (local ++ b'@' ∷ domain) ≤ 320
    → (parse_address (local ++ b'@' ∷ domain) ≡ ok (local, domain))
      × (parse_address local ≡ ok (local, []))
unfolding parse_address is_plain
parse_address_plain [] domain h short all = absurd (ground arith)
parse_address_plain (c ∷ l) domain h short all =
    let (no_dot, no_at) = plain_head c l h in
    let (with_domain, alone) = scan_plain (c ∷ l) start domain refl h in
    let fits : ltb 320 (length ((c ∷ l) ++ b'@' ∷ domain)) ≡ false = ground arith in
    let fits' : ltb 320 (length (c ∷ l)) ≡ false = ground arith in
    (rw (fits, no_at, no_dot) (with_domain (omega arith)), rw (fits', no_at, no_dot) alone)
