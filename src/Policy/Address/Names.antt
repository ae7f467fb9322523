-- ===== src/Policy/Address/Names.antt =====
-- The names of mailboxes, the results of `parseMailboxName`.
use mathlib.Core.Path.{ap₂}
use go_inbucket.Base.{
  ℕ, ◌<◌, ◌≡◌, ◌≢◌, refl, ap, ◌∙◌, true, inl, inr, Bool-cases, [], ◌∷◌, map, arith, ◌==◌,
  if◌then◌else◌, Bytes, bytes_eq, bytes_eq_iff, All,
}
use go_inbucket.GoText.{Unicode, is_ascii, lower_byte, to_lower, cut_at}
use go_inbucket.Policy.Address.{ok, is_name_byte, invalid_bytes, before_plus, parse_mailbox_name}

-- A byte of a finished mailbox name.
abbrev pub IsNameByte : ℕ → Type 0
IsNameByte c = (is_name_byte c ≡ true) × (c ≢ b'+')

name_byte_lower : (c : ℕ) → is_name_byte c ≡ true → (lower_byte c ≡ c) × (c < 128)
unfolding is_name_byte lower_byte
name_byte_lower c h = ground arith

invalid_bytes-nil : (s : Bytes) → invalid_bytes s ≡ [] → All (λ c. is_name_byte c ≡ true) s
unfolding invalid_bytes
invalid_bytes-nil [] h = tt
invalid_bytes-nil (c ∷ s) h = ground (arith, invalid_bytes-nil s)

before_plus-cons :
    (c : ℕ) (s : Bytes) → before_plus (c ∷ s) ≡ (if c == b'+' then [] else c ∷ before_plus s)
unfolding before_plus cut_at
before_plus-cons c s = ground arith

before_plus-nil : before_plus [] ≡ []
unfolding before_plus cut_at
before_plus-nil = refl

before_plus-All : (s : Bytes) → All (λ c. is_name_byte c ≡ true) s → All IsNameByte (before_plus s)
before_plus-All [] h = rw before_plus-nil tt
before_plus-All (c ∷ s) (p, h) = elim (Bool-cases (c == b'+')) [
  | inl plus ↦ rw (before_plus-cons c s, plus) tt
  | inr other ↦ rw (before_plus-cons c s, other) ((p, λ e. ground arith), before_plus-All s h)
]

-- What `parseMailboxName` returns holds only bytes that need no quotes, none in upper case, and no `+`.
pub parse_mailbox_name-All :
    (u : Unicode) (local : Bytes) {name : Bytes}
    → parse_mailbox_name u local ≡ ok name
    → All IsNameByte name
unfolding parse_mailbox_name
parse_mailbox_name-All u local {name} h =
    elim (Bool-cases (bytes_eq (invalid_bytes (to_lower u local)) [])) [
      | inl valid ↦
          let bytes = invalid_bytes-nil (to_lower u local) ((bytes_eq_iff _ _).0 valid) in
          let is_name : before_plus (to_lower u local) ≡ name = ground arith in
          rw is_name at (before_plus-All (to_lower u local) bytes)
      | inr invalid ↦ absurd (ground arith)
    ]

abbrev AreValid : Bytes → Type 0
AreValid = All (λ c. is_name_byte c ≡ true)

lower_valid : (s : Bytes) → AreValid s → (is_ascii s ≡ true) × (map lower_byte s ≡ s)
unfolding is_ascii
lower_valid [] h = (refl, refl)
lower_valid (c ∷ s) (p, h) = (
  ground (arith, name_byte_lower c p, lower_valid s h),
  ap₂ ◌∷◌ (name_byte_lower c p).0 (lower_valid s h).1,
)

to_lower_valid : (u : Unicode) (s : Bytes) → AreValid s → to_lower u s ≡ s
unfolding to_lower
to_lower_valid u s h = rw ((lower_valid s h).0) (lower_valid s h).1

invalid_bytes_valid : (s : Bytes) → AreValid s → invalid_bytes s ≡ []
unfolding invalid_bytes
invalid_bytes_valid [] h = refl
invalid_bytes_valid (c ∷ s) (p, h) = ground (arith, invalid_bytes_valid s h)

valid_of_names : (s : Bytes) → All IsNameByte s → AreValid s
valid_of_names [] h = tt
valid_of_names (c ∷ s) ((p, n), h) = (p, valid_of_names s h)

before_plus_names : (s : Bytes) → All IsNameByte s → before_plus s ≡ s
before_plus_names [] h = before_plus-nil
before_plus_names (c ∷ s) ((p, n), h) = ground (arith, before_plus-cons c s, before_plus_names s h)

-- On valid bytes only the part before the first `+` is left.
parse_valid :
    (u : Unicode) (c : ℕ) (s : Bytes)
    → AreValid (c ∷ s)
    → parse_mailbox_name u (c ∷ s) ≡ ok (before_plus (c ∷ s))
unfolding parse_mailbox_name
parse_valid u c s h = rw (to_lower_valid u (c ∷ s) h, invalid_bytes_valid (c ∷ s) h)

-- A mailbox name that is not empty is the name of itself: to parse it again changes nothing.
pub parse_mailbox_name_idem :
    (u : Unicode) (local : Bytes) {name : Bytes}
    → parse_mailbox_name u local ≡ ok name
    → name ≢ []
    → parse_mailbox_name u name ≡ ok name
parse_mailbox_name_idem u local {name} h ne = go name (parse_mailbox_name-All u local h) ne
  where
    go : (n : Bytes) → All IsNameByte n → n ≢ [] → parse_mailbox_name u n ≡ ok n
    go [] bytes ne' = absurd (ne' refl)
    go (c ∷ s) bytes ne' =
        parse_valid u c s (valid_of_names (c ∷ s) bytes) ∙ ap ok (before_plus_names (c ∷ s) bytes)

plus_valid : is_name_byte b'+' ≡ true
unfolding is_name_byte
plus_valid = refl

-- A local part of a `+` and bytes that a name may hold gives the empty name, though an empty local
-- part is refused.
pub parse_mailbox_name_plus :
    (u : Unicode) (tag : Bytes)
    → All (λ c. is_name_byte c ≡ true) tag
    → parse_mailbox_name u (b'+' ∷ tag) ≡ ok []
parse_mailbox_name_plus u tag h =
    parse_valid u b'+' tag (plus_valid, h) ∙ ap ok (before_plus-cons b'+' tag)
