-- ===== src/Pop3/Invariant.antt =====
-- The invariant of a session, and that each handler of pkg/server/pop3/handler.go keeps it and answers.
pub mod Handlers
pub mod Run
use go_inbucket.Base.{
  ℕ, zero, suc, ◌+◌, ◌-◌, ◌≤◌, ◌<◌, ◌≡◌, refl, sym, ap, ◌∙◌, Bool, true, false, not, ◌||◌, Option,
  none, some, List, [], ◌∷◌, ◌++◌, arith, ltb, ◌==◌, if◌then◌else◌, Bytes, length, set, get_elem?,
  replicate, length-set, length-replicate, Bool-cases, Option-cases, inl, inr,
}
use go_inbucket.GoText.Decimal.{SignedSize, parse_int, int32_limit}
use go_inbucket.Pop3.{
  State, Mail, Server, World, Session, send, send_all, enter_state, oo_seq, retain_all,
}
use go_inbucket.Pop3.Transaction.{Number, bad, good, message_number, select}

-- The flags that are set.
abbrev pub count : List Bool → ℕ
count [] = 0
count (f ∷ flags) = (if f then 1 else 0) + count flags

-- A flag for each message, their number in `msg_count`, and no index out of range.
pub record IsCounted (s : Session) : Type 0 where
  pub paired : length s.retain ≡ length s.messages
  pub counted : s.msg_count ≡ count s.retain
  pub calm : s.panicked ≡ false

-- A session that meets the invariant and has tried to send `n` lines or more.
pub record Since (n : ℕ) (s : Session) : Type 0 where
  pub valid : IsCounted s
  pub tried : n ≤ s.writes

pub Since-weaken : (m n : ℕ) (s : Session) → m ≤ n → Since n s → Since m s
Since-weaken m n s le h = record { valid = h.valid; tried = omega (arith, le, h.tried) }

pub get_elem?-in_range {ℓ} :
    {A : Type ℓ} (xs : List A) (i : ℕ) → i < length xs → (a : A) × (get_elem? xs i ≡ some a)
get_elem?-in_range [] i h = absurd (omega arith)
get_elem?-in_range (x ∷ xs) zero h = (x, refl)
get_elem?-in_range (x ∷ xs) (suc i) h = get_elem?-in_range xs i (omega arith)

-- A number that is taken is the number of a message.
pub message_number-bounds :
    (cmd arg text : Bytes) (count n : ℕ)
    → message_number cmd arg text count ≡ good n
    → (1 ≤ n) × (n ≤ count)
unfolding message_number
message_number-bounds cmd arg text count n h = elim (Option-cases (parse_int int32_limit text)) [
  | inl unread ↦ absurd (ground arith)
  | inr (size, read) ↦ ground arith
]

-- With a flag for each message, the messages can be gone through.
pub select-some :
    (b : Bool) (n : ℕ) (ms : List Mail) (flags : List Bool)
    → length flags ≡ length ms
    → (kept : List (ℕ × Mail)) × (select b n ms flags ≡ some kept)
unfolding select
select-some b n [] flags h = ([], refl)
select-some b n (m ∷ ms) [] h = absurd (omega (arith, h))
select-some b n (m ∷ ms) (f ∷ flags) h =
    let (later, e) = select-some b (n + 1) ms flags (omega (arith, h)) in
    (if (if b then f else not f) then (n, m) ∷ later else later, rw e)

-- As many are found as there are flags set.
pub length-select :
    (n : ℕ) (ms : List Mail) (flags : List Bool) (kept : List (ℕ × Mail))
    → select true n ms flags ≡ some kept
    → length flags ≡ length ms
    → length kept ≡ count flags
unfolding select
length-select n [] [] kept e h = ground arith
length-select n [] (f ∷ flags) kept e h = absurd (omega (arith, h))
length-select n (m ∷ ms) [] kept e h = absurd (omega (arith, h))
length-select n (m ∷ ms) (f ∷ flags) kept e h =
    let (later, r) = select-some true (n + 1) ms flags (omega (arith, h)) in
    ground (arith, length-select (n + 1) ms flags later r (omega (arith, h)))

count-replicate : (n : ℕ) → count (replicate n true) ≡ n
count-replicate zero = refl
count-replicate (suc n) = omega (arith, count-replicate n)

-- Clearing a flag that is set.
pub count-set :
    (flags : List Bool) (i : ℕ)
    → get_elem? flags i ≡ some true
    → count flags ≡ suc (count (set flags i false))
count-set [] i h = cc
count-set (f ∷ flags) zero h = ground arith
count-set (f ∷ flags) (suc i) h = omega (arith, count-set flags i h)

-- RSET and the loading of a mailbox set all flags.
pub retain_all-Since :
    (n : ℕ) (s : Session) → s.panicked ≡ false → n ≤ s.writes → Since n (retain_all s)
retain_all-Since n s calm le = record {
  valid = record {
    paired = length-replicate (length s.messages) true;
    counted = sym (count-replicate (length s.messages));
    calm = calm;
  };
  tried = le;
}

module _ {W : Type 0} (srv : Server W) where
  pub send-Since : (n : ℕ) (msg : Bytes) (s : Session) → Since n s → Since (suc n) (send srv msg s)
  unfolding send
  send-Since n msg s h = elim (Bool-cases (srv.write_ok s.writes)) [
    | inl sent ↦ rw sent (record {
      valid = record { paired = h.valid.paired; counted = h.valid.counted; calm = h.valid.calm };
      tried = omega (arith, h.tried);
    })
    | inr lost ↦ rw lost (record {
      valid = record { paired = h.valid.paired; counted = h.valid.counted; calm = h.valid.calm };
      tried = omega (arith, h.tried);
    })
  ]

  pub send_all-Since :
      (n : ℕ) (msgs : List Bytes) (s : Session) → Since n s → Since n (send_all srv msgs s)
  unfolding send_all
  send_all-Since n [] s h = h
  send_all-Since n (msg ∷ msgs) s h =
      send_all-Since n msgs (send srv msg s)
        (Since-weaken n (suc n) (send srv msg s) (omega arith) (send-Since n msg s h))

  pub oo_seq-Since :
      (n : ℕ) (cmd : Bytes) (s : Session) → Since n s → Since (suc n) (oo_seq srv cmd s)
  unfolding oo_seq
  oo_seq-Since n cmd s h = send-Since n _ s h

pub enter_state-Since : (n : ℕ) (st : State) (s : Session) → Since n s → Since n (enter_state st s)
enter_state-Since n st s h = record {
  valid = record { paired = h.valid.paired; counted = h.valid.counted; calm = h.valid.calm };
  tried = h.tried;
}
