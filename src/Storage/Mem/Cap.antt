-- ===== src/Storage/Mem/Cap.antt =====
-- A mailbox of the memory store: its invariant, the loop that enforces the cap, and the sorting.
use mathlib.Core.Path.{subst}
use go_inbucket.Base.{
  ℕ, zero, suc, ◌+◌, ◌-◌, ◌≤◌, ◌<◌, ◌≡◌, refl, sym, ap, ◌∙◌, ◌⊎◌, none, [], ◌∷◌, ◌++◌, arith, ltb,
  if◌then◌else◌, Bytes, bytes_eq_iff, length, drop, length-drop, Bool-cases, inl, inr,
}
use go_inbucket.GoText.Decimal.{itoa, itoa-injective}
use go_inbucket.Storage.Dict.{Dict, lookup, insert, erase, insert_fresh, erase_absent}
use go_inbucket.Storage.Message.{Message, Draft}
use go_inbucket.Storage.Mem.{Mailbox, enforce_cap, add_to_mailbox, message_of}

-- The entries stand in the order of their numbers, which lie between `lo` and `hi`, under the texts
-- of these numbers.
abbrev pub IsOrdered : ℕ → ℕ → Dict Message → Type 0
IsOrdered lo hi [] = Unit {0}
IsOrdered lo hi ((k, m) ∷ d) =
    (k ≡ itoa m.index) × (m.id ≡ k) × (lo ≤ m.index) × (m.index ≤ hi) × IsOrdered (m.index + 1) hi d

pub record IsValid (mb : Mailbox) : Type 0 where
  pub ordered : IsOrdered mb.first mb.last mb.messages
  pub within : mb.first ≤ mb.last + 1

pub IsOrdered-weaken :
    (lo lo' hi hi' : ℕ) (d : Dict Message)
    → lo' ≤ lo
    → hi ≤ hi'
    → IsOrdered lo hi d
    → IsOrdered lo' hi' d
IsOrdered-weaken lo lo' hi hi' [] a b h = tt
IsOrdered-weaken lo lo' hi hi' ((k, m) ∷ d) a b (e, i, l, u, r) = (
  e,
  i,
  omega arith,
  omega arith,
  IsOrdered-weaken (m.index + 1) (m.index + 1) hi hi' d (omega arith) b r,
)

-- A number outside the bounds is no key.
pub lookup_outside :
    (lo hi n : ℕ) (d : Dict Message)
    → IsOrdered lo hi d
    → (n < lo) ⊎ (hi < n)
    → lookup (itoa n) d ≡ none
lookup_outside lo hi n [] h out = refl
lookup_outside lo hi n ((k, m) ∷ d) (e, i, l, u, r) out = ground (
  arith,
  bytes_eq_iff k (itoa n),
  itoa-injective m.index n,
  lookup_outside (m.index + 1) hi n d r,
)

-- One round of the loop drops the first entry, or only moves `first` on.
data FirstErased (lo hi : ℕ) (d : Dict Message) : Type 0 where
  kept : erase (itoa lo) d ≡ d → IsOrdered (lo + 1) hi d → FirstErased lo hi d
  dropped :
      (e : Bytes × Message) (r : Dict Message)
      → d ≡ e ∷ r
      → erase (itoa lo) d ≡ r
      → IsOrdered (lo + 1) hi r
      → FirstErased lo hi d

erase_first : (lo hi : ℕ) (d : Dict Message) → IsOrdered lo hi d → FirstErased lo hi d
erase_first lo hi [] h = kept refl tt
erase_first lo hi ((k, m) ∷ d) (e, i, l, u, r) = elim (Bool-cases (ltb lo m.index)) [
  | inl later ↦
      let h : IsOrdered (lo + 1) hi ((k, m) ∷ d) = (e, i, ground arith, u, r) in
      kept
        (erase_absent (itoa lo) ((k, m) ∷ d)
          (lookup_outside (lo + 1) hi lo ((k, m) ∷ d) h (inl (omega arith))))
        h
  | inr same ↦
      let is_first : m.index ≡ lo = ground arith in
      let r' : IsOrdered (lo + 1) hi d = subst (λ n. IsOrdered (n + 1) hi d) is_first r in
      let gone =
        erase_absent (itoa lo) d (lookup_outside (lo + 1) hi lo d r' (inl (omega arith))) in
      dropped (k, m) d refl (ground (arith, bytes_eq_iff k (itoa lo), gone)) r'
]

bounds_of : (lo hi : ℕ) (d : Dict Message) → IsOrdered lo hi d → 0 < length d → lo ≤ hi
bounds_of lo hi [] h n = absurd (omega arith)
bounds_of lo hi ((k, m) ∷ d) (e, i, l, u, r) n = omega arith

drop_last :
    (e : Bytes × Message) (r : Dict Message) (cap : ℕ)
    → cap < length (e ∷ r)
    → drop (length (e ∷ r) - cap) (e ∷ r) ≡ drop (length r - cap) r
drop_last e r cap h = let n : length (e ∷ r) - cap ≡ suc (length r - cap) = omega arith in rw n

-- What the loop makes of a mailbox: its newest `cap` entries are left.
pub record IsTrimmed (cap : ℕ) (mb mb' : Mailbox) : Type 0 where
  pub messages : mb'.messages ≡ drop (length mb.messages - cap) mb.messages
  pub last : mb'.last ≡ mb.last
  pub name : mb'.name ≡ mb.name
  pub valid : IsValid mb'

abbrev next_round : Mailbox → Mailbox
next_round mb = record mb { messages = erase (itoa mb.first) mb.messages; first = mb.first + 1 }

next_round-IsTrimmed :
    (cap : ℕ) (mb mb' : Mailbox)
    → IsValid mb
    → cap < length mb.messages
    → (IsValid (next_round mb) → IsTrimmed cap (next_round mb) mb')
    → IsTrimmed cap mb mb'
next_round-IsTrimmed cap mb mb' v over ih =
    elim (erase_first mb.first mb.last mb.messages v.ordered) [
      | kept e o ↦
          let t = ih (record { ordered = rw e o; within = within }) in
          record { messages = rw e at t.messages; last = t.last; name = t.name; valid = t.valid }
      | dropped x r split e o ↦
          let t = ih (record { ordered = rw e o; within = within }) in
          let rest : mb'.messages ≡ drop (length r - cap) r = rw e at t.messages in
          record {
            messages =
                rest
                ∙ sym (
                    subst (λ d. drop (length d - cap) d ≡ drop (length r - cap) r) (sym split)
                      (drop_last x r cap (subst (λ d. cap < length d) split over)));
            last = t.last;
            name = t.name;
            valid = t.valid;
          }
    ]
  where
    within : mb.first + 1 ≤ mb.last + 1
    within = omega (arith, bounds_of mb.first mb.last mb.messages v.ordered)

-- The loop ends by its test, and leaves the mailbox less its oldest entries.
pub enforce_cap-IsTrimmed :
    (fuel cap : ℕ) (mb : Mailbox)
    → IsValid mb
    → mb.last + 1 - mb.first < fuel
    → IsTrimmed cap mb (enforce_cap fuel cap mb)
unfolding enforce_cap
enforce_cap-IsTrimmed zero cap mb v f = absurd (omega arith)
enforce_cap-IsTrimmed (suc fuel) cap mb v f = elim (Bool-cases (ltb cap (length mb.messages))) [
  | inr fits ↦
      let z : length mb.messages - cap ≡ 0 = ground arith in
      rw fits (record { messages = rw z; last = refl; name = refl; valid = v })
  | inl over ↦
      let more : cap < length mb.messages = ground arith in
      rw over (
        next_round-IsTrimmed cap mb _ v more (λ v'.
          enforce_cap-IsTrimmed fuel cap (next_round mb) v'
            (omega (arith, bounds_of mb.first mb.last mb.messages v.ordered))))
]

IsOrdered-snoc :
    (lo hi : ℕ) (d : Dict Message) (m : Message)
    → IsOrdered lo hi d
    → lo ≤ hi + 1
    → m.index ≡ hi + 1
    → m.id ≡ itoa m.index
    → IsOrdered lo (hi + 1) (d ++ (itoa m.index, m) ∷ [])
IsOrdered-snoc lo hi [] m h b e i = (refl, i, omega arith, omega arith, tt)
IsOrdered-snoc lo hi ((k, n) ∷ d) m (p, q, l, u, r) b e i =
    (p, q, l, omega arith, IsOrdered-snoc (n.index + 1) hi d m r (omega arith) e i)

-- The mailbox with one more entry, before the cap is looked at.
abbrev grown : Draft → Bytes → Mailbox → Mailbox
grown d source mb = record mb {
  last = mb.last + 1;
  messages = insert (itoa (mb.last + 1)) (message_of d source (mb.last + 1)) mb.messages;
}

module _ (d : Draft) (source : Bytes) (mb : Mailbox) (v : IsValid mb) where
  grown_appends :
      (grown d source mb).messages
      ≡ mb.messages ++ (itoa (mb.last + 1), message_of d source (mb.last + 1)) ∷ []
  grown_appends =
      insert_fresh _ _ _
        (lookup_outside mb.first mb.last (mb.last + 1) mb.messages v.ordered (inr (omega arith)))

  grown-IsValid : IsValid (grown d source mb)
  grown-IsValid = record {
    ordered = rw grown_appends (
        IsOrdered-snoc mb.first mb.last mb.messages (message_of d source (mb.last + 1)) v.ordered
          v.within refl refl);
    within = omega (arith, v.within);
  }

-- The entries that a cap of `cap` leaves; 0 is no cap.
abbrev pub newest : ℕ → Dict Message → Dict Message
newest cap d = if ltb 0 cap then drop (length d - cap) d else d

-- `AddMessage` on a valid mailbox appends the new message under the next number, drops the oldest
-- messages beyond the cap and none other, returns the message, and keeps the mailbox valid.
pub add_to_mailbox-newest :
    (cap : ℕ) (d : Draft) (source : Bytes) (mb : Mailbox)
    → IsValid mb
    → let m = message_of d source (mb.last + 1) in
      let mb' = (add_to_mailbox cap d source mb).0 in
      (mb'.messages ≡ newest cap (mb.messages ++ (m.id, m) ∷ []))
      × ((add_to_mailbox cap d source mb).1 ≡ m)
      × (mb'.last ≡ mb.last + 1)
      × IsValid mb'
unfolding add_to_mailbox
add_to_mailbox-newest cap d source mb v = elim (Bool-cases (ltb 0 cap)) [
  | inr uncapped ↦
      rw uncapped (grown_appends d source mb v, refl, refl, grown-IsValid d source mb v)
  | inl capped ↦
      let t =
        enforce_cap-IsTrimmed (mb.last + 3) cap (grown d source mb) (grown-IsValid d source mb v)
          (omega arith) in
      rw capped (
        t.messages ∙ ap (λ x. drop (length x - cap) x) (grown_appends d source mb v),
        refl,
        t.last,
        t.valid,
      )
]

-- Under a cap, a valid mailbox holds at most so many messages after a delivery.
pub add_to_mailbox-le-cap :
    (cap : ℕ) (d : Draft) (source : Bytes) (mb : Mailbox)
    → IsValid mb
    → 0 < cap
    → length (add_to_mailbox cap d source mb).0.messages ≤ cap
add_to_mailbox-le-cap cap d source mb v pos =
    let all = mb.messages ++ (itoa (mb.last + 1), message_of d source (mb.last + 1)) ∷ [] in
    rw ((add_to_mailbox-newest cap d source mb v).0)
      (ground (arith, length-drop (length all - cap) all))
