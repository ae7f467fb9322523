-- ===== src/Storage/Mem/Enforcer/Add.antt =====
-- `AddMessage` under a size limit, on a store with no cap.
use go_inbucket.Base.{
  ℕ, ◌+◌, ◌≡◌, refl, sym, ap, ◌∙◌, none, some, List, [], ◌∷◌, ◌++◌, arith, if◌then◌else◌, Bytes,
  bytes_eq, bytes_eq_iff, Bool-cases, inl, inr,
}
use go_inbucket.Storage.Dict.{Dict, lookup}
use go_inbucket.Storage.Mem.Cap.{lookup_outside, newest}
use go_inbucket.Storage.Mem.Contents.{messages_if, add_message_lem, next_message}
use go_inbucket.Storage.Mem.Enforcer.Quota.{
  size_of, size_in, stored, entered, total, IsDistinct, Agrees, IsShrunk, shrink-IsShrunk,
}
use go_inbucket.Storage.Mem.Enforcer.{Entry, Enforcer, entry_of, deliver, is_entry, add}
use go_inbucket.Storage.Mem.Valid.{IsStore, messages_of}
use go_inbucket.Storage.Mem.{Store, add_message}
use go_inbucket.Storage.Message.{Message, Draft, size}

entered-snoc :
    (e : Entry) (all : List Entry) (mailbox id : Bytes)
    → entered e.mailbox e.id all ≡ none
    → entered mailbox id (all ++ e ∷ [])
      ≡ (if is_entry mailbox id e then some e.size else entered mailbox id all)
entered-snoc e [] mailbox id h = refl
entered-snoc e (f ∷ all) mailbox id h = ground (
  arith,
  bytes_eq_iff f.mailbox mailbox,
  bytes_eq_iff f.id id,
  bytes_eq_iff e.mailbox mailbox,
  bytes_eq_iff e.id id,
  bytes_eq_iff f.mailbox e.mailbox,
  bytes_eq_iff f.id e.id,
  entered-snoc e all mailbox id,
)

IsDistinct-snoc :
    (e : Entry) (all : List Entry)
    → IsDistinct all
    → entered e.mailbox e.id all ≡ none
    → IsDistinct (all ++ e ∷ [])
IsDistinct-snoc e [] d h = (refl, tt)
IsDistinct-snoc e (f ∷ all) (n, d) h = (
  ground (
    arith,
    bytes_eq_iff e.mailbox f.mailbox,
    bytes_eq_iff e.id f.id,
    bytes_eq_iff f.mailbox e.mailbox,
    bytes_eq_iff f.id e.id,
    entered-snoc e all f.mailbox f.id,
  ),
  IsDistinct-snoc e all d (ground arith),
)

total-snoc : (e : Entry) (all : List Entry) → total (all ++ e ∷ []) ≡ total all + e.size
total-snoc e [] = omega arith
total-snoc e (f ∷ all) = omega (arith, total-snoc e all)

size_in-snoc :
    (k i : Bytes) (m : Message) (d : Dict Message)
    → lookup k d ≡ none
    → size_in i (d ++ (k, m) ∷ []) ≡ (if bytes_eq k i then some (size m) else size_in i d)
size_in-snoc k i m [] h = ground arith
size_in-snoc k i m ((j, n) ∷ d) h =
    ground (arith, bytes_eq_iff k i, bytes_eq_iff j i, bytes_eq_iff j k, size_in-snoc k i m d)

module _ (d : Draft) (source : Bytes) (s : Store) (h : IsStore s)
    (read : d.source ≡ some source) where
  next_fresh : lookup (next_message d source s).id (messages_of d.mailbox s) ≡ none
  next_fresh = lookup_outside _ _ _ _ (h.valid d.mailbox).ordered (inr (omega arith))

  stored_if :
      (mailbox id : Bytes)
      → size_in id (
          messages_if d.mailbox mailbox
            (messages_of d.mailbox s
              ++ ((next_message d source s).id, next_message d source s) ∷ [])
            s)
        ≡ (if is_entry mailbox id (entry_of (next_message d source s))
            then some (size (next_message d source s))
            else stored mailbox id s)
  stored_if mailbox id = elim (Bool-cases (bytes_eq d.mailbox mailbox)) [
    | inl same ↦ rw same (
        size_in-snoc _ id (next_message d source s) (messages_of d.mailbox s) next_fresh
        ∙ ap
            (λ n.
              if bytes_eq (next_message d source s).id id
              then some (size (next_message d source s))
              else stored n id s)
            ((bytes_eq_iff d.mailbox mailbox).0 same))
    | inr apart ↦ rw apart
  ]

  -- The new message and its entry keep the store and the list in agreement.
  Agrees-add_message :
      (all : List Entry) (cur : ℕ)
      → s.cap ≡ 0
      → Agrees all cur s
      → Agrees
          (all ++ entry_of (next_message d source s) ∷ [])
          (cur + size (next_message d source s))
          (add_message d s).0
  Agrees-add_message all cur uncapped a =
      let m = next_message d source s in
      let fresh : entered m.mailbox m.id all ≡ none =
        sym (a.same m.mailbox m.id) ∙ ap size_of next_fresh in
      record {
        same = λ mailbox id.
            ap (size_in id) (stores mailbox)
            ∙ stored_if mailbox id
            ∙ ap (λ x. if is_entry mailbox id (entry_of m) then some (size m) else x)
                (a.same mailbox id)
            ∙ sym (entered-snoc (entry_of m) all mailbox id fresh);
        distinct = IsDistinct-snoc (entry_of m) all a.distinct fresh;
        summed = omega (arith, a.summed, total-snoc (entry_of m) all);
      }
    where
      stores :
          (mailbox : Bytes)
          → messages_of mailbox (add_message d s).0
            ≡ messages_if d.mailbox mailbox
                (messages_of d.mailbox s
                  ++ ((next_message d source s).id, next_message d source s) ∷ [])
                s
      stores mailbox =
          (add_message_lem d source s mailbox h read).1
          ∙ ap
              (λ c.
                messages_if d.mailbox mailbox
                  (newest c (
                    messages_of d.mailbox s
                    ++ ((next_message d source s).id, next_message d source s) ∷ []))
                  s)
              uncapped

-- With no cap on its mailboxes, a store that meets the invariant and whose enforcer accounts for
-- exactly its messages takes each readable message with no panic; the messages that are left add up to at most the limit, the oldest went
-- first, and the enforcer again accounts for exactly the messages that are stored.
pub add-within :
    (d : Draft) (source : Bytes) (s : Store) (enf : Enforcer)
    → IsStore s
    → d.source ≡ some source
    → s.cap ≡ 0
    → Agrees enf.all enf.cur_size s
    → let m = next_message d source s in
      (enf' : Enforcer) × (s' : Store) × (add d (record { store = s; enforcer = some enf })
        ≡ some (record { store = s'; enforcer = some enf' }, some m.id))
      × IsShrunk enf.max_size (enf.all ++ entry_of m ∷ []) enf' s'
unfolding add deliver
add-within d source s enf h read uncapped a =
    let m = next_message d source s in
    let (enf', s', ran, out) =
      shrink-IsShrunk enf.max_size (enf.all ++ entry_of m ∷ []) (enf.cur_size + size m)
        (add_message d s).0
        (Agrees-add_message d source s h read enf.all enf.cur_size uncapped a) in
    (enf', s', rw ((add_message_lem d source s d.mailbox h read).0, add) (rw (ran, add)), out)
