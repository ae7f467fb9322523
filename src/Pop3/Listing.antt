-- ===== src/Pop3/Listing.antt =====
-- What STAT, LIST, UIDL and DELE of pkg/server/pop3/handler.go say of the messages of a session.
use go_inbucket.Base.{
  ℕ, zero, suc, ◌+◌, ◌-◌, ◌<◌, ◌≡◌, sym, ap, ◌∙◌, Bool, true, false, ◌||◌, Option, none, some, List,
  [], ◌∷◌, ◌++◌, map, arith, append_assoc, ◌==◌, Bytes, bytes_eq, length, set, get_elem?,
  Option-cases, inl, inr, txt, if◌then◌else◌,
}
use go_inbucket.GoText.Decimal.{itoa}
use go_inbucket.Pop3.{Mail, Server, Session, send, send_all, retained}
use go_inbucket.Pop3.Deletes.{is_marked, send-keeps}
use go_inbucket.Pop3.Framing.{out-send, out-send_all}
use go_inbucket.Pop3.Invariant.{IsCounted, select-some, length-select}
use go_inbucket.Pop3.Transaction.{
  select, total_size, message_at, unretain, two_numbers, listing, listed, stat_handler,
  list_handler, dele_message,
}

-- The message of a number in a listing.
abbrev pub shown : ℕ → List (ℕ × Mail) → Option Mail
shown n [] = none
shown n ((k, m) ∷ ms) = if k == n then some m else shown n ms

-- The message at an index, if its flag is set.
abbrev pub offered : ℕ → List Mail → List Bool → Option Mail
offered i ms flags = elim (get_elem? flags i) [
  | none ↦ none
  | some f ↦ if f then get_elem? ms i else none
]

select-below :
    (k n : ℕ) (ms : List Mail) (flags : List Bool) (kept : List (ℕ × Mail))
    → select true k ms flags ≡ some kept
    → n < k
    → shown n kept ≡ none
unfolding select
select-below k n [] flags kept e lt = ground arith
select-below k n (m ∷ ms) [] kept e lt = absurd (ground arith)
select-below k n (m ∷ ms) (f ∷ flags) kept e lt =
    elim (Option-cases (select true (k + 1) ms flags)) [
      | inl none_left ↦ ground arith
      | inr (later, r) ↦ ground (arith, select-below (k + 1) n ms flags later r (omega (arith, lt)))
    ]

select-shown :
    (k i : ℕ) (ms : List Mail) (flags : List Bool) (kept : List (ℕ × Mail))
    → select true k ms flags ≡ some kept
    → length flags ≡ length ms
    → shown (k + i) kept ≡ offered i ms flags
unfolding select
select-shown k i [] [] kept e h = ground arith
select-shown k i [] (f ∷ flags) kept e h = absurd (omega (arith, h))
select-shown k i (m ∷ ms) [] kept e h = absurd (omega (arith, h))
select-shown k zero (m ∷ ms) (f ∷ flags) kept e h =
    let (later, r) = select-some true (k + 1) ms flags (omega (arith, h)) in
    ground (arith, select-below (k + 1) k ms flags later r (omega arith))
select-shown k (suc i) (m ∷ ms) (f ∷ flags) kept e h =
    let (later, r) = select-some true (k + 1) ms flags (omega (arith, h)) in
    ground (arith, select-shown (k + 1) i ms flags later r (omega (arith, h)))

-- The sizes of the messages together.
abbrev pub octets : List (ℕ × Mail) → ℕ
octets [] = 0
octets ((k, m) ∷ ms) = m.size + octets ms

-- What a listing of a session has: the messages whose flag is set, by their numbers, as many as the
-- message count says, and the two answers that show them.
pub record Agrees {W : Type 0} (srv : Server W) (cmd : Bytes) (show : Mail → Bytes) (s : Session)
    : Type 0 where
  pub kept : List (ℕ × Mail)
  pub many : length kept ≡ s.msg_count
  pub numbers : (i : ℕ) → shown (1 + i) kept ≡ offered i s.messages s.retain
  pub stat_out :
      (stat_handler srv [] s).out
      ≡ s.out ++ (txt "+OK " ++ itoa s.msg_count ++ b' ' ∷ itoa (octets kept)) ∷ []
  pub list_out :
      (list_handler srv cmd show [] s).out
      ≡ s.out
        ++ (txt "+OK Listing " ++ itoa s.msg_count ++ txt " messages")
          ∷ map (λ e. itoa e.0 ++ b' ' ∷ show e.1) kept
        ++ (b'.' ∷ []) ∷ []

module _ {W : Type 0} (srv : Server W) (written : (n : ℕ) → srv.write_ok n ≡ true) where
  out-answer :
      (first last : Bytes) (lines : List Bytes) (s : Session)
      → (send srv last (send_all srv lines (send srv first s))).out
        ≡ s.out ++ first ∷ lines ++ last ∷ []
  out-answer first last lines s =
      out-send srv written last (send_all srv lines (send srv first s))
      ∙ ap (λ x. x ++ last ∷ [])
          (out-send_all srv written lines (send srv first s)
            ∙ ap (λ x. x ++ lines) (out-send srv written first s))
      ∙ ap (λ x. x ++ last ∷ []) (append_assoc s.out (first ∷ []) lines)

  -- Where no write fails, STAT, and LIST or UIDL without an argument, agree in a session that meets
  -- the invariant: both are about the messages whose flag is set, each under its number, and the
  -- number of them that both announce is the number of lines that LIST or UIDL sends before the dot.
  pub list_handler-Agrees :
      (cmd : Bytes) (show : Mail → Bytes) (s : Session) → IsCounted s → Agrees srv cmd show s
  unfolding stat_handler list_handler
  list_handler-Agrees cmd show s v =
      let (kept, e) = select-some true 1 s.messages s.retain v.paired in
      let many = length-select 1 s.messages s.retain kept e v.paired ∙ sym v.counted in
      record {
        kept = kept;
        many = many;
        numbers = λ i. select-shown 1 i s.messages s.retain kept e v.paired;
        stat_out =
            rw (e, stat_handler)
              (out-send srv written (txt "+OK " ++ two_numbers (length kept) (total_size kept)) s
                ∙ ap (λ n. s.out ++ (txt "+OK " ++ two_numbers n (total_size kept)) ∷ []) many);
        list_out = rw (e, list_handler) (out-answer (listing s) (b'.' ∷ []) (listed show kept) s);
      }

is_marked-set :
    (id : Bytes) (ms : List Mail) (flags : List Bool) (i : ℕ) (m : Mail)
    → get_elem? flags i ≡ some true
    → get_elem? ms i ≡ some m
    → is_marked id ms (set flags i false) ≡ (bytes_eq m.id id || is_marked id ms flags)
is_marked-set id [] flags i m f e = ground arith
is_marked-set id (n ∷ ms) [] i m f e = ground arith
is_marked-set id (n ∷ ms) (g ∷ flags) zero m f e = ground arith
is_marked-set id (n ∷ ms) (g ∷ flags) (suc i) m f e =
    ground (arith, is_marked-set id ms flags i m f e)

-- DELE of a message that is not marked, in a session whose writes may fail: the message's id is then
-- marked, with the ids that were, and no other id; and the messages and the user are as before.
pub dele_message-is_marked :
    {W : Type 0} (srv : Server W) (n : ℕ) (m : Mail) (id : Bytes) (s : Session)
    → retained s n ≡ some true
    → message_at s n ≡ some m
    → (is_marked id (dele_message srv n s).messages (dele_message srv n s).retain
        ≡ (bytes_eq m.id id || is_marked id s.messages s.retain))
      × ((dele_message srv n s).messages ≡ s.messages)
      × ((dele_message srv n s).user ≡ s.user)
unfolding dele_message
dele_message-is_marked srv zero m id s f e = cc
dele_message-is_marked srv (suc i) m id s f e =
    let msg = txt "+OK Deleted message " ++ itoa (suc i) in
    let marked = record s { retain = unretain (suc i) s.retain; msg_count = s.msg_count - 1 } in
    let (same_user, same_messages, same_retain) = send-keeps srv msg marked in
    rw (f, dele_message)
      (
        rw (same_messages, same_retain) (is_marked-set id s.messages s.retain i m f e),
        same_messages,
        same_user,
      )
