-- ===== src/Pop3/Invariant/Handlers.antt =====
-- Each command of `transactionHandler` keeps the invariant, and answers.
use go_inbucket.Base.{
  ℕ, zero, suc, ◌-◌, ◌≤◌, ◌≡◌, refl, ◌∙◌, Bool, true, false, not, ◌||◌, some, List, [], ◌∷◌, ◌++◌,
  map, arith, Bytes, length, length-set, Bool-cases, Option-cases, inl, inr, txt,
}
use go_inbucket.GoText.Decimal.{itoa, parse_int, int32_limit}
use go_inbucket.Pop3.{quit, Mail, Server, World, Session, send, send_all, retain_all, retained}
use go_inbucket.Pop3.Invariant.{
  IsCounted, Since, Since-weaken, get_elem?-in_range, message_number-bounds, select-some, count-set,
  retain_all-Since, send-Since, send_all-Since, oo_seq-Since, enter_state-Since,
}
use go_inbucket.Pop3.Lines.{max_token, scan_lines, stuff, top_lines}
use go_inbucket.Pop3.Transaction.{
  Command, quit_session, stat, list, retr, dele, noop, rset, top, uidl, Number, bad, good,
  message_number, message_at, unretain, stat_handler, numbered, list_one, listing, listed,
  list_handler, dele_message, dele_handler, retr_message, send_end, send_message, send_message_top,
  retr_handler, top_message, top_handler, process_deletes, quit_handler, transaction_handler,
}

message_at-some :
    (s : Session) (n : ℕ) → 1 ≤ n → n ≤ length s.messages → (m : Mail) × (message_at s n ≡ some m)
message_at-some s zero lo hi = absurd (omega arith)
message_at-some s (suc i) lo hi = get_elem?-in_range s.messages i (omega (arith, hi))

retained-some :
    (s : Session) (n : ℕ)
    → IsCounted s
    → 1 ≤ n
    → n ≤ length s.messages
    → (f : Bool) × (retained s n ≡ some f)
retained-some s zero v lo hi = absurd (omega arith)
retained-some s (suc i) v lo hi = get_elem?-in_range s.retain i (omega (arith, hi, v.paired))

-- DELE of a message that is retained.
unretain-Since :
    (k n : ℕ) (s : Session)
    → retained s n ≡ some true
    → Since k s
    → Since k (record s { retain = unretain n s.retain; msg_count = s.msg_count - 1 })
unretain-Since k zero s r h = cc
unretain-Since k (suc i) s r h = record {
  valid = record {
    paired = length-set s.retain i false ∙ h.valid.paired;
    counted = omega (arith, h.valid.counted, count-set s.retain i r);
    calm = h.valid.calm;
  };
  tried = h.tried;
}

module _ {W : Type 0} (srv : Server W) where
  stat_handler-Since :
      (k : ℕ) (args : List Bytes) (s : Session)
      → Since k s
      → Since (suc k) (stat_handler srv args s)
  unfolding stat_handler
  stat_handler-Since k (a ∷ args) s h = send-Since srv k _ s h
  stat_handler-Since k [] s h =
      let (kept, e) = select-some true 1 s.messages s.retain h.valid.paired in
      rw (e, stat_handler) (send-Since srv k _ s h)

  numbered-Since :
      (k : ℕ) (cmd arg text : Bytes) (next : ℕ → Session) (s : Session)
      → Since k s
      → ((n : ℕ) → 1 ≤ n → n ≤ length s.messages → Since (suc k) (next n))
      → Since (suc k) (numbered srv cmd arg text next s)
  unfolding numbered
  numbered-Since k cmd arg text next s h taken =
      go (message_number cmd arg text (length s.messages)) refl
    where
      go :
          (r : Number)
          → message_number cmd arg text (length s.messages) ≡ r
          → Since (suc k) (numbered srv cmd arg text next s)
      go (bad reply) e = rw (e, numbered) (send-Since srv k reply s h)
      go (good n) e =
          let (lo, hi) = message_number-bounds cmd arg text (length s.messages) n e in
          rw (e, numbered) (taken n lo hi)

  list_one-Since :
      (k n : ℕ) (show : Mail → Bytes) (s : Session)
      → Since k s
      → 1 ≤ n
      → n ≤ length s.messages
      → Since (suc k) (list_one srv show n s)
  unfolding list_one
  list_one-Since k n show s h lo hi = go (retained-some s n h.valid lo hi)
    where
      go : (f : Bool) × (retained s n ≡ some f) → Since (suc k) (list_one srv show n s)
      go (false, e) = rw (e, list_one) (send-Since srv k _ s h)
      go (true, e) =
          let (m, found) = message_at-some s n lo hi in
          rw (e, list_one, found) (send-Since srv k _ s h)

  list_handler-Since :
      (k : ℕ) (cmd : Bytes) (show : Mail → Bytes) (args : List Bytes) (s : Session)
      → Since k s
      → Since (suc k) (list_handler srv cmd show args s)
  unfolding list_handler
  list_handler-Since k cmd show [] s h =
      let (kept, e) = select-some true 1 s.messages s.retain h.valid.paired in
      let s1 = send srv (listing s) s in
      let s2 = send_all srv (listed show kept) s1 in
      let all =
        send_all-Since srv (suc k) (listed show kept) s1 (send-Since srv k (listing s) s h) in
      let ended = send srv (b'.' ∷ []) s2 in
      let last : Since (suc (suc k)) ended = send-Since srv (suc k) (b'.' ∷ []) s2 all in
      rw (e, list_handler) (Since-weaken (suc k) (suc (suc k)) ended (omega arith) last)
  list_handler-Since k cmd show (text ∷ []) s h =
      numbered-Since k cmd (cmd ++ txt " argument") text (λ n. list_one srv show n s) s h
        (λ n lo hi. list_one-Since k n show s h lo hi)
  list_handler-Since k cmd show (a ∷ b ∷ args) s h = send-Since srv k _ s h

  dele_message-Since :
      (k n : ℕ) (s : Session)
      → Since k s
      → 1 ≤ n
      → n ≤ length s.messages
      → Since (suc k) (dele_message srv n s)
  unfolding dele_message
  dele_message-Since k n s h lo hi = go (retained-some s n h.valid lo hi)
    where
      go : (f : Bool) × (retained s n ≡ some f) → Since (suc k) (dele_message srv n s)
      go (false, e) = rw (e, dele_message) (send-Since srv k _ s h)
      go (true, e) =
          let marked = record s { retain = unretain n s.retain; msg_count = s.msg_count - 1 } in
          rw (e, dele_message) (send-Since srv k _ marked (unretain-Since k n s e h))

  dele_handler-Since :
      (k : ℕ) (args : List Bytes) (s : Session)
      → Since k s
      → Since (suc k) (dele_handler srv args s)
  unfolding dele_handler
  dele_handler-Since k [] s h = send-Since srv k _ s h
  dele_handler-Since k (text ∷ []) s h =
      numbered-Since k (txt "DELE") (txt "DELE argument") text (λ n. dele_message srv n s) s h
        (λ n lo hi. dele_message-Since k n s h lo hi)
  dele_handler-Since k (a ∷ b ∷ args) s h = send-Since srv k _ s h

  send_end-Since : (k : ℕ) (clean : Bool) (s : Session) → Since k s → Since k (send_end srv clean s)
  unfolding send_end
  send_end-Since k true s h =
      Since-weaken k (suc k) _ (omega arith) (send-Since srv k (b'.' ∷ []) s h)
  send_end-Since k false s h =
      let s' = send srv (b'.' ∷ []) s in
      let ended = send srv (txt "-ERR Failed to RETR that message, internal error") s' in
      Since-weaken k (suc (suc k)) ended (omega arith)
        (send-Since srv (suc k) _ s' (send-Since srv k (b'.' ∷ []) s h))

  -- The messages are sent behind a line that was sent already.
  send_message-Since :
      (k : ℕ) (m : Mail) (w : World W) (s : Session) → Since k s → Since k (send_message srv m w s)
  unfolding send_message
  send_message-Since k m w s h = elim (Option-cases (srv.open_source s.user m w.store)) [
    | inl lost ↦
        let refused = send srv (txt "-ERR Failed to RETR that message, internal error") s in
        rw (lost, send_message)
          (Since-weaken k (suc k) refused (omega arith) (send-Since srv k _ s h))
    | inr (source, opened) ↦
        let (lines, clean) = scan_lines max_token source in
        rw (opened, send_message)
          (send_end-Since k clean (send_all srv (map stuff lines) s)
            (send_all-Since srv k (map stuff lines) s h))
  ]

  send_message_top-Since :
      (k n : ℕ) (m : Mail) (w : World W) (s : Session)
      → Since k s
      → Since k (send_message_top srv n m w s)
  unfolding send_message_top
  send_message_top-Since k n m w s h = elim (Option-cases (srv.open_source s.user m w.store)) [
    | inl lost ↦
        let refused = send srv (txt "-ERR Failed to RETR that message, internal error") s in
        rw (lost, send_message_top)
          (Since-weaken k (suc k) refused (omega arith) (send-Since srv k _ s h))
    | inr (source, opened) ↦
        let (lines, clean) = scan_lines max_token source in
        let (sent, ended) = top_lines n false (map stuff lines) in
        rw (opened, send_message_top)
          (send_end-Since k (clean || not ended) (send_all srv sent s)
            (send_all-Since srv k sent s h))
  ]

  retr_handler-Since :
      (k : ℕ) (args : List Bytes) (w : World W) (s : Session)
      → Since k s
      → Since (suc k) (retr_handler srv args w s)
  unfolding retr_handler
  retr_handler-Since k [] w s h = send-Since srv k _ s h
  retr_handler-Since k (a ∷ b ∷ args) w s h = send-Since srv k _ s h
  retr_handler-Since k (text ∷ []) w s h =
      numbered-Since k (txt "RETR") (txt "RETR argument") text (λ n. retr_message srv n w s) s h
        (λ n lo hi.
          let (m, found) = message_at-some s n lo hi in
          let first = txt "+OK " ++ itoa m.size ++ txt " bytes follows" in
          unfold retr_message in
          rw (found, retr_message)
            (send_message-Since (suc k) m w (send srv first s) (send-Since srv k first s h)))

  top_message-Since :
      (k n : ℕ) (text : Bytes) (w : World W) (s : Session)
      → Since k s
      → 1 ≤ n
      → n ≤ length s.messages
      → Since (suc k) (top_message srv n text w s)
  unfolding top_message
  top_message-Since k n text w s h lo hi = elim (Option-cases (parse_int int32_limit text)) [
    | inl unread ↦ rw (unread, top_message) (send-Since srv k _ s h)
    | inr (count, read) ↦ elim (Bool-cases count.negative) [
      | inl negative ↦ rw (read, top_message, negative) (send-Since srv k _ s h)
      | inr natural ↦
          let (m, found) = message_at-some s n lo hi in
          let first = txt "+OK Top of message follows" in
          rw (read, top_message, natural, found)
            (send_message_top-Since (suc k) count.size m w (send srv first s)
              (send-Since srv k first s h))
    ]
  ]

  top_handler-Since :
      (k : ℕ) (args : List Bytes) (w : World W) (s : Session)
      → Since k s
      → Since (suc k) (top_handler srv args w s)
  unfolding top_handler
  top_handler-Since k [] w s h = send-Since srv k _ s h
  top_handler-Since k (a ∷ []) w s h = send-Since srv k _ s h
  top_handler-Since k (a ∷ b ∷ c ∷ args) w s h = send-Since srv k _ s h
  top_handler-Since k (text ∷ lines ∷ []) w s h =
      numbered-Since k (txt "TOP") (txt "TOP first argument") text
        (λ n. top_message srv n lines w s) s h (λ n lo hi. top_message-Since k n lines w s h lo hi)

  process_deletes-Since :
      (k : ℕ) (s : Session) (w : World W) → Since k s → Since k (process_deletes srv (s, w)).0
  unfolding process_deletes
  process_deletes-Since k s w h =
      let (marked, e) = select-some false 1 s.messages s.retain h.valid.paired in
      rw (e, process_deletes) h

  quit_handler-Since :
      (k : ℕ) (s : Session) (w : World W) → Since k s → Since (suc k) (quit_handler srv (s, w)).0
  unfolding quit_handler
  quit_handler-Since k s w h =
      let s' = send srv (txt "+OK We will process your deletes") s in
      let sent = send-Since srv k (txt "+OK We will process your deletes") s h in
      enter_state-Since (suc k) quit (process_deletes srv (s', w)).0
        (process_deletes-Since (suc k) s' w sent)

  pub transaction_handler-Since :
      (k : ℕ) (c : Command) (cmd : Bytes) (args : List Bytes) (s : Session) (w : World W)
      → Since k s
      → Since (suc k) (transaction_handler srv c cmd args (s, w)).0
  unfolding transaction_handler
  transaction_handler-Since k stat cmd args s w h = stat_handler-Since k args s h
  transaction_handler-Since k list cmd args s w h =
      list_handler-Since k (txt "LIST") (λ m. itoa m.size) args s h
  transaction_handler-Since k uidl cmd args s w h =
      list_handler-Since k (txt "UIDL") (λ m. m.id) args s h
  transaction_handler-Since k dele cmd args s w h = dele_handler-Since k args s h
  transaction_handler-Since k retr cmd args s w h = retr_handler-Since k args w s h
  transaction_handler-Since k top cmd args s w h = top_handler-Since k args w s h
  transaction_handler-Since k quit_session cmd args s w h = quit_handler-Since k s w h
  transaction_handler-Since k noop cmd args s w h = send-Since srv k _ s h
  transaction_handler-Since k rset cmd args s w h =
      send-Since srv k _ (retain_all s) (retain_all-Since k s h.valid.calm h.tried)
  transaction_handler-Since k _ cmd args s w h = oo_seq-Since srv k cmd s h
