-- ===== src/Pop3/Transaction.antt =====
-- `transactionHandler` of pkg/server/pop3/handler.go, with a function for each command.
use go_inbucket.Base.{
  ℕ, zero, suc, ◌+◌, ◌-◌, Bool, true, false, not, ◌||◌, Option, none, some, List, [], ◌∷◌, ◌++◌,
  map, ltb, ◌==◌, if◌then◌else◌, Bytes, length, set, get_elem?, txt,
}
use go_inbucket.GoText.Decimal.{itoa, parse_int, int32_limit}
use go_inbucket.Pop3.{
  quit, Mail, Server, World, Session, send, send_all, enter_state, panic, oo_seq, retain_all,
  retained,
}
use go_inbucket.Pop3.Lines.{max_token, scan_lines, stuff, top_lines}

-- The keys of the table `commands`, without CAPA, which comes before it.
pub data Command : Type 0 where
  quit_session stat list retr dele noop rset top uidl user pass apop stls : Command

-- An argument that is the number of a message, or the reply that refuses it.
pub data Number : Type 0 where
  bad : Bytes → Number
  good : ℕ → Number

-- The three tests of such an argument; `arg` is what the replies call it.
unfoldable pub message_number : Bytes → Bytes → Bytes → ℕ → Number
unfolding parse_int txt
message_number cmd arg text count = elim (parse_int int32_limit text) [
  | none ↦ bad (txt "-ERR " ++ cmd ++ txt " command requires an integer argument")
  | some n ↦
      if n.negative || n.size == 0
      then bad (txt "-ERR " ++ arg ++ txt " must be greater than 0")
      else if ltb count n.size
      then bad (txt "-ERR " ++ arg ++ txt " must not exceed the number of messages")
      else good n.size
]

-- The messages whose `retain` flag is `b`, with their numbers; `none` is an index out of range.
unfoldable pub select : Bool → ℕ → List Mail → List Bool → Option (List (ℕ × Mail))
select b n [] flags = some []
select b n (m ∷ ms) [] = none
select b n (m ∷ ms) (f ∷ flags) = elim (select b (n + 1) ms flags) [
  | none ↦ none
  | some later ↦ some (if (if b then f else not f) then (n, m) ∷ later else later)
]

abbrev pub total_size : List (ℕ × Mail) → ℕ
total_size [] = 0
total_size ((n, m) ∷ ms) = m.size + total_size ms

-- `messages[n-1]`, for a number from 1 on.
abbrev pub message_at : Session → ℕ → Option Mail
message_at s zero = none
message_at s (suc i) = get_elem? s.messages i

-- `retain[n-1] = false`.
abbrev pub unretain : ℕ → List Bool → List Bool
unretain zero flags = flags
unretain (suc i) flags = set flags i false

abbrev pub two_numbers : ℕ → ℕ → Bytes
two_numbers a b = itoa a ++ b' ' ∷ itoa b

abbrev pub listing : Session → Bytes
listing s = txt "+OK Listing " ++ itoa s.msg_count ++ txt " messages"

abbrev pub listed : (Mail → Bytes) → List (ℕ × Mail) → List Bytes
listed show = map (λ e. itoa e.0 ++ b' ' ∷ show e.1)

module _ {W : Type 0} (srv : Server W) where
  unfoldable pub stat_handler : List Bytes → Session → Session
  unfolding send select txt
  stat_handler (a ∷ args) s = send srv (txt "-ERR STAT command must have no arguments") s
  stat_handler [] s = elim (select true 1 s.messages s.retain) [
    | none ↦ panic s
    | some kept ↦ send srv (txt "+OK " ++ two_numbers (length kept) (total_size kept)) s
  ]

  -- An answer to the argument `text`, which is to be the number of a message.
  unfoldable pub numbered : Bytes → Bytes → Bytes → (ℕ → Session) → Session → Session
  unfolding send message_number
  numbered cmd arg text next s = elim (message_number cmd arg text (length s.messages)) [
    | bad reply ↦ send srv reply s
    | good n ↦ next n
  ]

  -- LIST and UIDL differ in what they show of a message.
  unfoldable pub list_one : (Mail → Bytes) → ℕ → Session → Session
  unfolding send txt itoa
  list_one show n s = elim (retained s n) [
    | none ↦ panic s
    | some false ↦ send srv (txt "-ERR You deleted message " ++ itoa n) s
    | some true ↦ elim (message_at s n) [
      | none ↦ panic s
      | some m ↦ send srv (txt "+OK " ++ itoa n ++ b' ' ∷ show m) s
    ]
  ]

  unfoldable pub list_handler : Bytes → (Mail → Bytes) → List Bytes → Session → Session
  unfolding send send_all select numbered list_one txt itoa
  list_handler cmd show [] s = elim (select true 1 s.messages s.retain) [
    | none ↦ panic (send srv (listing s) s)
    | some kept ↦ send srv (b'.' ∷ []) (send_all srv (listed show kept) (send srv (listing s) s))
  ]
  list_handler cmd show (text ∷ []) s =
      numbered cmd (cmd ++ txt " argument") text (λ n. list_one show n s) s
  list_handler cmd show (a ∷ b ∷ args) s =
      send srv (txt "-ERR " ++ cmd ++ txt " command must have zero or one argument") s

  unfoldable pub dele_message : ℕ → Session → Session
  unfolding send txt itoa
  dele_message n s = elim (retained s n) [
    | none ↦ panic s
    | some false ↦ send srv (txt "-ERR Message " ++ itoa n ++ txt " has already been deleted") s
    | some true ↦
        send srv (txt "+OK Deleted message " ++ itoa n)
          (record s { retain = unretain n s.retain; msg_count = s.msg_count - 1 })
  ]

  unfoldable pub dele_handler : List Bytes → Session → Session
  unfolding send numbered dele_message txt
  dele_handler (text ∷ []) s =
      numbered (txt "DELE") (txt "DELE argument") text (λ n. dele_message n s) s
  dele_handler _ s = send srv (txt "-ERR DELE command requires a single argument") s

  -- The end of `sendMessage` and of `sendMessageTop`; `clean` says whether `Err` is nil.
  unfoldable pub send_end : Bool → Session → Session
  unfolding send txt
  send_end clean s =
      let s' = send srv (b'.' ∷ []) s in
      if clean then s' else send srv (txt "-ERR Failed to RETR that message, internal error") s'

  unfoldable pub send_message : Mail → World W → Session → Session
  unfolding send send_all send_end scan_lines stuff txt
  send_message m w s = elim (srv.open_source s.user m w.store) [
    | none ↦ send srv (txt "-ERR Failed to RETR that message, internal error") s
    | some source ↦
        let (lines, clean) = scan_lines max_token source in
        send_end clean (send_all srv (map stuff lines) s)
  ]

  unfoldable pub send_message_top : ℕ → Mail → World W → Session → Session
  unfolding send send_all send_end scan_lines stuff top_lines txt
  send_message_top count m w s = elim (srv.open_source s.user m w.store) [
    | none ↦ send srv (txt "-ERR Failed to RETR that message, internal error") s
    | some source ↦
        let (lines, clean) = scan_lines max_token source in
        let (sent, ended) = top_lines count false (map stuff lines) in
        send_end (clean || not ended) (send_all srv sent s)
  ]

  unfoldable pub retr_message : ℕ → World W → Session → Session
  unfolding send send_message txt itoa
  retr_message n w s = elim (message_at s n) [
    | none ↦ panic s
    | some m ↦ send_message m w (send srv (txt "+OK " ++ itoa m.size ++ txt " bytes follows") s)
  ]

  unfoldable pub retr_handler : List Bytes → World W → Session → Session
  unfolding send numbered retr_message txt
  retr_handler (text ∷ []) w s =
      numbered (txt "RETR") (txt "RETR argument") text (λ n. retr_message n w s) s
  retr_handler _ w s = send srv (txt "-ERR RETR command requires a single argument") s

  -- TOP for the message of number `n`, with the text of its second argument.
  unfoldable pub top_message : ℕ → Bytes → World W → Session → Session
  unfolding send send_message_top parse_int txt
  top_message n text w s = elim (parse_int int32_limit text) [
    | none ↦ send srv (txt "-ERR TOP command requires an integer argument") s
    | some count ↦
        if count.negative
        then send srv (txt "-ERR TOP second argument must be non-negative") s
        else elim (message_at s n) [
          | none ↦ panic (send srv (txt "+OK Top of message follows") s)
          | some m ↦ send_message_top count.size m w (send srv (txt "+OK Top of message follows") s)
        ]
  ]

  unfoldable pub top_handler : List Bytes → World W → Session → Session
  unfolding send numbered top_message txt
  top_handler (text ∷ lines ∷ []) w s =
      numbered (txt "TOP") (txt "TOP first argument") text (λ n. top_message n lines w s) s
  top_handler _ w s = send srv (txt "-ERR TOP command requires two arguments") s

  -- The store without the messages given.
  unfoldable pub remove_all : Bytes → List (ℕ × Mail) → W → W
  remove_all mailbox [] w = w
  remove_all mailbox ((n, m) ∷ ms) w = remove_all mailbox ms (srv.remove_message mailbox m.id w)

  unfoldable pub process_deletes : Session × World W → Session × World W
  unfolding select remove_all
  process_deletes (s, w) = elim (select false 1 s.messages s.retain) [
    | none ↦ (panic s, w)
    | some marked ↦ (s, record w { store = remove_all s.user marked w.store })
  ]

  unfoldable pub quit_handler : Session × World W → Session × World W
  unfolding send process_deletes txt
  quit_handler (s, w) =
      let (s', w') = process_deletes (send srv (txt "+OK We will process your deletes") s, w) in
      (enter_state quit s', w')

  unfoldable pub transaction_handler :
      Command → Bytes → List Bytes → Session × World W → Session × World W
  unfolding stat_handler list_handler dele_handler retr_handler top_handler quit_handler send oo_seq
      txt itoa
  transaction_handler stat cmd args (s, w) = (stat_handler args s, w)
  transaction_handler list cmd args (s, w) =
      (list_handler (txt "LIST") (λ m. itoa m.size) args s, w)
  transaction_handler uidl cmd args (s, w) = (list_handler (txt "UIDL") (λ m. m.id) args s, w)
  transaction_handler dele cmd args (s, w) = (dele_handler args s, w)
  transaction_handler retr cmd args (s, w) = (retr_handler args w s, w)
  transaction_handler top cmd args (s, w) = (top_handler args w s, w)
  transaction_handler quit_session cmd args sw = quit_handler sw
  transaction_handler noop cmd args (s, w) =
      (send srv (txt "+OK I have successfully done nothing") s, w)
  transaction_handler rset cmd args (s, w) = (send srv (txt "+OK Session reset") (retain_all s), w)
  transaction_handler _ cmd args (s, w) = (oo_seq srv cmd s, w)
