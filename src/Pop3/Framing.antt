-- ===== src/Pop3/Framing.antt =====
-- What a client reads back of a message that `sendMessage` and `sendMessageTop` of
-- pkg/server/pop3/handler.go sent.
use go_inbucket.Base.{
  ℕ, zero, suc, ◌≡◌, refl, sym, ap, ◌∙◌, Bool, true, false, Option, none, some, List, [], ◌∷◌, ◌++◌,
  map, append_assoc, append-nil, arith, ◌==◌, if◌then◌else◌, Bytes, bytes_eq, take, txt, Bool-cases,
  inl, inr,
}
use go_inbucket.Pop3.{Mail, Server, World, Session, send, send_all}
use go_inbucket.Pop3.Lines.{max_token, scan_lines, stuff, top_lines}
use go_inbucket.Pop3.Transaction.{send_end, send_message, send_message_top}

-- A line of an answer, without the dot that was added.
unfoldable pub unstuff : Bytes → Bytes
unstuff [] = []
unstuff (c ∷ l) = if c == b'.' then l else c ∷ l

-- A client's reading of a multi-line answer (RFC 1939): the lines before the one with a single dot,
-- and what comes behind it.
unfoldable pub unframe : List Bytes → Option (List Bytes × List Bytes)
unfolding unstuff bytes_eq
unframe [] = none
unframe (l ∷ ls) =
    let later : Option (List Bytes × List Bytes) = elim (unframe ls) [
      | none ↦ none
      | some (lines, rest) ↦ some (unstuff l ∷ lines, rest)
    ] in
    if bytes_eq l (b'.' ∷ []) then some ([], ls) else later

stuff-ne_end : (l : Bytes) → bytes_eq (stuff l) (b'.' ∷ []) ≡ false
unfolding stuff bytes_eq
stuff-ne_end [] = refl
stuff-ne_end (c ∷ l) = ground arith

unstuff-stuff : (l : Bytes) → unstuff (stuff l) ≡ l
unfolding stuff unstuff
unstuff-stuff [] = refl
unstuff-stuff (c ∷ l) = ground arith

unframe-stuff :
    (lines rest : List Bytes) → unframe (map stuff lines ++ (b'.' ∷ []) ∷ rest) ≡ some (lines, rest)
unfolding unframe
unframe-stuff [] rest = unfold bytes_eq in refl
unframe-stuff (l ∷ lines) rest = rw (stuff-ne_end l, unframe-stuff lines rest, unstuff-stuff l)

-- A message: its header, up to the first empty line and with it, and its body.
unfoldable pub split_header : List Bytes → List Bytes × List Bytes
unfolding bytes_eq
split_header [] = ([], [])
split_header (l ∷ ls) =
    let (header, body) = split_header ls in
    if bytes_eq l [] then (l ∷ [], ls) else (l ∷ header, body)

take-nil {ℓ} : {A : Type ℓ} (n : ℕ) → take {A = A} n [] ≡ []
take-nil zero = refl
take-nil (suc n) = refl

top_lines-body : (n : ℕ) (ls : List Bytes) → (top_lines n true ls).0 ≡ take n ls
unfolding top_lines
top_lines-body zero [] = refl
top_lines-body (suc n) [] = refl
top_lines-body zero (l ∷ ls) = refl
top_lines-body (suc n) (l ∷ ls) = ap (◌∷◌ l) (top_lines-body n ls)

top_lines-cons :
    (n : ℕ) (l : Bytes) (ls : List Bytes)
    → (top_lines n false (l ∷ ls)).0 ≡ l ∷ (top_lines n (bytes_eq l []) ls).0
unfolding top_lines
top_lines-cons zero l ls = refl
top_lines-cons (suc n) l ls = refl

top_lines-take :
    (n : ℕ) (ls : List Bytes)
    → (top_lines n false ls).0 ≡ (split_header ls).0 ++ take n (split_header ls).1
unfolding split_header
top_lines-take zero [] = unfold top_lines in refl
top_lines-take (suc n) [] = unfold top_lines in refl
top_lines-take n (l ∷ ls) = elim (Bool-cases (bytes_eq l [])) [
  | inl empty ↦ top_lines-cons n l ls ∙ rw empty (ap (◌∷◌ l) (top_lines-body n ls))
  | inr text ↦ top_lines-cons n l ls ∙ rw text (ap (◌∷◌ l) (top_lines-take n ls))
]

map-take {ℓ} :
    {A : Type ℓ} (f : A → A) (n : ℕ) (xs : List A) → take n (map f xs) ≡ map f (take n xs)
map-take f zero xs = refl
map-take f (suc n) [] = refl
map-take f (suc n) (x ∷ xs) = ap (◌∷◌ (f x)) (map-take f n xs)

map-append {ℓ} : {A : Type ℓ} (f : A → A) (xs ys : List A) → map f (xs ++ ys) ≡ map f xs ++ map f ys
map-append f [] ys = refl
map-append f (x ∷ xs) ys = ap (◌∷◌ (f x)) (map-append f xs ys)

stuff-nil : (l : Bytes) → bytes_eq (stuff l) [] ≡ bytes_eq l []
unfolding stuff bytes_eq
stuff-nil [] = refl
stuff-nil (c ∷ l) = ground arith

split_header-stuff :
    (ls : List Bytes)
    → ((split_header (map stuff ls)).0 ≡ map stuff (split_header ls).0)
      × ((split_header (map stuff ls)).1 ≡ map stuff (split_header ls).1)
unfolding split_header
split_header-stuff [] = (refl, refl)
split_header-stuff (l ∷ ls) = elim (Bool-cases (bytes_eq l [])) [
  | inl empty ↦ rw (stuff-nil l, empty) (refl, refl)
  | inr text ↦
      rw (stuff-nil l, text)
        (ap (◌∷◌ (stuff l)) (split_header-stuff ls).0, (split_header-stuff ls).1)
]

-- The lines that TOP is to show: the header, and the first lines of the body.
abbrev pub top_of : ℕ → List Bytes → List Bytes
top_of n ls = (split_header ls).0 ++ take n (split_header ls).1

top_lines-stuff :
    (n : ℕ) (ls : List Bytes) → (top_lines n false (map stuff ls)).0 ≡ map stuff (top_of n ls)
top_lines-stuff n ls =
    top_lines-take n (map stuff ls)
    ∙ rw
        ((split_header-stuff ls).0, (split_header-stuff ls).1, map-take stuff n (split_header ls).1)
        (sym (map-append stuff (split_header ls).0 (take n (split_header ls).1)))

-- What follows the end of a message: a second answer, if its source could not be read to the end.
abbrev pub after_end : Bool → List Bytes
after_end clean = if clean then [] else txt "-ERR Failed to RETR that message, internal error" ∷ []

-- What was sent after `before`, as the client reads it.
pub record Reads (before : List Bytes) (s' : Session) (lines rest : List Bytes) : Type 0 where
  pub sent : List Bytes
  pub appended : s'.out ≡ before ++ sent
  pub read : unframe sent ≡ some (lines, rest)

module _ {W : Type 0} (srv : Server W) (written : (n : ℕ) → srv.write_ok n ≡ true) where
  pub out-send : (msg : Bytes) (s : Session) → (send srv msg s).out ≡ s.out ++ msg ∷ []
  unfolding send
  out-send msg s = rw (written s.writes)

  pub out-send_all : (msgs : List Bytes) (s : Session) → (send_all srv msgs s).out ≡ s.out ++ msgs
  unfolding send_all
  out-send_all [] s = sym (append-nil s.out)
  out-send_all (msg ∷ msgs) s =
      out-send_all msgs (send srv msg s)
      ∙ ap (λ x. x ++ msgs) (out-send msg s)
      ∙ append_assoc s.out (msg ∷ []) msgs

  out-send_end :
      (clean : Bool) (s : Session)
      → (send_end srv clean s).out ≡ s.out ++ (b'.' ∷ []) ∷ after_end clean
  unfolding send_end
  out-send_end true s = out-send (b'.' ∷ []) s
  out-send_end false s =
      out-send _ (send srv (b'.' ∷ []) s)
      ∙ ap (λ x. x ++ after_end false) (out-send (b'.' ∷ []) s)
      ∙ append_assoc s.out ((b'.' ∷ []) ∷ []) (after_end false)

  framed :
      (lines : List Bytes) (clean : Bool) (s : Session)
      → Reads s.out (send_end srv clean (send_all srv (map stuff lines) s)) lines (after_end clean)
  framed lines clean s = record {
    sent = map stuff lines ++ (b'.' ∷ []) ∷ after_end clean;
    appended =
        out-send_end clean (send_all srv (map stuff lines) s)
        ∙ ap (λ x. x ++ (b'.' ∷ []) ∷ after_end clean) (out-send_all (map stuff lines) s)
        ∙ append_assoc s.out (map stuff lines) ((b'.' ∷ []) ∷ after_end clean);
    read = unframe-stuff lines (after_end clean);
  }

  -- While all writes succeed, a client reads back from `sendMessage` the lines of a message whose source
  -- can be opened, up to one
  -- that is too long, whatever dots they begin with; nothing comes behind the final dot, unless there
  -- was such a line, and then an error.
  pub send_message-Reads :
      (m : Mail) (w : World W) (s : Session) (source : Bytes)
      → srv.open_source s.user m w.store ≡ some source
      → Reads s.out
          (send_message srv m w s)
          (scan_lines max_token source).0
          (after_end (scan_lines max_token source).1)
  unfolding send_message
  send_message-Reads m w s source opened =
      rw (opened, send_message)
        (framed (scan_lines max_token source).0 (scan_lines max_token source).1 s)

  -- While all writes succeed, a client reads back from `sendMessageTop` the header of a message whose
  -- source can be opened and
  -- the first lines of its body, as many as it asked for, if no line of the message is too long.
  pub send_message_top-Reads :
      (n : ℕ) (m : Mail) (w : World W) (s : Session) (source : Bytes)
      → srv.open_source s.user m w.store ≡ some source
      → (scan_lines max_token source).1 ≡ true
      → Reads s.out (send_message_top srv n m w s) (top_of n (scan_lines max_token source).0) []
  unfolding send_message_top
  send_message_top-Reads n m w s source opened clean =
      let lines = (scan_lines max_token source).0 in
      rw (opened, send_message_top, clean, top_lines-stuff n lines) (framed (top_of n lines) true s)
