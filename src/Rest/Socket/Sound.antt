-- ===== src/Rest/Socket/Sound.antt =====
-- What a listener holds after a call by the hub.
use go_inbucket.Base.{
  ◌≤◌, ◌<◌, ◌≡◌, inl, inr, refl, ap, sym, ◌∙◌, arith, Bool, true, false, Option, none, some, List,
  [], ◌∷◌, ◌++◌, map, leb, if◌then◌else◌, Bytes, length, length-append, append_assoc, append-nil,
  All, All-append, Option-cases, Bool-cases, bytes_eq, txt, ◌||◌,
}
use mathlib.Core.Path.{subst}
use go_inbucket.Msghub.{Told, received, deleted}
use go_inbucket.Rest.{JsonHeader, metadata_to_header}
use go_inbucket.Rest.Socket.{
  Version, v1, v2, Entry, Frame, header_frame, event_frame, close_frame, Listener, Outcome,
  accepted, blocked, panicked, is_ignored, entry_for, stored_entry, deleted_entry, send, tell,
  frame_of,
}
use go_inbucket.Storage.Message.{Metadata}

-- Whether a listener that watches `watched` is concerned with a mailbox: it is the one, or all are watched.
abbrev pub concerns : Bytes → Bytes → Bool
concerns watched mailbox = bytes_eq watched [] || bytes_eq watched mailbox

-- What a client is to read of an event: version 1 the header of a message that was stored, version 2 also
-- the kind of the event, and of a deletion the mailbox and the ID.
abbrev pub frame_for : Version → Told → List Frame
frame_for v1 (received m) = header_frame (metadata_to_header m) ∷ []
frame_for v1 (deleted mailbox id) = []
frame_for v2 (received m) =
    event_frame (record {
      variant = txt "message-stored";
      identifier = none;
      header = some (metadata_to_header m);
    })
    ∷ []
frame_for v2 (deleted mailbox id) =
    event_frame
      (record { variant = txt "message-deleted"; identifier = some (mailbox, id); header = none })
    ∷ []

abbrev pub mailbox_told : Told → Bytes
mailbox_told (received m) = m.mailbox
mailbox_told (deleted mailbox id) = mailbox

-- The frames for what a listener was told.
abbrev pub frames : Version → Bytes → List Told → List Frame
frames v watched [] = []
frames v watched (t ∷ ts) =
    (if concerns watched (mailbox_told t) then frame_for v t else []) ++ frames v watched ts

abbrev frame_list : Option Entry → List Frame
frame_list none = []
frame_list (some e) = frame_of e ∷ []

unless-frame_list :
    (watched mailbox : Bytes) (o : Option Entry) (fs : List Frame)
    → frame_list o ≡ fs
    → frame_list (if is_ignored watched mailbox then none else o)
      ≡ (if concerns watched mailbox then fs else [])
unless-frame_list watched mailbox o fs e = elim (Bool-cases (bytes_eq watched [])) [
  | inl all ↦ rw all e
  | inr one ↦ elim (Bool-cases (bytes_eq watched mailbox)) [
    | inl this ↦ rw (one, this) e
    | inr other ↦ rw (one, other) refl
  ]
]

entry_for-frame_list :
    (v : Version) (watched : Bytes) (t : Told)
    → frame_list (entry_for v watched t)
      ≡ (if concerns watched (mailbox_told t) then frame_for v t else [])
unfolding entry_for
entry_for-frame_list v1 watched (received m) =
    unless-frame_list watched m.mailbox (some (stored_entry v1 m)) _ refl
entry_for-frame_list v2 watched (received m) =
    unless-frame_list watched m.mailbox (some (stored_entry v2 m)) _ refl
entry_for-frame_list v1 watched (deleted mailbox id) =
    unless-frame_list watched mailbox (deleted_entry v1 mailbox id) _ refl
entry_for-frame_list v2 watched (deleted mailbox id) =
    unless-frame_list watched mailbox (deleted_entry v2 mailbox id) _ refl

-- The mailbox that a frame is about.
abbrev header_mailbox : Option JsonHeader → List Bytes
header_mailbox none = []
header_mailbox (some h) = h.mailbox ∷ []

abbrev named_mailbox : Option (Bytes × Bytes) → List Bytes
named_mailbox none = []
named_mailbox (some (mailbox, id)) = mailbox ∷ []

abbrev pub mailboxes_of : Frame → List Bytes
mailboxes_of (header_frame h) = h.mailbox ∷ []
mailboxes_of (event_frame e) = header_mailbox e.header ++ named_mailbox e.identifier
mailboxes_of close_frame = []

abbrev pub IsWatched : Bytes → Frame → Type 0
IsWatched watched f = All (λ b. concerns watched b ≡ true) (mailboxes_of f)

frames-append :
    (v : Version) (watched : Bytes) (ts us : List Told)
    → frames v watched (ts ++ us) ≡ frames v watched ts ++ frames v watched us
frames-append v watched [] us = refl
frames-append v watched (t ∷ ts) us =
    let now = if concerns watched (mailbox_told t) then frame_for v t else [] in
    ap (λ fs. now ++ fs) (frames-append v watched ts us)
    ∙ sym (append_assoc now (frames v watched ts) (frames v watched us))

-- One more event brings the frame of its entry, if it has one.
frames-snoc :
    (v : Version) (watched : Bytes) (ts : List Told) (t : Told) (o : Option Entry)
    → entry_for v watched t ≡ o
    → frames v watched (ts ++ t ∷ []) ≡ frames v watched ts ++ frame_list o
frames-snoc v watched ts t o e =
    frames-append v watched ts (t ∷ [])
    ∙ ap (λ fs. frames v watched ts ++ fs)
        (append-nil (if concerns watched (mailbox_told t) then frame_for v t else [])
          ∙ sym (entry_for-frame_list v watched t)
          ∙ ap frame_list e)

ignored-concerns :
    (watched mailbox : Bytes) → is_ignored watched mailbox ≡ false → concerns watched mailbox ≡ true
ignored-concerns watched mailbox h = ground (arith, h)

map-snoc :
    (q : List Entry) (e : Entry) → map frame_of (q ++ e ∷ []) ≡ map frame_of q ++ frame_of e ∷ []
map-snoc [] e = refl
map-snoc (x ∷ q) e = ap (◌∷◌ (frame_of x)) (map-snoc q e)

stored-IsWatched :
    (v : Version) (watched : Bytes) (m : Metadata)
    → is_ignored watched m.mailbox ≡ false
    → IsWatched watched (frame_of (stored_entry v m))
unfolding metadata_to_header
stored-IsWatched v1 watched m p = (ignored-concerns watched m.mailbox p, tt)
stored-IsWatched v2 watched m p = (ignored-concerns watched m.mailbox p, tt)

abbrev EachWatched : Bytes → Option Entry → Type 0
EachWatched watched none = Unit
EachWatched watched (some e) = IsWatched watched (frame_of e)

deleted-EachWatched :
    (v : Version) (watched mailbox id : Bytes)
    → is_ignored watched mailbox ≡ false
    → EachWatched watched (deleted_entry v mailbox id)
deleted-EachWatched v1 watched mailbox id p = tt
deleted-EachWatched v2 watched mailbox id p = (ignored-concerns watched mailbox p, tt)

unless-EachWatched :
    (watched : Bytes) (b : Bool) (o : Option Entry)
    → (b ≡ false → EachWatched watched o)
    → EachWatched watched (if b then none else o)
unless-EachWatched watched true o h = tt
unless-EachWatched watched false o h = h refl

entry_for-EachWatched :
    (v : Version) (watched : Bytes) (t : Told) → EachWatched watched (entry_for v watched t)
unfolding entry_for
entry_for-EachWatched v watched (received m) =
    unless-EachWatched watched (is_ignored watched m.mailbox) (some (stored_entry v m))
      (stored-IsWatched v watched m)
entry_for-EachWatched v watched (deleted mailbox id) =
    unless-EachWatched watched (is_ignored watched mailbox) (deleted_entry v mailbox id)
      (deleted-EachWatched v watched mailbox id)

entry_for-IsWatched :
    (v : Version) (watched : Bytes) (t : Told) (e : Entry)
    → entry_for v watched t ≡ some e
    → IsWatched watched (frame_of e)
entry_for-IsWatched v watched t e h =
    subst (EachWatched watched) (h) (entry_for-EachWatched v watched t)

-- While both goroutines are in their loops, what was sent and what waits is what the listener was
-- told of the mailbox it watches. `origin` is the version and the mailbox it began with.
pub record IsSound (origin : Version × Bytes) (l : Listener) (told : List Told) (sent : List Frame)
    (writing reading : Bool) : Type 0 where
  pub kept : (l.version, l.mailbox) ≡ origin
  pub room : length l.queue ≤ 100
  pub waits : All (IsWatched l.mailbox) (map frame_of l.queue)
  pub watched : All (IsWatched l.mailbox) sent
  pub ordered :
      writing ≡ true
      → reading ≡ true
      → (l.closed ≡ false) × (sent ++ map frame_of l.queue ≡ frames l.version l.mailbox told)

module _ (origin : Version × Bytes) where
  -- What holds of the listener after a call, if the call returned.
  abbrev pub Keeps : Outcome → List Told → List Frame → Bool → Bool → Type 0
  Keeps (accepted l) told sent writing reading = IsSound origin l told sent writing reading
  Keeps blocked told sent writing reading = Unit
  Keeps panicked told sent writing reading = Unit

  ignored-IsSound :
      (t : Told) (l : Listener) (told : List Told) (sent : List Frame) (writing reading : Bool)
      → entry_for l.version l.mailbox t ≡ none
      → IsSound origin l told sent writing reading
      → IsSound origin l (told ++ t ∷ []) sent writing reading
  ignored-IsSound t l told sent writing reading e h = record {
    kept = h.kept;
    room = h.room;
    waits = h.waits;
    watched = h.watched;
    ordered = λ w r.
        let (open', same) = h.ordered w r in
        (
          open',
          same
              ∙ sym (
                  frames-snoc l.version l.mailbox told t none e
                  ∙ append-nil (frames l.version l.mailbox told)),
        );
  }

  queued-IsSound :
      (t : Told) (e : Entry) (l : Listener) (told : List Told) (sent : List Frame)
      (writing reading : Bool)
      → entry_for l.version l.mailbox t ≡ some e
      → length l.queue < 100
      → IsSound origin l told sent writing reading
      → IsSound origin
          (record l { queue = l.queue ++ e ∷ [] })
          (told ++ t ∷ [])
          sent
          writing
          reading
  queued-IsSound t e l told sent writing reading put small h = record {
    kept = h.kept;
    room = omega (arith, small, length-append l.queue (e ∷ []));
    waits = rw (map-snoc l.queue e) (
        All-append (IsWatched l.mailbox) (map frame_of l.queue) (frame_of e ∷ []) h.waits
          (entry_for-IsWatched l.version l.mailbox t e put, tt));
    watched = h.watched;
    ordered = λ w r.
        let (open', same) = h.ordered w r in
        (
          open',
          ap (◌++◌ sent) (map-snoc l.queue e)
              ∙ sym (append_assoc sent (map frame_of l.queue) (frame_of e ∷ []))
              ∙ ap (λ x. x ++ frame_of e ∷ []) same
              ∙ sym (frames-snoc l.version l.mailbox told t (some e) put),
        );
  }

  send-Keeps :
      (t : Told) (e : Entry) (l : Listener) (told : List Told) (sent : List Frame)
      (writing reading : Bool)
      → entry_for l.version l.mailbox t ≡ some e
      → IsSound origin l told sent writing reading
      → Keeps (send e l) (told ++ t ∷ []) sent writing reading
  unfolding send
  send-Keeps t e l told sent writing reading put h =
      go l.closed (leb 100 (length l.queue))
        (λ small. queued-IsSound t e l told sent writing reading put (ground arith) h)
    where
      go :
          (shut full : Bool)
          → (full ≡ false
              → IsSound origin
                  (record l { queue = l.queue ++ e ∷ [] })
                  (told ++ t ∷ [])
                  sent
                  writing
                  reading)
          → Keeps
              (if shut
                then panicked
                else if full
                then blocked
                else accepted (record l { queue = l.queue ++ e ∷ [] }))
              (told ++ t ∷ [])
              sent
              writing
              reading
      go true full k = tt
      go false true k = tt
      go false false k = k refl

  pub tell-Keeps :
      (t : Told) (l : Listener) (told : List Told) (sent : List Frame) (writing reading : Bool)
      → IsSound origin l told sent writing reading
      → Keeps (tell t l) (told ++ t ∷ []) sent writing reading
  unfolding tell
  tell-Keeps t l told sent writing reading h =
      elim (Option-cases (entry_for l.version l.mailbox t)) [
        | inl e ↦ rw (e, tell) (ignored-IsSound t l told sent writing reading e h)
        | inr (x, e) ↦ rw (e, tell) (send-Keeps t x l told sent writing reading e h)
      ]
