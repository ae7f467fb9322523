-- ===== src/Rest/Socket.antt =====
-- pkg/rest/socketv1_controller.go and socketv2_controller.go: a listener of the hub that sends what it is
-- told over a websocket. Its two goroutines, the hub, and those who use the hub take steps in any
-- order. The hub is the one of pkg/msghub/hub.go as this listener meets it, with the operations that
-- wait in its channel.
pub mod Sound
pub mod Turns
pub mod Closing
pub mod Invariant
pub mod Operations
pub mod Registration
pub mod Leak
pub mod Stuck
use go_inbucket.Base.{
  ℕ, ◌+◌, ◌-◌, ◌<◌, ◌≤◌, ◌≡◌, ◌||◌, Bool, true, false, not, ◌&&◌, Option, none, some, List, [], ◌∷◌,
  ◌++◌, leb, if◌then◌else◌, Bytes, bytes_eq, txt, length,
}
use go_inbucket.Msghub.{Told, received, deleted, entries, clear_entry}
use go_inbucket.Rest.{JsonHeader, metadata_to_header}
use go_inbucket.Storage.Message.{Metadata}

-- Which of the two controllers it is.
pub data Version : Type 0 where
  v1 : Version
  v2 : Version

-- `JSONMonitorEventV2`; the identifier is a mailbox and an id.
pub record MonitorEvent : Type 0 where
  pub variant : Bytes
  pub identifier : Option (Bytes × Bytes)
  pub header : Option JsonHeader

-- What the channel of a listener holds.
pub data Entry : Type 0 where
  metadata_entry : Metadata → Entry
  event_entry : MonitorEvent → Entry

-- What is written to the socket, but for the pings.
pub data Frame : Type 0 where
  header_frame : JsonHeader → Frame
  event_frame : MonitorEvent → Frame
  close_frame : Frame

-- `msgListenerV1` and `msgListenerV2`.
pub record Listener : Type 0 where
  pub version : Version
  pub mailbox : Bytes
  pub queue : List Entry
  pub closed : Bool

-- What can come of a call of the listener by the hub.
pub data Outcome : Type 0 where
  accepted : Listener → Outcome
  blocked : Outcome
  panicked : Outcome

abbrev pub is_ignored : Bytes → Bytes → Bool
is_ignored watched mailbox = not (bytes_eq watched []) && not (bytes_eq watched mailbox)

abbrev pub stored_entry : Version → Metadata → Entry
stored_entry v1 m = metadata_entry m
stored_entry v2 m = event_entry (record {
  variant = txt "message-stored";
  identifier = none;
  header = some (metadata_to_header m);
})

abbrev pub deleted_entry : Version → Bytes → Bytes → Option Entry
deleted_entry v1 mailbox id = none
deleted_entry v2 mailbox id = some (
    event_entry
      (record { variant = txt "message-deleted"; identifier = some (mailbox, id); header = none }))

-- What `Receive` and `Delete` put into the channel, if anything.
unfoldable pub entry_for : Version → Bytes → Told → Option Entry
entry_for v watched (received m) =
    if is_ignored watched m.mailbox then none else some (stored_entry v m)
entry_for v watched (deleted mailbox id) =
    if is_ignored watched mailbox then none else deleted_entry v mailbox id

abbrev pub capacity : ℕ
capacity = 100

-- The send to the channel.
unfoldable pub send : Entry → Listener → Outcome
send e l =
    if l.closed
    then panicked
    else if leb capacity (length l.queue)
    then blocked
    else accepted (record l { queue = l.queue ++ e ∷ [] })

-- `Receive` and `Delete`.
unfoldable pub tell : Told → Listener → Outcome
unfolding entry_for send
tell t l = elim (entry_for l.version l.mailbox t) [ none ↦ accepted l | some e ↦ send e l ]

-- An operation in the hub's channel. Only this listener adds or removes itself. `playback` is an addition
-- that has begun, with the messages of the history that are still to be played.
pub data Op : Type 0 where
  dispatch : Metadata → Op
  delete : Bytes → Bytes → Op
  add : Op
  playback : List Metadata → Op
  remove : Op

-- `told` is what the hub told the listener without a panic; `sent` is what was written to the socket.
-- `writing` and `reading` say whether `WSWriter` and `WSReader` are still in their loops. `removing` of them
-- are in `Close` before the call of `RemoveListener`, `closing` between that call and `close(ml.c)`;
-- `closed_twice` says whether `close` panicked for a channel that was closed before.
pub record World : Type 0 where
  pub history : List (Option Metadata)
  pub ops : List Op
  pub registered : Bool
  pub listener : Listener
  pub told : List Told
  pub sent : List Frame
  pub writing : Bool
  pub reading : Bool
  pub removing : ℕ
  pub closing : ℕ
  pub closed_twice : Bool

abbrev pub new_listener : Version → Bytes → Listener
new_listener v mailbox = record { version = v; mailbox = mailbox; queue = []; closed = false }

-- `newMsgListener`, and the start of the two goroutines.
unfoldable pub connect : Version → Bytes → List (Option Metadata) → List Op → World
connect v mailbox history ops = record {
  history = history;
  ops = ops ++ add ∷ [];
  registered = false;
  listener = new_listener v mailbox;
  told = [];
  sent = [];
  writing = true;
  reading = true;
  removing = 0;
  closing = 0;
  closed_twice = false;
}

-- The hub tells the listener; `none` if it waits for room. `runOp` recovers from a panic.
unfoldable pub relay : Told → World → Option World
unfolding tell
relay t w = elim (tell t w.listener) [
  | accepted l ↦ some (record w { listener = l; told = w.told ++ t ∷ [] })
  | blocked ↦ none
  | panicked ↦ some w
]

-- The playback goes on with a message, and when there is none left the listener is registered.
unfoldable pub play : List Metadata → World → Option World
unfolding tell
play [] w = some (record w { registered = true })
play (m ∷ ms) w = elim (tell (received m) w.listener) [
  | accepted l ↦
      some (record w { ops = playback ms ∷ w.ops; listener = l; told = w.told ++ received m ∷ [] })
  | blocked ↦ none
  | panicked ↦ some w
]

abbrev pub relay_if : Told → World → Option World
relay_if t w = if w.registered then relay t w else some w

unfoldable pub run_op : Op → World → Option World
unfolding relay play clear_entry
run_op (dispatch m) w = elim w.history [
  | [] ↦ some w
  | v ∷ rest ↦ relay_if (received m) (record w { history = rest ++ some m ∷ [] })
]
run_op (delete mailbox id) w = elim w.history [
  | [] ↦ some w
  | v ∷ rest ↦
      relay_if (deleted mailbox id) (record w { history = clear_entry mailbox id w.history })
]
run_op add w = some (record w { ops = playback (entries w.history) ∷ w.ops })
run_op (playback ms) w = play ms w
run_op remove w = some (record w { registered = false })

-- One turn of the hub: `none` if it has nothing to do, or waits.
unfoldable pub hub_turn : World → Option World
unfolding run_op
hub_turn w = elim w.ops [ [] ↦ none | o ∷ ops ↦ run_op o (record w { ops = ops }) ]

-- The `select` of `Close`: a receive from the channel that succeeds is taken for a closed channel.
unfoldable pub close : World → World
close w =
    let l = w.listener in
    elim l.queue [
      | e ∷ q ↦ record w { listener = record l { queue = q } }
      | [] ↦ if l.closed then w else record w { removing = w.removing + 1 }
    ]

abbrev pub frame_of : Entry → Frame
frame_of (metadata_entry m) = header_frame (metadata_to_header m)
frame_of (event_entry e) = event_frame e

-- The loop of `WSWriter` ends, and `Close` runs.
abbrev pub end_writer : World → World
end_writer w = close (record w { writing = false })

-- `WSWriter` takes an entry from the channel, or sees it closed; the Boolean says whether the write
-- succeeds. `none` if it has nothing to take.
unfoldable pub write_turn : Bool → World → Option World
unfolding close
write_turn success w =
    let l = w.listener in
    elim l.queue [
      | e ∷ q ↦
          let w' : World = record w { listener = record l { queue = q } } in
          some (if success then record w' { sent = w.sent ++ frame_of e ∷ [] } else end_writer w')
      | [] ↦
          if l.closed
          then some (end_writer (record w { sent = w.sent ++ close_frame ∷ [] }))
          else none
    ]

-- `WSReader` meets an error.
abbrev pub hang_up : World → World
hang_up w = close (record w { reading = false })

-- The call of `RemoveListener` in `Close`.
unfoldable pub remove_listener : World → World
remove_listener w = record w {
  ops = w.ops ++ remove ∷ [];
  removing = w.removing - 1;
  closing = w.closing + 1;
}

-- `close(ml.c)`.
unfoldable pub close_channel : World → World
close_channel w = record w {
  listener = record w.listener { closed = true };
  closing = w.closing - 1;
  closed_twice = w.closed_twice || w.listener.closed;
}

-- The channel of the hub has 100 places, and the hub holds one operation besides.
abbrev pub HasRoom : World → Type 0
HasRoom w = length w.ops ≤ 100

-- One step, of anyone.
pub data Step (w : World) : World → Type 0 where
  post_dispatch : (m : Metadata) → HasRoom w → Step w (record w { ops = w.ops ++ dispatch m ∷ [] })
  post_delete :
      (mailbox id : Bytes) → HasRoom w → Step w (record w { ops = w.ops ++ delete mailbox id ∷ [] })
  hub_step : (w' : World) → hub_turn w ≡ some w' → Step w w'
  write_step :
      (success : Bool) (w' : World) → w.writing ≡ true → write_turn success w ≡ some w' → Step w w'
  ping_fails : w.writing ≡ true → Step w (end_writer w)
  hang_up_step : w.reading ≡ true → Step w (hang_up w)
  remove_step : 0 < w.removing → HasRoom w → Step w (remove_listener w)
  close_step : 0 < w.closing → Step w (close_channel w)

pub data Steps (w : World) : World → Type 0 where
  here : Steps w w
  then_step : {u v : World} → Steps w u → Step u v → Steps w v
