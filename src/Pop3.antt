-- ===== src/Pop3.antt =====
-- pkg/server/pop3/handler.go: the state of a session, what it takes from the server, and its replies.
pub mod Lines
pub mod Transaction
pub mod Loop
pub mod Memory
pub mod Framing
pub mod Invariant
pub mod Deletes
pub mod Unquit
pub mod Listing
use go_inbucket.Base.{
  ℕ, zero, suc, ◌+◌, Bool, true, false, Option, none, some, List, [], ◌∷◌, ◌++◌, replicate, length,
  get_elem?, if◌then◌else◌, Bytes, txt,
}
use go_inbucket.Config.{Pop3}
use go_inbucket.GoText.{Unicode}

pub data State : Type 0 where
  authorization transaction quit : State

-- What a session keeps of a message of the store. A store in memory holds the source in the message
-- itself, in `held`.
pub record Mail : Type 0 where
  pub id : Bytes
  pub size : ℕ
  pub held : Bytes

-- The server, over the state `W` of its store. `get_messages` and `remove_message` are the store's,
-- where `none` is an error and the error of a removal is only logged; `open_source` is `Source` of a
-- message of a mailbox. `write_ok n` says whether the n-th write to the connection succeeds,
-- `handshake` whether a TLS handshake does. `pid` and `now` are the numbers in the greeting.
pub record Server (W : Type 0) : Type 0 where
  pub config : Pop3
  pub unicode : Unicode
  pub get_messages : Bytes → W → W × Option (List Mail)
  pub remove_message : Bytes → Bytes → W → W
  pub open_source : Bytes → Mail → W → Option Bytes
  pub write_ok : ℕ → Bool
  pub handshake : W → Bool
  pub pid : ℕ
  pub now : ℕ

-- What outlives a session: the store, and `tlsState`, which is a field of the server.
pub record World (W : Type 0) : Type 0 where
  pub store : W
  pub tls : Bool

-- `out` is what the client has been sent, a line each; `writes` counts the attempts; `panicked` is
-- set where an index is out of range.
pub record Session : Type 0 where
  pub send_error : Bool
  pub state : State
  pub user : Bytes
  pub messages : List Mail
  pub retain : List Bool
  pub msg_count : ℕ
  pub writes : ℕ
  pub out : List Bytes
  pub panicked : Bool

unfoldable pub new_session : Session
new_session = record {
  send_error = false;
  state = authorization;
  user = [];
  messages = [];
  retain = [];
  msg_count = 0;
  writes = 0;
  out = [];
  panicked = false;
}

unfoldable pub send : {W : Type 0} → Server W → Bytes → Session → Session
send srv msg s =
    if srv.write_ok s.writes
    then record s { writes = s.writes + 1; out = s.out ++ msg ∷ [] }
    else record s { writes = s.writes + 1; send_error = true }

unfoldable pub send_all : {W : Type 0} → Server W → List Bytes → Session → Session
unfolding send
send_all srv [] s = s
send_all srv (msg ∷ msgs) s = send_all srv msgs (send srv msg s)

abbrev pub enter_state : State → Session → Session
enter_state state s = record s { state = state }

abbrev pub panic : Session → Session
panic s = record s { panicked = true }

unfoldable pub oo_seq : {W : Type 0} → Server W → Bytes → Session → Session
unfolding send txt
oo_seq srv cmd s = send srv (txt "-ERR Command " ++ cmd ++ txt " is out of sequence") s

abbrev pub retain_all : Session → Session
retain_all s = record s {
  retain = replicate (length s.messages) true;
  msg_count = length s.messages;
}

-- What `loadMailbox` keeps of the answer of the store; on an error it goes on with no message.
abbrev or_empty : Option (List Mail) → List Mail
or_empty none = []
or_empty (some ms) = ms

unfoldable pub load_mailbox : {W : Type 0} → Server W → Session × World W → Session × World W
load_mailbox srv (s, w) =
    let (store, found) = srv.get_messages s.user w.store in
    (retain_all (record s { messages = or_empty found }), record w { store = store })

-- `retain[i]`, for the message of number `n`.
abbrev pub retained : Session → ℕ → Option Bool
retained s zero = none
retained s (suc i) = get_elem? s.retain i
