-- ===== src/Smtp.antt =====
-- pkg/server/smtp/handler.go: the state of a session, what it takes from the server, and its replies.
pub mod Parse
pub mod Handler
pub mod Transaction
pub mod Loop
pub mod Invariant
use go_inbucket.Base.{
  ℕ, suc, ◌+◌, Bool, true, false, Option, none, some, List, [], ◌∷◌, ◌++◌, map, ltb, if◌then◌else◌,
  Bytes, txt,
}
use go_inbucket.Config.{Root}
use go_inbucket.GoText.Decimal.{itoa}
use go_inbucket.Policy.{Platform, Origin, Recipient}
use go_inbucket.StringUtil.{Address}

-- DATA is `data_input`, since `data` is a word of this language.
pub data State : Type 0 where
  greet ready login password mail data_input quit : State

-- `SMTPSession` and `SMTPResponse` of pkg/extension/event/events.go.
pub record ExtSession : Type 0 where
  pub from : Option Address
  pub to : List Address
  pub remote_addr : Bytes

pub data Action : Type 0 where
  defer allow deny : Action

pub record ExtResponse : Type 0 where
  pub action : Action
  pub error_code : ℕ
  pub error_msg : Bytes

-- The server and the world around a session, over the state `W` of the message store.
-- `write_ok n` says whether the n-th write to the connection succeeds; `from_regex` is the match of
-- `fromRegex`, its two groups; the two events are `Emit` of the brokers; `deliver` is
-- `manager.Deliver`, which returns the new store and whether there was no error.
pub record Server (W : Type 0) : Type 0 where
  pub platform : Platform
  pub root : Root
  pub has_tls_config : Bool
  pub write_ok : ℕ → Bool
  pub from_regex : Bytes → Option (Bytes × Bytes)
  pub before_mail_from : ExtSession → Option ExtResponse
  pub before_rcpt_to : ExtSession → Option ExtResponse
  pub deliver : Option Origin → List Recipient → Bytes → Bytes → W → W × Bool

-- `out` is what the client has been sent, a line each; `writes` counts the attempts.
pub record Session : Type 0 where
  pub state : State
  pub remote_domain : Bytes
  pub remote_host : Bytes
  pub send_error : Bool
  pub from : Option Origin
  pub recipients : List Recipient
  pub tls : Bool
  pub writes : ℕ
  pub out : List Bytes

unfoldable pub new_session : {W : Type 0} → Server W → Bytes → Session
new_session srv host = record {
  state = greet;
  remote_domain = [];
  remote_host = host;
  send_error = false;
  from = none;
  recipients = [];
  tls = srv.root.smtp.force_tls;
  writes = 0;
  out = [];
}

unfoldable pub send : {W : Type 0} → Server W → Bytes → Session → Session
send srv msg s =
    if srv.write_ok s.writes
    then record s { writes = s.writes + 1; out = s.out ++ msg ∷ [] }
    else record s { writes = s.writes + 1; send_error = true }

abbrev pub enter_state : State → Session → Session
enter_state state s = record s { state = state }

abbrev pub reset : Session → Session
reset s = record s { state = ready; from = none; recipients = [] }

unfoldable pub oo_seq : {W : Type 0} → Server W → Bytes → Session → Session
unfolding send txt
oo_seq srv cmd s = send srv (txt "503 Command " ++ cmd ++ txt " is out of sequence") s

abbrev pub origin_address : Origin → Address
origin_address o = record { name = []; address = o.address }

abbrev pub recipient_address : Recipient → Address
recipient_address r = record { name = []; address = r.address }

abbrev from_address : Option Origin → Option Address
from_address none = none
from_address (some o) = some (origin_address o)

-- `extSession`.
unfoldable pub ext_session : Session → ExtSession
ext_session s = record {
  from = from_address s.from;
  to = map recipient_address s.recipients;
  remote_addr = s.remote_host;
}

-- `%03d`, for a code that is not negative.
unfoldable pub three_digits : ℕ → Bytes
unfolding itoa
three_digits n = (if ltb n 10 then txt "00" else if ltb n 100 then txt "0" else []) ++ itoa n
