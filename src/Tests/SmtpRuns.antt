-- ===== src/Tests/SmtpRuns.antt =====
-- A whole session of pkg/server/smtp with a server that keeps what it is given.
use go_inbucket.Base.{
  ℕ, ◌≡◌, ◌≢◌, refl, arith, Bool, true, false, Option, none, some, List, [], ◌∷◌, Bytes, txt,
  bytes_eq, All, length, if◌then◌else◌,
}
use go_inbucket.Config.{local_naming, Smtp}
use go_inbucket.GoText.{Unicode}
use go_inbucket.GoText.Decimal.{itoa}
use go_inbucket.Policy.{Origin, Recipient}
use go_inbucket.Policy.Address.{is_special, is_name_byte}
use go_inbucket.Smtp.{Server}
use go_inbucket.Smtp.Invariant.{IsSession}
use go_inbucket.Smtp.Invariant.Deliveries.{start_session-IsSession, start_session-deliveries}
use go_inbucket.Smtp.Parse.{find_all}
use go_inbucket.Smtp.Parse.Fuel.{find_all-fuel}
use go_inbucket.Smtp.Loop.{start_session}
use go_inbucket.Smtp.Transaction.{Read, got, eof}

abbrev pub settings : Smtp
settings = record {
  domain = txt "inbucket";
  max_recipients = 2;
  max_message_bytes = 100;
  default_accept = true;
  accept_domains = [];
  reject_domains = txt "bad.org" ∷ [];
  default_store = true;
  store_domains = [];
  discard_domains = [];
  reject_origin_domains = [];
  tls_enabled = false;
  force_tls = false;
}

-- What the store was given.
abbrev Log : Type 0
Log = List (Option Origin × List Recipient)

abbrev record_delivery : Option Origin → List Recipient → Bytes → Bytes → Log → Log × Bool
record_delivery from to header block log = ((from, to) ∷ log, true)

-- The only sender that the pattern takes here is the empty one.
abbrev pub empty_sender : Bytes → Option (Bytes × Bytes)
empty_sender arg = if bytes_eq arg (txt "FROM:<>") then some ([], []) else none

abbrev pub ascii_only : Unicode
ascii_only = record { lower = λ s. s; upper = λ s. s; runes = λ s. s }

abbrev server : Server Log
server = record {
  platform = record { unicode = ascii_only; parse_ip = λ s. false };
  root = record { mailbox_naming = local_naming; smtp = settings };
  has_tls_config = false;
  write_ok = λ n. true;
  from_regex = empty_sender;
  before_mail_from = λ e. none;
  before_rcpt_to = λ e. none;
  deliver = record_delivery;
}

-- The last recipient is beyond the limit, and the one before it in a rejected domain.
abbrev pub lines : List Read
lines =
    got (txt "HELO me")
    ∷ got (txt "DATA")
    ∷ got (txt "MAIL FROM:<>")
    ∷ got (txt "RCPT TO:<a@x.org>")
    ∷ got (txt "rcpt to:<b@x.org>")
    ∷ got (txt "RCPT TO:<c@bad.org>")
    ∷ got (txt "RCPT TO:<c@x.org>")
    ∷ got (txt "DATA")
    ∷ got (txt "Subject: a")
    ∷ got (txt "QUIT")
    ∷ eof
    ∷ []

abbrev recipients_of : Log → List ℕ
recipients_of [] = []
recipients_of ((o, rs) ∷ log) = length rs ∷ recipients_of log

session_runs :
    (recipients_of (start_session server (txt "host") lines []).1 ≡ 2 ∷ [])
    × ((start_session server (txt "host") lines []).0.out
        ≡ txt "220 inbucket Inbucket SMTP ready"
          ∷ txt "250 Great, let's get this show on the road"
          ∷ txt "503 Command DATA is out of sequence"
          ∷ txt "250 Roger, accepting mail from <>"
          ∷ txt "250 I'll make sure <a@x.org> gets this"
          ∷ txt "250 I'll make sure <b@x.org> gets this"
          ∷ txt "550 Relay not permitted"
          ∷ txt "552 Limit of 2 recipients exceeded"
          ∷ txt "354 Start mail input; end with <CRLF>.<CRLF>"
          ∷ txt "250 Mail accepted for delivery"
          ∷ txt "221 Goodnight and good luck"
          ∷ [])
unfolding start_session txt is_special is_name_byte itoa bytes_eq
session_runs = (refl, refl)

-- RSET before HELO leads to READY, where MAIL is taken.
reset_first :
    (start_session server (txt "host") (got (txt "RSET") ∷ got (txt "MAIL FROM:<>") ∷ []) []).0.out
    ≡ txt "220 inbucket Inbucket SMTP ready"
      ∷ txt "250 Session reset"
      ∷ txt "250 Roger, accepting mail from <>"
      ∷ []
unfolding start_session txt is_special is_name_byte itoa bytes_eq
reset_first = refl

start_session-IsSession_example : IsSession server (start_session server (txt "host") lines []).0
start_session-IsSession_example = start_session-IsSession server (txt "host") lines []

abbrev IsAddressed : Option Origin × List Recipient → Type 0
IsAddressed (o, rs) = (rs ≢ []) × (o ≢ none)

start_session-deliveries_example : All IsAddressed (start_session server (txt "host") lines []).1
start_session-deliveries_example =
    start_session-deliveries server (All IsAddressed)
      (λ o rs header block log some_one within admitted kept. ((some_one, λ e. cc), kept))
      (txt "host") lines [] tt

abbrev params : Bytes
params = txt " BODY=8BITMIME SIZE=12"

parameters_found : find_all 30 params ≡ find_all 22 params
unfolding txt
parameters_found = find_all-fuel 30 22 params (omega arith) (omega arith)
