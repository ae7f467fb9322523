-- ===== src/Tests/ManagerRuns.antt =====
-- Deliveries of pkg/message to the memory store, on concrete messages.
use go_inbucket.Base.{◌≡◌, refl, true, false, none, some, List, [], ◌∷◌, Bytes, txt, bytes_eq, map}
use go_inbucket.Config.{local_naming}
use go_inbucket.Manager.{Header, Manager, World, deliver}
use go_inbucket.Manager.Memory.{memory_store}
use go_inbucket.Manager.Session.{with_manager, start_session-panicked}
use go_inbucket.Policy.{Origin, Recipient}
use go_inbucket.Smtp.{Server}
use go_inbucket.Smtp.Loop.{start_session}
use go_inbucket.Storage.Mem.{Store, add_message}
use go_inbucket.Storage.Mem.Valid.{empty_store}
use go_inbucket.Tests.SmtpRuns.{settings, ascii_only, empty_sender, lines}

abbrev header : Header
header = record { from = none; to = some []; subject = txt "a" }

-- The second recipient's domain is discarded.
abbrev manager : Manager Store
manager = record {
  platform = record { unicode = ascii_only; parse_ip = λ s. false };
  root = record {
    mailbox_naming = local_naming;
    smtp = record settings { discard_domains = txt "bin.org" ∷ [] };
  };
  store = memory_store;
  decode = λ source. some header;
  before_stored = λ inbound. none;
  now = 7;
  stamp = txt "now";
}

abbrev origin : Origin
origin = record { address = []; local_part = []; domain = [] }

abbrev recipient : Bytes → Bytes → Recipient
recipient name domain = record {
  address = name;
  local_part = name;
  domain = domain;
  mailbox = name;
}

abbrev recipients : List Recipient
recipients = recipient (txt "a") (txt "x.org") ∷ recipient (txt "b") (txt "bin.org") ∷ []

abbrev world : World Store
world = record { store = empty_store 0; stored = []; panicked = false }

-- One event, for the recipient whose domain is stored.
delivered :
    map
      (λ e. e.mailbox)
      (deliver manager
        (some origin)
        recipients
        (txt "Received: x")
        (txt "Subject: a")
        world).0.stored
    ≡ txt "a" ∷ []
unfolding deliver bytes_eq add_message
delivered = refl

abbrev server : Server (World Store)
server = record {
  platform = manager.platform;
  root = manager.root;
  has_tls_config = false;
  write_ok = λ n. true;
  from_regex = empty_sender;
  before_mail_from = λ e. none;
  before_rcpt_to = λ e. none;
  deliver = deliver manager;
}

start_session-panicked_example :
    (start_session (with_manager manager server) (txt "host") lines world).1.panicked ≡ false
start_session-panicked_example = start_session-panicked manager server (txt "host") lines world refl
