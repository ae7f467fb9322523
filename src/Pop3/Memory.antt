-- ===== src/Pop3/Memory.antt =====
-- A POP3 server over the memory store.
use go_inbucket.Base.{ℕ, Bool, some, map}
use go_inbucket.Config.{Pop3}
use go_inbucket.GoText.{Unicode}
use go_inbucket.Pop3.{Mail, Server}
use go_inbucket.Storage.Mem.{Store, get_messages, remove_message}
use go_inbucket.Storage.Message.{Message, size}

abbrev pub mail_of : Message → Mail
mail_of m = record { id = m.id; size = size m; held = m.source }

abbrev pub memory_server : Pop3 → Unicode → (ℕ → Bool) → (Store → Bool) → ℕ → ℕ → Server Store
memory_server config unicode write_ok handshake pid now = record {
  config = config;
  unicode = unicode;
  get_messages = λ name s. ((get_messages name s).0, some (map mail_of (get_messages name s).1));
  remove_message = λ name id s. (remove_message name id s).0;
  open_source = λ name m s. some m.held;
  write_ok = write_ok;
  handshake = handshake;
  pid = pid;
  now = now;
}
