-- ===== src/Manager/Reading/Memory.antt =====
-- The memory store as the manager reads it: no call of it returns an error.
use go_inbucket.Base.{Option, none, some, map, Bytes}
use go_inbucket.Config.{Root}
use go_inbucket.Manager.Reading.{Envelope, Stored, ContentStore, Reader}
use go_inbucket.Policy.{Platform}
use go_inbucket.Storage.Mem.{
  Store, get_messages, get_message, mark_seen, remove_message, purge_messages,
}
use go_inbucket.Storage.Message.{Message, make_metadata}

abbrev pub stored : Message → Stored
stored m = record { meta = make_metadata m; source = some m.source }

abbrev pub stored_if : Option Message → Option Stored
stored_if none = none
stored_if (some m) = some (stored m)

-- The memory store without a limit on its bytes.
abbrev pub memory_contents : ContentStore Store
memory_contents = record {
  get_messages = λ name s. ((get_messages name s).0, (map stored (get_messages name s).1, none));
  get_message =
      λ name id s. ((get_message name id s).0, (stored_if (get_message name id s).1, none));
  mark_seen = λ name id s. (mark_seen name id s, none);
  purge_messages = λ name s. ((purge_messages name s).0, none);
  remove_message = λ name id s. ((remove_message name id s).0, none);
}

abbrev pub memory_reader : (Bytes → Option Envelope) → Platform → Root → Reader Store
memory_reader read_envelope platform root = record {
  store = memory_contents;
  read_envelope = read_envelope;
  platform = platform;
  root = root;
}
