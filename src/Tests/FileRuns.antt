-- ===== src/Tests/FileRuns.antt =====
-- Runs of the store of pkg/storage/file.
use go_inbucket.Base.{
  true, ◌⊎◌, inl, inr, take, sym, ◌∙◌, ◌==◌, if◌then◌else◌, ℕ, ◌≡◌, refl, Option, none, some, List,
  [], ◌∷◌, Bytes, bytes_eq, txt,
}
use go_inbucket.Manager.{IsMessageStore}
use go_inbucket.Manager.Disk.{AllKept, disk_store, disk_store-IsMessageStore}
use go_inbucket.Storage.Dict.{lookup}
use go_inbucket.Storage.File.{Entry, Outcome, worked, failed, Host, Disk, dir_of, take_entry}
use go_inbucket.Storage.File.Calls.{Delivered, Gone, add_message-Delivered, remove-Gone}
use go_inbucket.Storage.File.Frame.Calls.{run-Same}
use go_inbucket.Storage.File.Index.{index_for}
use go_inbucket.Storage.File.Refines.{AllBecome, run-AllBecome}
use go_inbucket.Storage.Message.{Draft}
use go_inbucket.Storage.File.Store.{Call, entry_for, add_message, get_messages, remove, run}
use go_inbucket.Tests.Codec.{encode_index, decode_index, decode_index-encode_index}
use go_inbucket.Tests.StorageRuns.{draft, body, fred}

abbrev host_where : (ℕ → Outcome) → Host
host_where outcome = record {
  hash = λ name. name;
  encode = encode_index;
  decode = decode_index;
  outcome = outcome;
  now = λ n. txt "20240101T000000";
  message_cap = 2;
}

abbrev host : Host
host = host_where (λ n. worked)

abbrev empty : Disk
empty = record { dirs = []; ops = 0; count = 9999; deleted = [] }

abbrev one_entry : List Entry
one_entry = entry_for draft body (txt "20240101T000000-9999") ∷ []

abbrev one_message : Disk
one_message = (add_message host draft empty).0

add_message-Delivered_example :
    Delivered host
      (λ n. refl)
      decode_index-encode_index
      draft
      body
      []
      (add_message host draft empty)
unfolding dir_of
add_message-Delivered_example =
    add_message-Delivered host (λ n. refl) decode_index-encode_index draft body [] empty refl refl

taken_from_disk :
    Gone host
      (λ n. refl)
      decode_index-encode_index
      fred
      (entry_for draft body (txt "20240101T000000-9999"))
      []
      one_message
      (remove host fred (txt "20240101T000000-9999") one_message)
unfolding dir_of take_entry bytes_eq txt add_message
taken_from_disk =
    remove-Gone host (λ n. refl) decode_index-encode_index fred (txt "20240101T000000-9999")
      (entry_for draft body (txt "20240101T000000-9999")) one_entry [] one_message refl refl

-- Every operation on files fails.
abbrev broken : Host
broken = host_where (λ n. failed none)

abbrev some_calls : List Call
some_calls = Call.add draft ∷ Call.drop fred (txt "1") ∷ Call.seen fred (txt "1") ∷ []

run-Same_example :
    lookup (txt "joe") (run broken some_calls empty).dirs ≡ lookup (txt "joe") empty.dirs
unfolding bytes_eq txt
run-Same_example = run-Same broken (txt "joe") some_calls empty (refl, (refl, (refl, tt)))

-- Two deliveries, a third that is over the cap, and a removal.
abbrev kept_ids : Option (List Entry) → List Bytes
kept_ids none = []
kept_ids (some []) = []
kept_ids (some (e ∷ es)) = e.id ∷ kept_ids (some es)

file_runs :
    (let d = run host (Call.add draft ∷ Call.add draft ∷ Call.add draft ∷ []) empty in
      kept_ids (get_messages host fred d).1)
    ≡ txt "20240101T000000-0000" ∷ txt "20240101T000000-0001" ∷ []
unfolding run get_messages bytes_eq txt
file_runs = refl

-- The hash of a name is its first byte; the two names in use have different hashes, not so all names.
abbrev first_byte : Host
first_byte = record host { hash = take 1 }

abbrev Either : Bytes → Type 0
Either name = (name ≡ fred) ⊎ (name ≡ txt "joe")

either_distinct :
    (a b : Bytes) → Either a → Either b → bytes_eq (take 1 a) (take 1 b) ≡ true → a ≡ b
unfolding txt bytes_eq
either_distinct a b (inl p) (inl q) h = p ∙ sym q
either_distinct a b (inr p) (inr q) h = p ∙ sym q
either_distinct a b (inl p) (inr q) h =
    let no : bytes_eq (take 1 fred) (take 1 (txt "joe")) ≡ true = rw (p, q) at h in cc
either_distinct a b (inr p) (inl q) h =
    let no : bytes_eq (take 1 (txt "joe")) (take 1 fred) ≡ true = rw (p, q) at h in cc

disk_store-IsMessageStore_example :
    IsMessageStore
      (disk_store first_byte)
      Either
      (AllKept first_byte (λ n. refl) decode_index-encode_index Either either_distinct)
disk_store-IsMessageStore_example =
    disk_store-IsMessageStore first_byte (λ n. refl) decode_index-encode_index Either
      either_distinct

abbrev joe_draft : Draft
joe_draft = record draft { mailbox = txt "joe" }

abbrev mixed_calls : List Call
mixed_calls = Call.add draft ∷ Call.add joe_draft ∷ Call.wipe (txt "joe") ∷ Call.list fred ∷ []

run-AllBecome_example :
    (es : List Entry) × AllBecome first_byte fred mixed_calls [] es
    × ((dir_of (take 1 fred) (run first_byte mixed_calls empty)).index
        ≡ index_for first_byte fred es)
    × ((get_messages first_byte fred (run first_byte mixed_calls empty)).1 ≡ some es)
unfolding dir_of bytes_eq txt
run-AllBecome_example =
    run-AllBecome first_byte (λ n. refl) decode_index-encode_index fred mixed_calls [] empty
      ((λ h. h), ((λ h. refl), ((λ h. refl), ((λ h. h), tt)))) refl

-- The n-th operation on files fails.
abbrev failing_at : ℕ → Host
failing_at n = host_where (λ k. if k == n then failed none else worked)

-- The index cannot be looked at in the second delivery: that of the first message is overwritten.
lost_index_runs :
    (let h = failing_at 5 in
      kept_ids (get_messages h fred (run h (Call.add draft ∷ Call.add draft ∷ []) empty)).1)
    ≡ txt "20240101T000000-0000" ∷ []
unfolding run get_messages bytes_eq txt
lost_index_runs = refl

-- The third message cannot be written: the first had to make room for it all the same.
lost_room_runs :
    (let h = failing_at 17 in
      kept_ids
        (get_messages h fred
          (run h (Call.add draft ∷ Call.add draft ∷ Call.add draft ∷ []) empty)).1)
    ≡ txt "20240101T000000-0000" ∷ []
unfolding run get_messages bytes_eq txt
lost_room_runs = refl
