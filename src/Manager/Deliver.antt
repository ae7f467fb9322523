-- ===== src/Manager/Deliver.antt =====
-- What a delivery does to a store that keeps its contract.
use go_inbucket.Base.{
  ◌≡◌, txt, refl, Bool, true, false, Option, none, some, List, [], ◌∷◌, ◌++◌, map, Bytes, bytes_eq,
  All,
}
use go_inbucket.Manager.{MessageStore, Header, Manager, World, sender_of}
use go_inbucket.Policy.{Origin}
use go_inbucket.Smtp.{origin_address}
use go_inbucket.StringUtil.{Address}
use go_inbucket.Storage.Message.{Message, Metadata}

-- A delivery to `names`: it meets no error and no nil sender, sends an event for each name in turn,
-- leaves the message of each as the newest of its mailbox, and changes no mailbox but these. `text` is
-- what is stored for a name.
pub record IsDelivered {S : Type 0} (store : MessageStore S) (Served : Bytes → Type 0)
    (text : Bytes → Bytes) (names : List Bytes) (w : World S) (result : World S × Bool)
    : Type 0 where
  pub done : result.1 ≡ true
  pub events : List Metadata
  pub sent : result.0.stored ≡ w.stored ++ events
  pub named : map (λ e. e.mailbox) events ≡ names
  pub newest :
      (before : List Bytes) (name : Bytes) (after : List Bytes)
      → names ≡ before ++ name ∷ after
      → All (λ n. bytes_eq n name ≡ false) after
      → (older : List Message) × (n : Message) × (store.contents name result.0.store
          ≡ older ++ n ∷ [])
        × (n.source ≡ text name)
  pub others :
      (other : Bytes)
      → Served other
      → All (λ n. bytes_eq n other ≡ false) names
      → store.contents other result.0.store ≡ store.contents other w.store
  pub panicked : result.0.panicked ≡ w.panicked

pub sender_of-some : (h : Header) (o : Origin) → (a : Address) × (sender_of h (some o) ≡ some a)
unfolding sender_of
sender_of-some h o = go h.from refl
  where
    go :
        (from : Option (List Address))
        → h.from ≡ from
        → (a : Address) × (sender_of h (some o) ≡ some a)
    go none e = (origin_address o, rw (e, sender_of) refl)
    go (some []) e = (origin_address o, rw (e, sender_of) refl)
    go (some (a ∷ more)) e = (a, rw (e, sender_of) refl)

-- What is stored for a mailbox: the path back, when and for whom the message came, and what was sent.
abbrev pub stored_text : Origin → Bytes → Bytes → Bytes → Bytes → Bytes
stored_text o recvd stamp source mailbox =
    (txt "Return-Path: <" ++ o.address ++ b'>' ∷ b'\r' ∷ b'\n' ∷ [])
    ++ (recvd ++ txt "  for <" ++ mailbox ++ txt ">; " ++ stamp ++ b'\r' ∷ b'\n' ∷ [])
    ++ source
