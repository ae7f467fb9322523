-- ===== src/Config.antt =====
-- pkg/config/config.go: the settings that the modelled parts read. Limits are not negative here.
use go_inbucket.Base.{ℕ, Bool, Option, none, some, List, if◌then◌else◌, Bytes, bytes_eq, txt}
use go_inbucket.GoText.{Unicode, to_lower}
use go_inbucket.StringUtil.{slice_to_lower}

pub data Naming : Type 0 where
  unknown_naming local_naming full_naming domain_naming : Naming

-- `Decode`; `none` is its error.
unfoldable pub decode : Unicode → Bytes → Option Naming
unfolding to_lower bytes_eq txt
decode u v =
    let w = to_lower u v in
    if bytes_eq w (txt "local")
    then some local_naming
    else if bytes_eq w (txt "full")
    then some full_naming
    else if bytes_eq w (txt "domain")
    then some domain_naming
    else none

pub record Smtp : Type 0 where
  pub domain : Bytes
  pub max_recipients : ℕ
  pub max_message_bytes : ℕ
  pub default_accept : Bool
  pub accept_domains : List Bytes
  pub reject_domains : List Bytes
  pub default_store : Bool
  pub store_domains : List Bytes
  pub discard_domains : List Bytes
  pub reject_origin_domains : List Bytes
  pub tls_enabled : Bool
  pub force_tls : Bool

pub record Root : Type 0 where
  pub mailbox_naming : Naming
  pub smtp : Smtp

-- What `Process` does to the settings that were read.
unfoldable pub process : Unicode → Root → Root
unfolding slice_to_lower
process u c = record c {
  smtp = record c.smtp {
    accept_domains = slice_to_lower u c.smtp.accept_domains;
    reject_domains = slice_to_lower u c.smtp.reject_domains;
    store_domains = slice_to_lower u c.smtp.store_domains;
    discard_domains = slice_to_lower u c.smtp.discard_domains;
    reject_origin_domains = slice_to_lower u c.smtp.reject_origin_domains;
  };
}

-- `POP3`.
pub record Pop3 : Type 0 where
  pub domain : Bytes
  pub tls_enabled : Bool
  pub force_tls : Bool
