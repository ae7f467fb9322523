-- ===== src/Webui/Attachments.antt =====
-- The links to attachments that the JSON interface lists, and what the user interface serves there.
use go_inbucket.Base.{◌∷◌, ◌++◌, Bytes, txt}

-- The text of the URL of MailboxViewAttach, as pkg/webui/routes.go has it: under /serve,
-- /mailbox/{name}/{id}/attach/{num}/{file}.
abbrev pub attach_url : Bytes → Bytes → Bytes → Bytes → Bytes → Bytes
attach_url host name id num file =
    txt "http://"
    ++ (host
        ++ (txt "/serve/mailbox/"
            ++ (name ++ (b'/' ∷ id ++ (txt "/attach/" ++ (num ++ b'/' ∷ file))))))
