-- ===== src/Channel/Email/Sender.antt =====
-- internal/channel/email/sender.go and channel.go: the SMTP dialogue of `Send`. What the server and
-- the network answer to a command, after the commands before it, is an argument.
pub mod Transaction
pub mod Outcome
pub mod Secrets
use alertmanager_webhook_rel.Base.{
  List, Option, Text, [], decimal, if◌then◌else◌, is_empty, map, none, not, some, str, text_eq, ℕ,
  ◌&&◌, ◌++◌, ◌∷◌,
}
use alertmanager_webhook_rel.Dialogue.{Answers, perform}
use alertmanager_webhook_rel.Notify.{Notification}
use alertmanager_webhook_rel.Channel.Email.Message.{build_message}
use alertmanager_webhook_rel.Channel.Email.Format.{format_subject}

-- A call of the dialer or of the client.
pub data Command : Type 0 where
  dial : Text → Command
  dial_tls : Text → Text → Command
  start_tls : Text → Command
  auth : Text → Text → Text → Command
  mail rcpt : Text → Command
  data_start : Command
  write_body : Text → Command
  data_end hang_up : Command

pub record Sender : Type 0 where
  pub host : Text
  pub port : ℕ
  pub from : Text
  pub username : Text
  pub password : Text
  pub tls_mode : Text

unfoldable pub address : Sender → Text
address s = s.host ++ str ":" ++ decimal s.port

unfoldable pub dial_command : Sender → Command
unfolding address
dial_command s =
    if text_eq s.tls_mode (str "tls") then dial_tls (address s) s.host else dial (address s)

unfoldable pub start_tls_commands : Sender → List Command
start_tls_commands s = if text_eq s.tls_mode (str "starttls") then start_tls s.host ∷ [] else []

unfoldable pub auth_commands : Sender → List Command
auth_commands s =
    if not (is_empty s.username) && not (is_empty s.password)
    then auth s.username s.password s.host ∷ []
    else []

-- The commands behind the dial, in order, up to the first that fails. The message is built before
-- it is written; nothing depends on it till then.
unfoldable pub script : Sender → List Text → Text → List Command
script s to message =
    start_tls_commands s
    ++ auth_commands s
    ++ mail s.from ∷ map rcpt to
    ++ data_start ∷ write_body message ∷ data_end ∷ []

-- The deferred `Close`, whose error is only logged.
abbrev pub closed : Option (Command × Text) × List Command → Option (Command × Text) × List Command
closed (result, done) = (result, done ++ hang_up ∷ [])

-- The answer to the dial.
unfoldable pub after_dial :
    Answers Command → Command → List Command → Option Text → Option (Command × Text) × List Command
after_dial answers d cs (some e) = (some (d, e), d ∷ [])
after_dial answers d cs none = closed (perform answers (d ∷ []) cs)

unfoldable pub send :
    Answers Command → Sender → List Text → Text → Option (Command × Text) × List Command
unfolding dial_command after_dial
send answers s to message =
    after_dial answers (dial_command s) (script s to message) (answers [] (dial_command s))

-- `Channel`; the formatter is an argument of `send_mail`.
pub record EmailChannel : Type 0 where
  pub sender : Sender
  pub to : List Text
  pub subject_prefix : Text

-- `Channel.Send`, with the date and the random bytes of the message.
unfoldable pub send_mail :
    Answers Command
    → (Notification → Text)
    → Text
    → Text
    → EmailChannel
    → Notification
    → Option (Command × Text) × List Command
send_mail answers format_body date random ch n = send answers ch.sender ch.to (
    build_message date random ch.sender.from ch.to (format_subject n ch.subject_prefix)
      (format_body n))
