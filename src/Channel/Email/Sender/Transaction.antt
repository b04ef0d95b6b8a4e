-- ===== src/Channel/Email/Sender/Transaction.antt =====
-- internal/channel/email/sender.go: the commands of a mail make one SMTP transaction.
use alertmanager_webhook_rel.Base.{
  Bool, List, Option, Text, [], ap, append_nil, decimal, false, if◌then◌else◌, is_empty, map, none,
  not, refl, snoc-append, some, str, sym, text_eq, true, ◌&&◌, ◌++◌, ◌||◌, ◌∙◌, ◌∷◌, ◌≡◌,
}
use alertmanager_webhook_rel.Channel.Email.Sender.{
  Command, Sender, address, auth, auth_commands, data_end, data_start, dial, dial_command, dial_tls,
  mail, rcpt, script, start_tls, start_tls_commands, write_body,
}

-- How far a transaction is.
pub data Stage : Type 0 where
  offline greeted authenticated addressed open_data written accepted : Stage

-- What the server and the connection know: the certificate's name, if the connection is secured, the
-- credentials, the sender, the recipients and the message.
pub record Transaction : Type 0 where
  pub stage : Stage
  pub server : Text
  pub secured : Option Text
  pub user : Option (Text × Text)
  pub sender : Text
  pub recipients : List Text
  pub message : Text

abbrev pub nothing_yet : Transaction
nothing_yet = record {
  stage = offline;
  server = [];
  secured = none;
  user = none;
  sender = [];
  recipients = [];
  message = [];
}

-- A command in its place, or none.
abbrev take_command : Stage → Transaction → Command → Option Transaction
take_command offline t (dial a) = some (record t { stage = greeted; server = a })
take_command offline t (dial_tls a h) =
    some (record t { stage = greeted; server = a; secured = some h })
take_command greeted t (start_tls h) = some (record t { secured = some h })
take_command greeted t (auth u p h) = some (record t { stage = authenticated; user = some (u, p) })
take_command greeted t (mail f) = some (record t { stage = addressed; sender = f })
take_command authenticated t (mail f) = some (record t { stage = addressed; sender = f })
take_command addressed t (rcpt r) = some (record t { recipients = t.recipients ++ r ∷ [] })
take_command addressed t data_start = some (record t { stage = open_data })
take_command open_data t (write_body m) = some (record t { stage = written; message = m })
take_command written t data_end = some (record t { stage = accepted })
take_command _ t c = none

unfoldable pub follow : Transaction → List Command → Option Transaction
follow t [] = some t
follow t (c ∷ cs) = elim (take_command t.stage t c) [ none ↦ none | some u ↦ follow u cs ]

-- The whole transaction of a mail.
abbrev pub transaction : Sender → List Text → Text → Transaction
transaction s to message = record {
  stage = accepted;
  server = s.host ++ str ":" ++ decimal s.port;
  secured =
      if text_eq s.tls_mode (str "tls") || text_eq s.tls_mode (str "starttls")
      then some s.host
      else none;
  user = if is_empty s.username || is_empty s.password then none else some (s.username, s.password);
  sender = s.from;
  recipients = to;
  message = message;
}

-- The recipients are taken one by one.
follow-rcpt :
    (t : Transaction) (to : List Text) (cs : List Command)
    → t.stage ≡ addressed
    → follow t (map rcpt to ++ cs) ≡ follow (record t { recipients = t.recipients ++ to }) cs
unfolding follow
follow-rcpt t [] cs h =
    ap (λ l. follow (record t { recipients = l }) cs) (sym (append_nil t.recipients))
follow-rcpt t (r ∷ to) cs h =
    let u : Transaction = record t { recipients = t.recipients ++ r ∷ [] } in
    ap
      (λ stage. elim (take_command stage t (rcpt r)) [
        | none ↦ none
        | some u ↦ follow u (map rcpt to ++ cs)
      ])
      h
    ∙ follow-rcpt u to cs h
    ∙ ap (λ l. follow (record t { recipients = l }) cs) (snoc-append t.recipients r to)

follow_mail :
    (t : Transaction) (s : Sender) (to : List Text) (message : Text)
    → follow
        (record t { stage = addressed; sender = s.from; recipients = [] })
        (map rcpt to ++ data_start ∷ write_body message ∷ data_end ∷ [])
      ≡ some (record t { stage = accepted; sender = s.from; recipients = to; message = message })
unfolding follow
follow_mail t s to message =
    follow-rcpt (record t { stage = addressed; sender = s.from; recipients = [] }) to
      (data_start ∷ write_body message ∷ data_end ∷ []) refl

-- What stands behind the connection, with the credentials or without.
login :
    (server : Text) (secured : Option Text) (s : Sender) (to : List Text) (message : Text)
    (no_name no_password : Bool)
    → follow
        (record nothing_yet { stage = greeted; server = server; secured = secured })
        ((if not no_name && not no_password then auth s.username s.password s.host ∷ [] else [])
          ++ mail s.from ∷ map rcpt to
          ++ data_start ∷ write_body message ∷ data_end ∷ [])
      ≡ some (record {
        stage = accepted;
        server = server;
        secured = secured;
        user = if no_name || no_password then none else some (s.username, s.password);
        sender = s.from;
        recipients = to;
        message = message;
      })
unfolding follow
login server secured s to message false false =
    follow_mail
      (record nothing_yet {
        stage = authenticated;
        server = server;
        secured = secured;
        user = some (s.username, s.password);
      })
      s to message
login server secured s to message true no_password =
    follow_mail (record nothing_yet { stage = greeted; server = server; secured = secured }) s to
      message
login server secured s to message false true =
    follow_mail (record nothing_yet { stage = greeted; server = server; secured = secured }) s to
      message

connection :
    (s : Sender) (to : List Text) (message : Text) (tls starttls : Bool)
    → follow nothing_yet (
        (if tls then dial_tls (address s) s.host else dial (address s))
          ∷ (if starttls then start_tls s.host ∷ [] else [])
        ++ auth_commands s
        ++ mail s.from ∷ map rcpt to
        ++ data_start ∷ write_body message ∷ data_end ∷ [])
      ≡ some (record (transaction s to message) {
        secured = if tls || starttls then some s.host else none;
      })
unfolding follow auth_commands address
connection s to message false false =
    login _ _ s to message (is_empty s.username) (is_empty s.password)
connection s to message false true =
    login _ _ s to message (is_empty s.username) (is_empty s.password)
connection s to message true false =
    login _ _ s to message (is_empty s.username) (is_empty s.password)
connection s to message true true =
    login _ _ s to message (is_empty s.username) (is_empty s.password)

pub follow-script :
    (s : Sender) (to : List Text) (message : Text)
    → follow nothing_yet (dial_command s ∷ script s to message) ≡ some (transaction s to message)
unfolding script start_tls_commands dial_command
follow-script s to message =
    connection s to message (text_eq s.tls_mode (str "tls")) (text_eq s.tls_mode (str "starttls"))
