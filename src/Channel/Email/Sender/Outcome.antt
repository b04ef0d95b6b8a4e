-- ===== src/Channel/Email/Sender/Outcome.antt =====
-- internal/channel/email/sender.go: when a mail is sent, and where the dialogue stops otherwise.
use alertmanager_webhook_rel.Base.{
  List, Option, Text, [], inl, inr, none, refl, some, ◌++◌, ◌∷◌, ◌≡◌, ◌⊎◌,
}
use alertmanager_webhook_rel.Dialogue.{Answers, perform, Stops, perform-Stops}
use alertmanager_webhook_rel.Channel.Email.Sender.Transaction.{
  follow, follow-script, nothing_yet, transaction,
}
use alertmanager_webhook_rel.Channel.Email.Sender.{
  send, Command, Sender, after_dial, dial_command, hang_up, script,
}

-- Everything that was given after a dial that succeeded ends in `Close`.
abbrev pub Hangs : List Command → List Command → Type 0
Hangs given all = all ≡ given ++ hang_up ∷ []

-- What may become of a dial `d` and the commands behind it.
abbrev pub Outcome :
    Answers Command → Command → List Command → Option (Command × Text) × List Command → Type 0
Outcome answers d cs (result, all) =
    ((e : Text) × (answers [] d ≡ some e) × (result ≡ some (d, e)) × (all ≡ d ∷ []))
    ⊎ ((given : List Command) × (answers [] d ≡ none)
        × Stops answers (d ∷ []) cs (result, given)
        × Hangs given all)

send_by_dial :
    (answers : Answers Command) (d : Command) (cs : List Command) (o : Option Text)
    → answers [] d ≡ o
    → Outcome answers d cs (after_dial answers d cs o)
unfolding after_dial
send_by_dial answers d cs (some x) e = inl (x, e, refl, refl)
send_by_dial answers d cs none e =
    inr ((perform answers (d ∷ []) cs).1, e, perform-Stops answers (d ∷ []) cs, refl)

-- `Send` dials first. The dial and the commands behind it make one mail transaction with the configured
-- server, in the order that SMTP demands: secured as the TLS mode says, with the credentials if both
-- are set, from the configured sender to each of the recipients in order, with the whole message,
-- ended. An error of the dial ends `Send`. Otherwise it gives those commands in order up to the
-- first that fails, whose error it returns, and closes the connection in the end; it returns nil
-- exactly if all of them succeed.
pub send-Outcome :
    (answers : Answers Command) (s : Sender) (to : List Text) (message : Text)
    → (follow nothing_yet (dial_command s ∷ script s to message) ≡ some (transaction s to message))
      × Outcome answers (dial_command s) (script s to message) (send answers s to message)
unfolding send
send-Outcome answers s to message = (
  follow-script s to message,
  send_by_dial answers (dial_command s) (script s to message) (answers [] (dial_command s)) refl,
)
