-- ===== src/Channel/Email/Sender/Secrets.antt =====
-- internal/channel/email/sender.go: what is sent over a connection that is not secured.
use alertmanager_webhook_rel.Base.{
  Bool, List, Option, Text, [], false, inl, inr, none, refl, some, str, subst, sym, text_eq, true,
  ◌&&◌, ◌++◌, ◌||◌, ◌∷◌, ◌≡◌, ◌⊎◌,
}
use alertmanager_webhook_rel.Dialogue.{Answers, after_answer, perform, perform_prefix}
use alertmanager_webhook_rel.Channel.Email.Sender.{
  send, Command, Sender, address, after_dial, auth, data_start, dial, dial_command, dial_tls,
  hang_up, mail, rcpt, script, start_tls, start_tls_commands, write_body,
}

-- The command tells the other side something of the configuration or the mail.
abbrev pub reveals : Command → Bool
reveals (auth _ _ _) = true
reveals (mail _) = true
reveals (rcpt _) = true
reveals data_start = true
reveals (write_body _) = true
reveals _ = false

-- The command secures the connection, if it succeeds.
abbrev pub secures : Command → Bool
secures (dial_tls _ _) = true
secures (start_tls _) = true
secures _ = false

abbrev pub has_succeeded : Option Text → Bool
has_succeeded none = true
has_succeeded (some _) = false

-- No command of these reveals anything before one has secured the connection; `secured` says whether
-- one of those before has.
abbrev pub IsProtected : Answers Command → List Command → Bool → List Command → Type 0
IsProtected answers done secured [] = Unit
IsProtected answers done secured (c ∷ cs) =
    (reveals c ≡ true → secured ≡ true)
    × IsProtected answers (done ++ c ∷ [])
        (secured || (secures c && has_succeeded (answers done c))) cs

IsProtected-true :
    (answers : Answers Command) (done cs : List Command) → IsProtected answers done true cs
IsProtected-true answers done [] = tt
IsProtected-true answers done (c ∷ cs) = (λ h. refl, IsProtected-true answers (done ++ c ∷ []) cs)

-- The first command after the dial is STARTTLS.
start_tls_protects :
    (answers : Answers Command) (a h : Text) (cs : List Command) (o : Option Text)
    → answers (dial a ∷ []) (start_tls h) ≡ o
    → IsProtected answers [] false (
        (after_answer
          (start_tls h)
          (dial a ∷ [])
          (perform answers (dial a ∷ start_tls h ∷ []) cs)
          o).1
        ++ hang_up ∷ [])
unfolding after_answer
start_tls_protects answers a h cs (some e) refused = (λ k. cc, (λ k. cc, (λ k. cc, tt)))
start_tls_protects answers a h cs none taken =
    let (behind, e) = perform_prefix answers (dial a ∷ start_tls h ∷ []) cs in
    rw e (
      λ k. cc,
      (
        λ k. cc,
        subst
            (λ o.
              IsProtected answers (dial a ∷ start_tls h ∷ []) (false || has_succeeded o)
                (behind ++ hang_up ∷ []))
            (sym taken)
            (IsProtected-true answers (dial a ∷ start_tls h ∷ []) (behind ++ hang_up ∷ [])),
      ),
    )

by_start_tls :
    (answers : Answers Command) (a h : Text) (cs : List Command) (o : Option Text)
    → IsProtected answers [] false (after_dial answers (dial a) (start_tls h ∷ cs) o).1
unfolding after_dial perform
by_start_tls answers a h cs (some e) = (λ k. cc, tt)
by_start_tls answers a h cs none =
    start_tls_protects answers a h cs (answers (dial a ∷ []) (start_tls h)) refl

by_dial_tls :
    (answers : Answers Command) (a h : Text) (cs : List Command) (o : Option Text)
    → answers [] (dial_tls a h) ≡ o
    → IsProtected answers [] false (after_dial answers (dial_tls a h) cs o).1
unfolding after_dial
by_dial_tls answers a h cs (some e) refused = (λ k. cc, tt)
by_dial_tls answers a h cs none taken =
    let (behind, e) = perform_prefix answers (dial_tls a h ∷ []) cs in
    rw e (
      λ k. cc,
      subst
          (λ o.
            IsProtected answers (dial_tls a h ∷ []) (false || has_succeeded o)
              (behind ++ hang_up ∷ []))
          (sym taken) (IsProtected-true answers (dial_tls a h ∷ []) (behind ++ hang_up ∷ [])),
    )

-- In the TLS modes "starttls" and "tls", `Send` gives no credential, address or text before a command
-- that secures the connection has succeeded.
pub send-IsProtected :
    (answers : Answers Command) (s : Sender) (to : List Text) (message : Text)
    → (s.tls_mode ≡ str "starttls") ⊎ (s.tls_mode ≡ str "tls")
    → IsProtected answers [] false (send answers s to message).1
unfolding send dial_command script start_tls_commands text_eq
send-IsProtected answers s to message (inl e) =
    rw e (by_start_tls answers (address s) s.host _ (answers [] (dial (address s))))
send-IsProtected answers s to message (inr e) =
    rw e (by_dial_tls answers (address s) s.host _ (answers [] (dial_tls (address s) s.host)) refl)
