-- ===== src/Channel/Pachca/Sending.antt =====
-- internal/channel/pachca/client.go: when a message counts as sent.
use alertmanager_webhook_rel.Base.{
  Bool-cases, Option-cases, Result-cases, Text, [], ap, arith, err, inl, inr, leb, length, ltb, ok,
  refl, some, str, subst, suc, sym, take, true, zero, ℕ, ℤ, ◌++◌, ◌<◌, ◌||◌, ◌↔◌, ◌∙◌, ◌∷◌, ◌≡◌,
  ◌≢◌, ◌≤◌, ◌⊎◌,
}
use alertmanager_webhook_rel.Channel.Pachca.Client.{
  send_message, Client, Http, Reply, Request, api_error, judge, max_error_body_size, message_of,
  messages_path, no_reply, reply, request_of,
}

-- The reply has a status code of success.
abbrev pub IsSuccess : Reply → Type 0
IsSuccess (no_reply e) = ⊥
IsSuccess (reply code body) = (200 ≤ code) × (code < 300)

judge_iff : (r : Reply) → (judge r ≡ ok tt) ↔ IsSuccess r
unfolding judge
judge_iff (no_reply e) = ground arith
judge_iff (reply code body) = ground arith

-- `SendMessage` returns nil exactly if the message is encoded, the URL is one, and the server answers
-- the POST of that message, with the token, by a status code from 200 to 299.
pub send_message_ok_iff :
    (http : Http) (c : Client) (chat_id : ℤ) (content : Text) (exchange : Request → Reply)
    → (send_message http c chat_id content exchange ≡ ok tt) ↔ (
        (body : Text) × (http.marshal (message_of chat_id content) ≡ some body)
        × (http.takes_url (c.base_url ++ messages_path) ≡ true)
        × IsSuccess (
            exchange (record {
              url = c.base_url ++ messages_path;
              authorization = str "Bearer " ++ c.token;
              content_type = str "application/json";
              body = body;
            })))
unfolding send_message request_of
send_message_ok_iff http c chat_id content exchange =
    elim (Option-cases (http.marshal (message_of chat_id content))) [
      | inl none_made ↦ rw none_made (λ h. cc, λ h. cc)
      | inr (body, made) ↦ elim (Bool-cases (http.takes_url (c.base_url ++ messages_path))) [
        | inr refused ↦ rw (made, refused) (λ h. cc, λ h. cc)
        | inl taken ↦
            rw (made, taken)
              (
                λ h. (body, refl, refl, (judge_iff _).0 h),
                λ (b, same, _, success).
                    let e : body ≡ b = cc in
                    (judge_iff _).1 (
                      subst
                        (λ x. IsSuccess (
                          exchange (record {
                            url = c.base_url ++ messages_path;
                            authorization = str "Bearer " ++ c.token;
                            content_type = str "application/json";
                            body = x;
                          })))
                        (sym e) success),
              )
      ]
    ]

length-take_le : (n : ℕ) (s : Text) → length (take n s) ≤ n
length-take_le zero s = omega arith
length-take_le (suc n) [] = omega arith
length-take_le (suc n) (b ∷ s) = omega (arith, length-take_le n s)

-- The error of an answer without success quotes a part of the answer.
abbrev pub Quotes : Reply → ℕ → Text → Type 0
Quotes r code quoted =
    (body : Text) × (r ≡ reply code body)
    × ((code < 200) ⊎ (300 ≤ code))
    × (quoted ≡ take max_error_body_size body)
    × (length quoted ≤ max_error_body_size)

judge-Quotes :
    (r : Reply) (code : ℕ) (quoted : Text)
    → judge r ≡ err (api_error code quoted)
    → Quotes r code quoted
unfolding judge
judge-Quotes (no_reply e) code quoted h = cc
judge-Quotes (reply c body) code quoted h = elim (Bool-cases (ltb c 200 || leb 300 c)) [
  | inr fine ↦ absurd (let k = simp fine at h in cc)
  | inl bad ↦
      let k = simp bad at h in
      let same : c ≡ code = cc in
      let part : quoted ≡ take max_error_body_size body = cc in
      (
        body,
        ap (λ x. reply x body) same,
        subst (λ x. (x < 200) ⊎ (300 ≤ x)) same (ground arith),
        part,
        subst (λ t. length t ≤ max_error_body_size) (sym part)
            (length-take_le max_error_body_size body),
      )
]

request_of_plain :
    (http : Http) (c : Client) (chat_id : ℤ) (content : Text) (code : ℕ) (quoted : Text)
    → request_of http c chat_id content ≢ err (api_error code quoted)
unfolding request_of
request_of_plain http c chat_id content code quoted h =
    elim (Option-cases (http.marshal (message_of chat_id content))) [
      | inl none_made ↦ absurd (ground arith)
      | inr (body, made) ↦ absurd (ground arith)
    ]

-- If `SendMessage` returns an error with a status code and a text, then the request was made, the
-- server answered it with that status code, which is not one of success, and the text is the
-- beginning of the answer's body, of bounded length.
pub send_message-Quotes :
    (http : Http) (c : Client) (chat_id : ℤ) (content : Text) (exchange : Request → Reply)
    (code : ℕ) (quoted : Text)
    → send_message http c chat_id content exchange ≡ err (api_error code quoted)
    → (r : Request) × (request_of http c chat_id content ≡ ok r) × Quotes (exchange r) code quoted
unfolding send_message
send_message-Quotes http c chat_id content exchange code quoted h =
    elim (Result-cases (request_of http c chat_id content)) [
      | inl (r, made) ↦ (r, made, judge-Quotes (exchange r) code quoted (simp made at h))
      | inr (e, failed) ↦
          let k = simp failed at h in
          let same : e ≡ api_error code quoted = cc in
          absurd (request_of_plain http c chat_id content code quoted (failed ∙ ap err same))
    ]
