-- ===== src/Alerts/Handler/Outcomes.antt =====
-- internal/alerts/handler.go and service.go: what each answer of the endpoint says.
use alertmanager_webhook_rel.Base.{
  Result-cases, Text, arith, has_prefix, inl, inr, none, ok, str, true, ℕ, ℤ, ◌↔◌, ◌≡◌, ◌⊎◌,
}
use alertmanager_webhook_rel.Alerts.{AlertGroup}
use alertmanager_webhook_rel.Alerts.Validation.{validate_payload}
use alertmanager_webhook_rel.Alerts.Validation.Spec.{
  IsWellFormed, IsWithinLimits, validate_payload_iff,
}
use alertmanager_webhook_rel.Alerts.Handler.{
  Decoded, decoded, body_too_large, bad_json, handle_webhook,
}
use alertmanager_webhook_rel.Alerts.Validation.Blame.{validate_payload_blame}
use alertmanager_webhook_rel.Alerts.Service.{Saver, receive}

-- A payload that the endpoint takes, with a store in state `s`.
pub record IsAccepted {S E : Type 0} (store : Saver S E) (max_alerts : ℤ) (group : AlertGroup)
    (s : S) : Type 0 where
  pub well_formed : IsWellFormed group
  pub within_limits : IsWithinLimits group max_alerts
  pub saved : (store.save group s).0 ≡ ok tt

abbrev pub IsJson : Text → Type 0
IsJson content_type = has_prefix content_type (str "application/json") ≡ true

-- The body decodes to a payload that the endpoint takes.
abbrev pub Holds : {S E : Type 0} → Saver S E → ℤ → Decoded → S → Type 0
Holds store max_alerts (decoded group) s = IsAccepted store max_alerts group s
Holds store max_alerts body_too_large s = ⊥
Holds store max_alerts bad_json s = ⊥

-- What the store's state becomes if the payload reaches it.
abbrev pub stored : {S E : Type 0} → Saver S E → Decoded → S → S
stored store (decoded group) s = (store.save group s).1
stored store _ s = s

-- What each status code says of the request.
abbrev pub Explains : ℕ → ℤ → Text → Decoded → Type 0
Explains code max_alerts content_type (decoded group) =
    (code ≡ 400 → ¬ IsWellFormed group)
    × (code ≡ 413 → ¬ IsWithinLimits group max_alerts)
    × (code ≡ 415 → ¬ IsJson content_type)
Explains code max_alerts content_type body_too_large = (code ≡ 413) ⊎ (¬ IsJson content_type)
Explains code max_alerts content_type bad_json = (code ≡ 400) ⊎ (¬ IsJson content_type)

module _ {S E : Type 0} (store : Saver S E) (max_alerts : ℤ) (content_type : Text) where
  -- The answer is 200 exactly if the content type is JSON and the body decodes to a payload that is
  -- well formed, within the limits, and saved by the store.
  pub handle_webhook_ok_iff :
      (body : Decoded) (s : S)
      → ((handle_webhook store max_alerts content_type body s).0.code ≡ 200)
        ↔ (IsJson content_type × Holds store max_alerts body s)
  unfolding handle_webhook receive
  handle_webhook_ok_iff body_too_large s = ground arith
  handle_webhook_ok_iff bad_json s = ground arith
  handle_webhook_ok_iff (decoded group) s = ground (
    arith,
    validate_payload_iff group max_alerts,
    Result-cases (validate_payload group max_alerts),
    Result-cases (store.save group s).0,
  )

  -- The store's state changes only as its `Save` changes it, and only with the answers 200 and 500,
  -- when the store's errors wrap no sentinel of the payload.
  pub handle_webhook_state :
      (body : Decoded) (s : S)
      → ((e : E) → store.wraps e ≡ none)
      → let answer = handle_webhook store max_alerts content_type body s in
        (answer.1 ≡ s)
        ⊎ ((answer.1 ≡ stored store body s) × ((answer.0.code ≡ 200) ⊎ (answer.0.code ≡ 500)))
  unfolding handle_webhook receive
  handle_webhook_state body_too_large s plain = ground arith
  handle_webhook_state bad_json s plain = ground arith
  handle_webhook_state (decoded group) s plain =
      elim (Result-cases (validate_payload group max_alerts)) [
        | inl (_, valid) ↦ elim (Result-cases (store.save group s).0) [
          | inl (_, saved) ↦ ground arith
          | inr (e, failed) ↦ ground (arith, plain e)
        ]
        | inr (e, invalid) ↦ ground arith
      ]

  -- With a 200, the store's state is the one that its `Save` leaves.
  pub handle_webhook-stored :
      (body : Decoded) (s : S)
      → let answer = handle_webhook store max_alerts content_type body s in
        answer.0.code ≡ 200 → answer.1 ≡ stored store body s
  unfolding handle_webhook receive
  handle_webhook-stored body_too_large s h = ground arith
  handle_webhook-stored bad_json s h = ground arith
  handle_webhook-stored (decoded group) s h =
      let (_, accepted) = (handle_webhook_ok_iff (decoded group) s).0 h in
      let valid =
        (validate_payload_iff group max_alerts).1 (accepted.well_formed, accepted.within_limits) in
      let done = accepted.saved in ground arith

  -- A 400 means malformed input, a 413 oversized input and a 415 another content type, when the
  -- store's errors wrap no sentinel of the payload.
  pub handle_webhook-Explains :
      (body : Decoded) (s : S)
      → ((e : E) → store.wraps e ≡ none)
      → Explains
          (handle_webhook store max_alerts content_type body s).0.code
          max_alerts
          content_type
          body
  unfolding handle_webhook receive
  handle_webhook-Explains body_too_large s plain = ground arith
  handle_webhook-Explains bad_json s plain = ground arith
  handle_webhook-Explains (decoded group) s plain =
      elim (Result-cases (validate_payload group max_alerts)) [
        | inl (_, valid) ↦ elim (Result-cases (store.save group s).0) [
          | inl (_, saved) ↦ ground arith
          | inr (e, failed) ↦ ground (arith, plain e)
        ]
        | inr (e, invalid) ↦ ground (arith, validate_payload_blame group max_alerts e invalid)
      ]
