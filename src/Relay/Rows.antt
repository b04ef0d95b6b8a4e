-- ===== src/Relay/Rows.antt =====
-- main.go: a row of the database under `Save` and `MarkSent`, whatever group they are about.
use alertmanager_webhook_rel.Base.{
  Bool, Bool-cases, List, Text, [], false, inl, inr, none, refl, some, subst, sym, text_eq,
  text_eq_iff, true, ◌++◌, ◌∙◌, ◌∷◌, ◌≡◌, ◌≢◌, ◌⊎◌,
}
use alertmanager_webhook_rel.Alerts.{AlertGroup}
use alertmanager_webhook_rel.Storage.{Codec, SaveCall, save, mark_sent, set_sent}
use alertmanager_webhook_rel.Storage.Rows.{GroupRow, Tables, find_key, pending}
use alertmanager_webhook_rel.Storage.Calls.{save_atomic}
use alertmanager_webhook_rel.Storage.Marking.{mark_sent_outcome}
use alertmanager_webhook_rel.Relay.{calls_behind}

pub calls_behind_same : (ks : List Text) → calls_behind ks ks ≡ []
unfolding calls_behind
calls_behind_same [] = refl
calls_behind_same (k ∷ ks) = calls_behind_same ks

pub calls_behind-snoc : (ks : List Text) (k : Text) → calls_behind ks (ks ++ k ∷ []) ≡ k ∷ []
unfolding calls_behind
calls_behind-snoc [] k = refl
calls_behind-snoc (j ∷ ks) k = calls_behind-snoc ks k

-- The row of this key is there, and pending unless it was not before.
abbrev pub StaysPending : Text → GroupRow → Tables → Type 0
StaysPending key row t =
    (after : GroupRow) × (find_key key t.groups ≡ some after)
    × (row.notification_status ≡ pending → after.notification_status ≡ pending)

module _ (key : Text) (row : GroupRow) (t : Tables) (found : find_key key t.groups ≡ some row) where
  pub save-StaysPending :
      (codec : Codec) (call : SaveCall) (group : AlertGroup)
      → StaysPending key row (save codec call group t).1
  save-StaysPending codec call group = elim (save_atomic codec call group t) [
    | inr (e, _, same) ↦ subst (StaysPending key row) (sym same) (row, found, λ h. h)
    | inl (_, saved) ↦
        let u = saved.upserted in
        elim (Bool-cases (text_eq key group.group_key)) [
          | inl same ↦
              let e : key ≡ group.group_key = (text_eq_iff key group.group_key).0 same in
              (
                u.row,
                subst (λ k. find_key k (save codec call group t).1.groups ≡ some u.row) (sym e)
                    u.found,
                λ h. u.holds.notification_status,
              )
          | inr differs ↦
              let apart : key ≢ group.group_key =
                λ e. let hit = (text_eq_iff key group.group_key).1 e in cc in
              (row, u.others key apart ∙ found, λ h. h)
        ]
  ]

  -- `MarkSent` of another key does not touch the row.
  pub mark_sent-present :
      (fails : Bool) (k : Text)
      → (after : GroupRow) × (find_key key (mark_sent fails k t).1.groups ≡ some after)
        × ((k ≡ key) ⊎ (after ≡ row))
  unfolding mark_sent
  mark_sent-present true k = (row, found, inr refl)
  mark_sent-present false k =
      let (marked, others, _) = mark_sent_outcome k t in
      elim (Bool-cases (text_eq key k)) [
        | inl same ↦
            let e : k ≡ key = sym ((text_eq_iff key k).0 same) in
            elim marked [
              | inl (absent, _, _) ↦
                  absurd (let gone = subst (λ x. find_key x t.groups ≡ none) e absent in cc)
              | inr (old, _, _, there) ↦ (
                set_sent old,
                subst (λ x. find_key x (mark_sent false k t).1.groups ≡ some (set_sent old)) e
                    there,
                inl e,
              )
            ]
        | inr differs ↦
            let apart : key ≢ k = λ e. let hit = (text_eq_iff key k).1 e in cc in
            (row, others key apart ∙ found, inr refl)
      ]
