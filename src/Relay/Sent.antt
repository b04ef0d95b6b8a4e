-- ===== src/Relay/Sent.antt =====
-- main.go: the rows of the database after calls of `MarkSent` that do not fail.
use alertmanager_webhook_rel.Base.{
  All, Bool-cases, List, Option, Text, [], ap, false, inl, inr, none, refl, some, subst, sym,
  text_eq, text_eq_iff, ◌++◌, ◌∙◌, ◌∷◌, ◌≡◌, ◌≢◌, ◌⊎◌,
}
use alertmanager_webhook_rel.Alerts.{AlertGroup}
use alertmanager_webhook_rel.Notify.Dispatcher.Cycle.{keys_of}
use alertmanager_webhook_rel.Storage.{mark_sent, set_sent}
use alertmanager_webhook_rel.Storage.Rows.{GroupRow, Tables, find_key}
use alertmanager_webhook_rel.Storage.Laws.{map_some, find_key-update_key, find_key-update_key_other}
use alertmanager_webhook_rel.Storage.Marking.{set_sent_keeps}
use alertmanager_webhook_rel.Relay.{mark_all}

-- What `MarkSent` makes of the row of a key.
mark_sent-find :
    (j k : Text) (t : Tables)
    → ((j ≡ k)
        × (find_key k (mark_sent false j t).1.groups ≡ map_some set_sent (find_key k t.groups)))
      ⊎ ((j ≢ k) × (find_key k (mark_sent false j t).1.groups ≡ find_key k t.groups))
unfolding mark_sent
mark_sent-find j k t = elim (Bool-cases (text_eq j k)) [
  | inl same ↦
      let e : j ≡ k = (text_eq_iff j k).0 same in
      inl (
        e,
        subst
            (λ x.
              find_key x (mark_sent false j t).1.groups ≡ map_some set_sent (find_key x t.groups))
            e (find_key-update_key j set_sent set_sent_keeps t.groups),
      )
  | inr differs ↦
      let apart : j ≢ k = λ e. let hit = (text_eq_iff j k).1 e in cc in
      inr
        (apart, find_key-update_key_other j set_sent set_sent_keeps k t.groups (λ e. apart (sym e)))
]

sent_twice : (o : Option GroupRow) → map_some set_sent (map_some set_sent o) ≡ map_some set_sent o
unfolding set_sent
sent_twice none = refl
sent_twice (some row) = refl

-- Later calls leave a row that is sent.
stays_sent :
    (ks : List Text) (k : Text) (t : Tables) (o : Option GroupRow)
    → find_key k t.groups ≡ map_some set_sent o
    → find_key k (mark_all false ks t).groups ≡ map_some set_sent o
unfolding mark_all
stays_sent [] k t o h = h
stays_sent (j ∷ ks) k t o h =
    stays_sent ks k (mark_sent false j t).1 o (elim (mark_sent-find j k t) [
      | inl (_, e) ↦ e ∙ ap (map_some set_sent) h ∙ sent_twice o
      | inr (_, e) ↦ e ∙ h
    ])

-- The row of the group, if it is there, is as before except that it is sent.
abbrev pub IsSentAfter : Tables → Tables → AlertGroup → Type 0
IsSentAfter t u g =
    find_key g.group_key u.groups ≡ map_some set_sent (find_key g.group_key t.groups)

pub mark_all-IsSentAfter :
    (gs : List AlertGroup) (t : Tables) → All (IsSentAfter t (mark_all false (keys_of gs) t)) gs
unfolding mark_all
mark_all-IsSentAfter [] t = tt
mark_all-IsSentAfter (g ∷ gs) t =
    let u = (mark_sent false g.group_key t).1 in
    (
      stays_sent (keys_of gs) g.group_key u (find_key g.group_key t.groups)
          (elim (mark_sent-find g.group_key g.group_key t) [
            | inl (_, e) ↦ e
            | inr (apart, _) ↦ absurd (apart refl)
          ]),
      later gs (mark_all-IsSentAfter gs u),
    )
  where
    u : Tables
    u = (mark_sent false g.group_key t).1

    last : Tables
    last = mark_all false (keys_of gs) u

    later : (hs : List AlertGroup) → All (IsSentAfter u last) hs → All (IsSentAfter t last) hs
    later [] h = tt
    later (x ∷ hs) (e, h) = (
      elim (mark_sent-find g.group_key x.group_key t) [
        | inl (_, f) ↦ e ∙ ap (map_some set_sent) f ∙ sent_twice (find_key x.group_key t.groups)
        | inr (_, f) ↦ e ∙ ap (map_some set_sent) f
      ],
      later hs h,
    )

pub mark_all-append :
    (xs ys : List Text) (t : Tables)
    → mark_all false (xs ++ ys) t ≡ mark_all false ys (mark_all false xs t)
unfolding mark_all
mark_all-append [] ys t = refl
mark_all-append (x ∷ xs) ys t = mark_all-append xs ys (mark_sent false x t).1
