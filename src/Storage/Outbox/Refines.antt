-- ===== src/Storage/Outbox/Refines.antt =====
-- internal/storage/sqlite/store.go: the store keeps what Storage.Outbox says of it.
use alertmanager_webhook_rel.Base.{
  All, Bool, Bool-cases, List, Option-cases, Result, Result-cases, Text, [], ap, false, fun_ext,
  inl, inr, none, refl, some, subst, sym, text_eq, text_eq_iff, true, ℕ, ◌∙◌, ◌∷◌, ◌≡◌, ◌≢◌,
}
use alertmanager_webhook_rel.Alerts.{AlertGroup}
use alertmanager_webhook_rel.Storage.{
  Codec, SaveCall, StoreError, check, get_pending, mark_sent, save, set_sent,
}
use alertmanager_webhook_rel.Storage.Rows.{GroupRow, Tables, find_key, pending}
use alertmanager_webhook_rel.Storage.Calls.{save_atomic}
use alertmanager_webhook_rel.Storage.Marking.{mark_sent_outcome}
use alertmanager_webhook_rel.Storage.Pending.{IsFromPending, get_pending_sound}
use alertmanager_webhook_rel.Storage.Ordering.{Reorders}
use alertmanager_webhook_rel.Storage.History.{
  run-IsConsistent, Call, saving, marking, checking, step, run, empty_tables,
}
use alertmanager_webhook_rel.Storage.Outbox.{
  Outbox, Does, DoesAll, saves, refuses, marks, misses, mark_fails, checks, no_more, one_more,
  replaced, entry_of, shown, view, outcome, outcomes, IsWaiting, HandsOut,
}

view-replaced :
    (t after : Tables) (key : Text) (row : GroupRow)
    → find_key key after.groups ≡ some row
    → ((j : Text) → j ≢ key → find_key j after.groups ≡ find_key j t.groups)
    → replaced key (entry_of row) (view t) ≡ view after
view-replaced t after key row found others = fun_ext λ j. elim (Bool-cases (text_eq j key)) [
  | inl same ↦
      let e : j ≡ key = (text_eq_iff j key).0 same in
      let here = subst (λ k. find_key k after.groups ≡ some row) (sym e) found in
      rw same (sym (ap shown here))
  | inr differs ↦
      let apart : j ≢ key = λ e. let hit = (text_eq_iff j key).1 e in cc in
      rw differs (sym (ap shown (others j apart)))
]

view-same :
    (t after : Tables)
    → ((j : Text) → find_key j after.groups ≡ find_key j t.groups)
    → view t ≡ view after
view-same t after same = fun_ext λ j. sym (ap shown (same j))

module _ (codec : Codec) where
  abbrev DoesCall : Tables → Call → Type 0
  DoesCall t c = Does codec (view t) c (outcome codec t c) (view (step codec t c))

  Does-equal :
      {o p q : Outbox} {c : Call} {r s : Result StoreError (Unit {0})}
      → Does codec o c r p
      → r ≡ s
      → p ≡ q
      → Does codec o c s q
  Does-equal {o} {p} {q} {c} {r} {s} d e f =
      subst (λ x. Does codec o c s x) f (subst (λ x. Does codec o c x p) e d)

  save-Does : (t : Tables) (call : SaveCall) (group : AlertGroup) → DoesCall t (saving call group)
  unfolding outcome step
  save-Does t call group = elim (save_atomic codec call group t) [
    | inr (e, failed, same) ↦
        Does-equal (refuses call group e) (sym failed) (ap (λ (x : Tables). view x) (sym same))
    | inl (succeeded, saved) ↦
        let u = saved.upserted in
        let after = (save codec call group t).1 in
        let entry : entry_of u.row
            ≡ record { payload = saved.json; received_at = call.now; status = pending } =
          λ i. record {
            payload = u.holds.payload i;
            received_at = u.holds.received_at i;
            status = u.holds.notification_status i;
          } in
        Does-equal (saves call group saved.json saved.marshalled) (sym succeeded) (
          ap (λ x. replaced group.group_key x (view t)) (sym entry)
          ∙ view-replaced t after group.group_key u.row u.found u.others)
  ]

  mark_sent-Does :
      (t : Tables) (exec_fails : Bool) (key : Text) → DoesCall t (marking exec_fails key)
  unfolding outcome step set_sent
  mark_sent-Does t true key = unfold mark_sent in mark_fails key
  mark_sent-Does t false key =
      let (marked, others, _) = mark_sent_outcome key t in
      let after = (mark_sent false key t).1 in
      elim marked [
        | inl (absent, missed, still) ↦ Does-equal (misses key (ap shown absent)) (sym missed) (
            view-same t after λ j. elim (Bool-cases (text_eq j key)) [
              | inl same ↦
                  let e : j ≡ key = (text_eq_iff j key).0 same in
                  subst (λ k. find_key k after.groups ≡ find_key k t.groups) (sym e)
                    (still ∙ sym absent)
              | inr differs ↦ others j (λ e. let hit = (text_eq_iff j key).1 e in cc)
            ])
        | inr (row, found, succeeded, there) ↦
            Does-equal (marks key (entry_of row) (ap shown found)) (sym succeeded)
              (view-replaced t after key (set_sent row) there others)
      ]

  check-groups_same :
      (exec_fails : Bool) (now : ℕ) (t : Tables) → (check exec_fails now t).1.groups ≡ t.groups
  unfolding check
  check-groups_same true now t = refl
  check-groups_same false now t = elim (Option-cases t.health_check) [
    | inl missing ↦ rw (missing, check) refl
    | inr (at_time, there) ↦ rw (there, check) refl
  ]

  step-Does : (t : Tables) (c : Call) → DoesCall t c
  unfolding outcome step
  step-Does t (saving call group) = save-Does t call group
  step-Does t (marking exec_fails key) = mark_sent-Does t exec_fails key
  step-Does t (checking exec_fails now) =
      let same = check-groups_same exec_fails now t in
      Does-equal (checks exec_fails now _) refl
        (view-same t (check exec_fails now t).1 λ j. ap (find_key j) same)

  run_does :
      (t : Tables) (calls : List Call)
      → DoesAll codec (view t) calls (outcomes codec t calls) (view (run codec t calls))
  unfolding outcomes run
  run_does t [] = no_more
  run_does t (c ∷ calls) = one_more (step-Does t c) (run_does (step codec t c) calls)

  IsWaiting-All :
      (t : Tables) (groups : List AlertGroup)
      → All (IsFromPending codec t.groups) groups
      → All (IsWaiting codec (view t)) groups
  IsWaiting-All t [] h = tt
  IsWaiting-All t (g ∷ groups) h =
      let (row, (found, waits), parsed) = h.0 in
      ((row.group_key, entry_of row, ap shown found, waits, parsed), IsWaiting-All t groups h.1)

  -- From empty tables, and through any sequence of calls whichever of them the database fails, the store is
  -- an outbox with at most one entry per group key. A `Save` that returns nil replaces the entry of the
  -- key by the payload, to be sent; one that returns an error leaves all entries. A `MarkSent`
  -- that returns nil sets the entry of the key to sent and leaves its payload; one that the database does not
  -- fail returns ErrNotFound if there is no entry, and leaves all entries; a check leaves all entries. A
  -- `GetPending` behind these calls, in whatever order the database finds the rows, hands out payloads of entries that are to be sent.
  pub run-DoesAll :
      (calls : List Call) (found : List GroupRow → List GroupRow) (query_fails rows_fail : Bool)
      (limit : ℕ)
      → Reorders found
      → let t = run codec empty_tables calls in
        DoesAll codec (λ key. none) calls (outcomes codec empty_tables calls) (view t)
        × HandsOut codec (view t) (get_pending codec found query_fails rows_fail limit t)
  unfolding find_key
  run-DoesAll calls found query_fails rows_fail limit order =
      let t = run codec empty_tables calls in
      let answer = get_pending codec found query_fails rows_fail limit t in
      (
        run_does empty_tables calls,
        elim (Result-cases answer) [
          | inr (e, failed) ↦ subst (HandsOut codec (view t)) (sym failed) tt
          | inl (groups, got) ↦ subst (HandsOut codec (view t)) (sym got) (
              IsWaiting-All t groups
                (get_pending_sound codec found query_fails rows_fail limit t groups order
                  (run-IsConsistent codec calls).keys got).1)
        ],
      )
