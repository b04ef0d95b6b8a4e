-- ===== src/Storage/Outbox.antt =====
-- internal/alerts/store.go and internal/notify/store.go: what the two interfaces promise of a store, as
-- an outbox that has one entry per group key; and that internal/storage/sqlite/store.go keeps it.
pub mod Refines
use alertmanager_webhook_rel.Base.{
  All, Bool, List, Option, Result, Text, [], err, false, if◌then◌else◌, none, ok, some, text_eq,
  true, ℕ, ◌∷◌, ◌≡◌,
}
use alertmanager_webhook_rel.Alerts.{AlertGroup}
use alertmanager_webhook_rel.Storage.{
  Codec, SaveCall, StoreError, check, mark_failed, mark_sent, not_found, save,
}
use alertmanager_webhook_rel.Storage.Rows.{
  GroupRow, NotificationStatus, Tables, find_key, pending, sent,
}
use alertmanager_webhook_rel.Storage.History.{Call, saving, marking, checking, step}

-- What the outbox knows of a group key.
pub record Entry : Type 0 where
  pub payload : Text
  pub received_at : ℕ
  pub status : NotificationStatus

abbrev pub Outbox : Type 0
Outbox = Text → Option Entry

-- The entry of this key is replaced.
abbrev pub replaced : Text → Entry → Outbox → Outbox
replaced key x o j = if text_eq j key then some x else o j

-- What a call may return, and what it does to the outbox then.
pub data Does (codec : Codec) : Outbox → Call → Result StoreError (Unit {0}) → Outbox → Type 0 where
  saves :
      {o : Outbox} (call : SaveCall) (group : AlertGroup) (json : Text)
      → codec.marshal group ≡ some json
      → Does codec o (saving call group) (ok tt) (
          replaced group.group_key
            (record { payload = json; received_at = call.now; status = pending })
            o)
  refuses :
      {o : Outbox} (call : SaveCall) (group : AlertGroup) (e : StoreError)
      → Does codec o (saving call group) (err e) o
  marks :
      {o : Outbox} (key : Text) (x : Entry)
      → o key ≡ some x
      → Does codec o (marking false key) (ok tt) (replaced key (record x { status = sent }) o)
  misses :
      {o : Outbox} (key : Text)
      → o key ≡ none
      → Does codec o (marking false key) (err (not_found key)) o
  mark_fails : {o : Outbox} (key : Text) → Does codec o (marking true key) (err mark_failed) o
  checks :
      {o : Outbox} (exec_fails : Bool) (now : ℕ) (result : Result StoreError (Unit {0}))
      → Does codec o (checking exec_fails now) result o

-- A sequence of calls with what they return.
pub data DoesAll (codec : Codec)
    : Outbox → List Call → List (Result StoreError (Unit {0})) → Outbox → Type 0 where
  no_more : {o : Outbox} → DoesAll codec o [] [] o
  one_more :
      {o p q : Outbox} {c : Call} {calls : List Call} {r : Result StoreError (Unit {0})}
      {results : List (Result StoreError (Unit {0}))}
      → Does codec o c r p
      → DoesAll codec p calls results q
      → DoesAll codec o (c ∷ calls) (r ∷ results) q

abbrev pub entry_of : GroupRow → Entry
entry_of row = record {
  payload = row.payload;
  received_at = row.received_at;
  status = row.notification_status;
}

abbrev pub shown : Option GroupRow → Option Entry
shown none = none
shown (some row) = some (entry_of row)

-- The tables as an outbox.
abbrev pub view : Tables → Outbox
view t key = shown (find_key key t.groups)

module _ (codec : Codec) where
  -- What a call on the tables returns.
  unfoldable pub outcome : Tables → Call → Result StoreError (Unit {0})
  outcome t (saving call group) = (save codec call group t).0
  outcome t (marking exec_fails key) = (mark_sent exec_fails key t).0
  outcome t (checking exec_fails now) = (check exec_fails now t).0

  unfoldable pub outcomes : Tables → List Call → List (Result StoreError (Unit {0}))
  unfolding outcome
  outcomes t [] = []
  outcomes t (c ∷ calls) = outcome t c ∷ outcomes (step codec t c) calls

  -- The entry of some key is to be sent, and its payload is that of the group.
  abbrev pub IsWaiting : Outbox → AlertGroup → Type 0
  IsWaiting o group =
      (key : Text) × (x : Entry) × (o key ≡ some x)
      × (x.status ≡ pending)
      × (codec.unmarshal x.payload ≡ some group)

  abbrev pub HandsOut : Outbox → Result StoreError (List AlertGroup) → Type 0
  HandsOut o (err e) = Unit
  HandsOut o (ok groups) = All (IsWaiting o) groups
