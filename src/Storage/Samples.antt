-- ===== src/Storage/Samples.antt =====
-- internal/storage/sqlite: a codec, calls that do not fail, for tests.
use alertmanager_webhook_rel.Base.{List, [], false, some, str, ℕ, ◌∷◌}
use alertmanager_webhook_rel.Alerts.Samples.{sample}
use alertmanager_webhook_rel.Storage.Rows.{GroupRow}
use alertmanager_webhook_rel.Storage.Ordering.{Reorders}
use alertmanager_webhook_rel.Storage.Sorting.{same_rows}
use alertmanager_webhook_rel.Storage.{Codec, SaveCall}

-- Payloads that hold the status only.
abbrev pub sample_codec : Codec
sample_codec = record {
  marshal = λ g. some g.status;
  unmarshal = λ s. some (record sample { status = s });
  format_time = λ time. str "2026-01-01T00:00:00Z";
}

-- Identifiers that end in their index; nothing fails.
abbrev pub at_time : ℕ → SaveCall
at_time now = record { now = now; random_id = λ i. now ∷ i ∷ []; fails = λ s. false }

-- The database finds the rows as they are stored.
abbrev pub as_stored : List GroupRow → List GroupRow
as_stored rows = rows

pub as_stored-Reorders : Reorders as_stored
as_stored-Reorders = same_rows
