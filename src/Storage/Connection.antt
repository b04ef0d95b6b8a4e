-- ===== src/Storage/Connection.antt =====
-- internal/storage/sqlite/store.go: `ConfigurePragmas`, `New` and `Close`, as calls of database/sql. What
-- the database answers to a call, after the calls before it, is an argument.
pub mod Lifetime
use alertmanager_webhook_rel.Base.{
  List, Option, Result, Text, [], err, map, none, ok, some, str, ℕ, ◌++◌, ◌∷◌,
}
use alertmanager_webhook_rel.Dialogue.{Answers, perform}

-- A call of database/sql.
pub data DbCall : Type 0 where
  opens : Text → DbCall
  sets_max_open_conns : ℕ → DbCall
  executes queries : Text → DbCall
  closes : DbCall

pub record Pragma : Type 0 where
  pub sql : Text
  pub name : Text

-- One constructor for each `fmt.Errorf`, with the error that it wraps.
pub data OpenError : Type 0 where
  open_failed : Text → OpenError
  pragma_failed : Text → Text → OpenError

abbrev pub pragmas : List Pragma
pragmas =
    record { sql = str "PRAGMA journal_mode=WAL"; name = str "journal_mode=WAL" }
    ∷ record { sql = str "PRAGMA foreign_keys=ON"; name = str "foreign_keys=ON" }
    ∷ record { sql = str "PRAGMA busy_timeout=5000"; name = str "busy_timeout=5000" }
    ∷ record { sql = str "PRAGMA synchronous=NORMAL"; name = str "synchronous=NORMAL" }
    ∷ []

abbrev pub statement : Pragma → DbCall
statement p = executes p.sql

-- The answers to the pragmas, on a database on which these calls were made.
abbrev pub takes : Answers DbCall → List DbCall → Answers Pragma
takes db done given p = db (done ++ map statement given) (statement p)

-- What the loop ended with, and the pragmas that it executed.
abbrev pub pragmas_outcome :
    List DbCall → Option (Pragma × Text) × List Pragma → Option OpenError × List DbCall
pragmas_outcome done (none, given) = (none, done ++ map statement given)
pragmas_outcome done (some (p, e), given) =
    (some (pragma_failed p.name e), done ++ map statement given)

unfoldable pub configure_pragmas : Answers DbCall → List DbCall → Option OpenError × List DbCall
configure_pragmas db done = pragmas_outcome done (perform (takes db done) [] pragmas)

-- `New` after `ConfigurePragmas`: on its error the database is closed.
unfoldable pub initialized :
    Option OpenError × List DbCall → Result OpenError (Unit {0}) × List DbCall
initialized (none, done) = (ok tt, done)
initialized (some e, done) = (err e, done ++ closes ∷ [])

-- `New` after `sql.Open`.
unfoldable pub after_sql_open :
    Answers DbCall → Text → Option Text → Result OpenError (Unit {0}) × List DbCall
unfolding configure_pragmas initialized
after_sql_open db dsn (some e) = (err (open_failed e), opens dsn ∷ [])
after_sql_open db dsn none =
    initialized (configure_pragmas db (opens dsn ∷ sets_max_open_conns 1 ∷ []))

-- `New`, with the calls that it makes.
unfoldable pub new_store : Answers DbCall → Text → Result OpenError (Unit {0}) × List DbCall
unfolding after_sql_open
new_store db dsn = after_sql_open db dsn (db [] (opens dsn))

-- `Close`, behind the calls made so far: an error of the checkpoint is only logged.
unfoldable pub close_store : Answers DbCall → List DbCall → Option Text × List DbCall
close_store db done =
    let checkpointed = done ++ queries (str "PRAGMA wal_checkpoint(TRUNCATE)") ∷ [] in
    (db checkpointed closes, checkpointed ++ closes ∷ [])
