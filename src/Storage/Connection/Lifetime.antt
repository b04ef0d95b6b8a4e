-- ===== src/Storage/Connection/Lifetime.antt =====
-- internal/storage/sqlite/store.go: when `New` returns a store, and what it and `Close` leave open.
use alertmanager_webhook_rel.Base.{
  List, Option, Result, Text, [], ap, err, inl, inr, map, none, ok, refl, some, ◌++◌, ◌↔◌, ◌∷◌, ◌≡◌,
  ◌⊎◌,
}
use alertmanager_webhook_rel.Dialogue.{
  Answers, perform, perform-AllSucceed, AllSucceed, Stops, perform-Stops,
}
use alertmanager_webhook_rel.Storage.Connection.{
  DbCall, Pragma, OpenError, opens, sets_max_open_conns, closes, open_failed, pragma_failed,
  pragmas, statement, takes, pragmas_outcome, configure_pragmas, initialized, after_sql_open,
  new_store,
}

-- The calls before the pragmas.
abbrev pub opening : Text → List DbCall
opening dsn = opens dsn ∷ sets_max_open_conns 1 ∷ []

-- The database opens and takes every pragma, in this order.
abbrev pub Opens : Answers DbCall → Text → Type 0
Opens db dsn = (db [] (opens dsn) ≡ none) × AllSucceed (takes db (opening dsn)) [] pragmas

-- It opens, but refuses a pragma, and takes those before it.
abbrev pub RefusesPragma : Answers DbCall → Text → Pragma → Text → List Pragma → Type 0
RefusesPragma db dsn p e before =
    (db [] (opens dsn) ≡ none)
    × ((behind : List Pragma) × (pragmas ≡ before ++ p ∷ behind))
    × AllSucceed (takes db (opening dsn)) [] before
    × (takes db (opening dsn) before p ≡ some e)

-- What `New` returns, and the calls that it makes.
abbrev pub NewOutcome : Answers DbCall → Text → Result OpenError (Unit {0}) × List DbCall → Type 0
NewOutcome db dsn (result, calls) =
    (Opens db dsn × (result ≡ ok tt) × (calls ≡ opening dsn ++ map statement pragmas))
    ⊎ ((e : Text) × (db [] (opens dsn) ≡ some e)
        × (result ≡ err (open_failed e))
        × (calls ≡ opens dsn ∷ []))
    ⊎ ((p : Pragma) × (e : Text) × (before : List Pragma) × RefusesPragma db dsn p e before
        × (result ≡ err (pragma_failed p.name e))
        × (calls ≡ (opening dsn ++ map statement (before ++ p ∷ [])) ++ closes ∷ []))

initialized-NewOutcome :
    (db : Answers DbCall) (dsn : Text)
    → db [] (opens dsn) ≡ none
    → (out : Option (Pragma × Text) × List Pragma) → Stops (takes db (opening dsn)) [] pragmas out
    → NewOutcome db dsn (initialized (pragmas_outcome (opening dsn) out))
unfolding initialized
initialized-NewOutcome db dsn opened (none, given) (e, all) =
    inl ((opened, all), refl, ap (λ ps. opening dsn ++ map statement ps) e)
initialized-NewOutcome db dsn opened (some (p, e), given) (before, behind, here, all, failed, g) =
    inr (
      inr (
        p,
        e,
        before,
        (opened, (behind, here), all, failed),
        refl,
        ap (λ ps. (opening dsn ++ map statement ps) ++ closes ∷ []) g,
      ))

after_sql_open-NewOutcome :
    (db : Answers DbCall) (dsn : Text) (o : Option Text)
    → db [] (opens dsn) ≡ o
    → NewOutcome db dsn (after_sql_open db dsn o)
unfolding after_sql_open configure_pragmas
after_sql_open-NewOutcome db dsn (some e) failed = inr (inl (e, failed, refl, refl))
after_sql_open-NewOutcome db dsn none opened =
    initialized-NewOutcome db dsn opened (perform (takes db (opening dsn)) [] pragmas)
      (perform-Stops (takes db (opening dsn)) [] pragmas)

-- `New` opens the database, limits it to one connection and executes the four pragmas in order. It
-- returns a store if all of this succeeds. If the opening fails it returns that error and makes no other call;
-- if a pragma fails it returns an error with the name of the first that does, executes none behind it,
-- and closes the database.
pub new_store-NewOutcome : (db : Answers DbCall) (dsn : Text) → NewOutcome db dsn (new_store db dsn)
unfolding new_store
new_store-NewOutcome db dsn = after_sql_open-NewOutcome db dsn (db [] (opens dsn)) refl

new_store_opens :
    (db : Answers DbCall) (dsn : Text)
    → db [] (opens dsn) ≡ none
    → AllSucceed (takes db (opening dsn)) [] pragmas
    → (new_store db dsn).0 ≡ ok tt
unfolding new_store after_sql_open configure_pragmas initialized
new_store_opens db dsn there all = rw there (rw (perform-AllSucceed _ [] pragmas all) refl)

-- `New` returns a store exactly if the database opens and takes every pragma.
pub new_store_ok_iff :
    (db : Answers DbCall) (dsn : Text) → ((new_store db dsn).0 ≡ ok tt) ↔ Opens db dsn
new_store_ok_iff db dsn = (succeeded (new_store-NewOutcome db dsn), opened)
  where
    succeeded :
        {out : Result OpenError (Unit {0}) × List DbCall}
        → NewOutcome db dsn out
        → out.0 ≡ ok tt
        → Opens db dsn
    succeeded (inl (opens_it, _, _)) h = opens_it
    succeeded (inr (inl (e, _, failed, _))) h = absurd (cc)
    succeeded (inr (inr (p, e, before, _, failed, _))) h = absurd (cc)

    opened : Opens db dsn → (new_store db dsn).0 ≡ ok tt
    opened (there, all) = new_store_opens db dsn there all
