-- ===== src/Middleware/Outcome.antt =====
-- internal/server/middleware: which status a request is answered with, and logged with.
use alertmanager_webhook_rel.Base.{
  All, All-snoc, Bool, List, Text, [], ap, false, if◌then◌else◌, not, refl, true, ℕ, ◌&&◌, ◌++◌,
  ◌∷◌, ◌≡◌,
}
use alertmanager_webhook_rel.Middleware.{
  ResponseWriter, logging, Act, Sent, chunk, error_text, flush_header, header, perform, perform_all,
  recovered, recovery, reset_status, served, chain, handler_of, flushed_unless_panic, write,
  write_header, writes, writes_header,
}

abbrev pub IsChunk : Sent → Type 0
IsChunk (header _) = ⊥
IsChunk (chunk _) = Unit

-- The handler's own answer: its first WriteHeader, unless a Write comes first.
abbrev pub own_status : List Act → ℕ
own_status [] = 200
own_status (writes_header code ∷ acts) = code
own_status (writes _ _ ∷ acts) = 200

abbrev pub has_written : List Act → Bool
has_written [] = false
has_written (writes_header _ ∷ acts) = has_written acts
has_written (writes _ _ ∷ acts) = true

abbrev pub answer : List Act → Bool → ℕ
answer acts panics = if panics && not (has_written acts) then 500 else own_status acts

-- The status stands, and is not sent.
abbrev latched : ℕ → ResponseWriter
latched code = record {
  status = code;
  bytes = 0;
  wrote_header = true;
  header_sent = false;
  out = [];
}

-- The status is sent, then the body.
pub record IsSent (code : ℕ) (w : ResponseWriter) : Type 0 where
  pub status : w.status ≡ code
  pub wrote : w.wrote_header ≡ true
  pub sent : w.header_sent ≡ true
  pub body : List Sent
  pub out : w.out ≡ header code ∷ body
  pub chunks : All IsChunk body

flush_header-IsSent : (code : ℕ) (w : ResponseWriter) → IsSent code w → IsSent code (flush_header w)
unfolding flush_header
flush_header-IsSent code w v = simp v.sent v

write_header-IsSent :
    (code c : ℕ) (w : ResponseWriter) → IsSent code w → IsSent code (write_header c w)
unfolding write_header
write_header-IsSent code c w v = simp v.wrote v

reset_status-IsSent :
    (code c : ℕ) (w : ResponseWriter) → IsSent code w → IsSent code (reset_status c w)
unfolding reset_status
reset_status-IsSent code c w v = simp v.sent v

write-IsSent :
    (code : ℕ) (b : Text) (n : ℕ) (w : ResponseWriter) → IsSent code w → IsSent code (write b n w)
unfolding write
write-IsSent code b n w v =
    let f = flush_header-IsSent code w v in
    record {
      status = f.status;
      wrote = f.wrote;
      sent = f.sent;
      body = f.body ++ chunk b ∷ [];
      out = ap (λ xs. xs ++ chunk b ∷ []) f.out;
      chunks = All-snoc IsChunk f.body (chunk b) f.chunks tt;
    }

perform-IsSent :
    (code : ℕ) (a : Act) (w : ResponseWriter) → IsSent code w → IsSent code (perform a w)
unfolding perform
perform-IsSent code (writes_header c) w v = write_header-IsSent code c w v
perform-IsSent code (writes b n) w v = write-IsSent code b n w v

perform_all-IsSent :
    (code : ℕ) (acts : List Act) (w : ResponseWriter)
    → IsSent code w
    → IsSent code (perform_all acts w)
unfolding perform_all
perform_all-IsSent code [] w v = v
perform_all-IsSent code (a ∷ acts) w v =
    perform_all-IsSent code acts (perform a w) (perform-IsSent code a w v)

-- From here on, the handler leaves the status as it stands or sends it.
abbrev Goes : ℕ → ResponseWriter → Bool → Type 0
Goes code w true = IsSent code w
Goes code w false = w ≡ latched code

latched-Goes :
    (code : ℕ) (acts : List Act) → Goes code (perform_all acts (latched code)) (has_written acts)
unfolding perform_all perform write write_header flush_header
latched-Goes code [] = refl
latched-Goes code (writes_header c ∷ acts) = latched-Goes code acts
latched-Goes code (writes b n ∷ acts) = perform_all-IsSent code acts _ (record {
  status = refl;
  wrote = refl;
  sent = refl;
  body = chunk b ∷ [];
  out = refl;
  chunks = (tt, tt);
})

-- The request is answered with this status, and no panic is left.
abbrev pub IsAnswered : ℕ → ResponseWriter × Bool → Type 0
IsAnswered code (w, panics) = IsSent code w × (panics ≡ false)

-- What the handler leaves, with what `recovery` and `logging` do to it.
finish :
    (code : ℕ) (panics written : Bool) (n : ℕ) (w : ResponseWriter)
    → Goes code w written
    → IsAnswered
        (if panics && not written then 500 else code)
        (flushed_unless_panic (recovered n (w, panics)))
unfolding write write_header flush_header reset_status recovered flushed_unless_panic
finish code true true n w v =
    let reset = write_header-IsSent code 500 _ (reset_status-IsSent code 500 w v) in
    (flush_header-IsSent code _ (write-IsSent code error_text n _ reset), refl)
finish code false true n w v = (flush_header-IsSent code w v, refl)
finish code true false n w e = rw e (
  record {
    status = refl;
    wrote = refl;
    sent = refl;
    body = chunk error_text ∷ [];
    out = refl;
    chunks = (tt, tt);
  },
  refl,
)
finish code false false n w e =
    rw e (
      record { status = refl; wrote = refl; sent = refl; body = []; out = refl; chunks = tt },
      refl,
    )

-- Every request is answered with exactly one status, before any of the body, and that status is the
-- one that is logged: 500 if the handler panics before it has written any of the body, and otherwise
-- the handler's own. No panic leaves the chain of Logging and Recovery.
pub served-IsAnswered :
    (acts : List Act) (panics : Bool) (n : ℕ)
    → IsAnswered (answer acts panics) (served acts panics n)
unfolding served chain handler_of logging recovery recovered flushed_unless_panic perform_all
    perform write write_header flush_header reset_status
served-IsAnswered [] true n = (
  record {
    status = refl;
    wrote = refl;
    sent = refl;
    body = chunk error_text ∷ [];
    out = refl;
    chunks = (tt, tt);
  },
  refl,
)
served-IsAnswered [] false n =
    (record { status = refl; wrote = refl; sent = refl; body = []; out = refl; chunks = tt }, refl)
served-IsAnswered (writes_header code ∷ acts) panics n =
    finish code panics (has_written acts) n _ (latched-Goes code acts)
served-IsAnswered (writes b k ∷ acts) panics n = finish 200 panics true n _ (
    perform_all-IsSent 200 acts _ (record {
      status = refl;
      wrote = refl;
      sent = refl;
      body = chunk b ∷ [];
      out = refl;
      chunks = (tt, tt);
    }))
