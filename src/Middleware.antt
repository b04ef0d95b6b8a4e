-- ===== src/Middleware.antt =====
-- internal/server/middleware: the chain Logging, Recovery around a handler. A handler is what it does
-- to its response writer, and whether it ends in a panic; the headers' other fields are left out.
pub mod Outcome
mod Tests
use alertmanager_webhook_rel.Base.{
  Bool, List, Text, [], false, if◌then◌else◌, str, true, ℕ, ◌++◌, ◌+◌, ◌∷◌,
}

-- What reaches the underlying `http.ResponseWriter`.
pub data Sent : Type 0 where
  header : ℕ → Sent
  chunk : Text → Sent

-- `responseWriter`, with what it has sent.
pub record ResponseWriter : Type 0 where
  pub status : ℕ
  pub bytes : ℕ
  pub wrote_header : Bool
  pub header_sent : Bool
  pub out : List Sent

unfoldable pub write_header : ℕ → ResponseWriter → ResponseWriter
write_header code w = if w.wrote_header then w else record w { status = code; wrote_header = true }

unfoldable pub flush_header : ResponseWriter → ResponseWriter
flush_header w =
    if w.header_sent
    then w
    else (let status = if w.wrote_header then w.status else 200 in
        record w {
          status = status;
          wrote_header = true;
          header_sent = true;
          out = w.out ++ header status ∷ [];
        })

-- `n` is the number of bytes that the underlying writer says it wrote.
unfoldable pub write : Text → ℕ → ResponseWriter → ResponseWriter
write b n w =
    let flushed = flush_header w in
    record flushed { bytes = flushed.bytes + n; out = flushed.out ++ chunk b ∷ [] }

unfoldable pub reset_status : ℕ → ResponseWriter → ResponseWriter
reset_status code w = if w.header_sent then w else record w { status = code; wrote_header = true }

-- What a handler does.
pub data Act : Type 0 where
  writes_header : ℕ → Act
  writes : Text → ℕ → Act

unfoldable pub perform : Act → ResponseWriter → ResponseWriter
perform (writes_header code) w = write_header code w
perform (writes b n) w = write b n w

unfoldable pub perform_all : List Act → ResponseWriter → ResponseWriter
perform_all [] w = w
perform_all (a ∷ acts) w = perform_all acts (perform a w)

abbrev pub error_text : Text
error_text = str "Internal Server Error" ++ 10 ∷ []

abbrev pub new_writer : ResponseWriter
new_writer = record { status = 200; bytes = 0; wrote_header = false; header_sent = false; out = [] }

-- What a handler leaves of its response writer, and whether it ends in a panic.
abbrev pub Handler : Type 0
Handler = ResponseWriter → ResponseWriter × Bool

unfoldable pub handler_of : List Act → Bool → Handler
handler_of acts panics w = (perform_all acts w, panics)

-- The deferred function of `Recovery`.
unfoldable pub recovered : ℕ → ResponseWriter × Bool → ResponseWriter × Bool
recovered n (w, true) = (write error_text n (write_header 500 (reset_status 500 w)), false)
recovered n (w, false) = (w, false)

-- `n` is what the write of the error text returns.
unfoldable pub recovery : ℕ → Handler → Handler
unfolding recovered
recovery n next w = recovered n (next w)

-- A panic goes past the rest of the function.
unfoldable pub flushed_unless_panic : ResponseWriter × Bool → ResponseWriter × Bool
flushed_unless_panic (w, true) = (w, true)
flushed_unless_panic (w, false) = (flush_header w, false)

-- The handler gets a writer of its own; the status and the bytes in it are those that are logged.
unfoldable pub logging : Handler → Handler
unfolding flushed_unless_panic
logging next w = flushed_unless_panic (next new_writer)

-- `Chain`: the first of the list is the outermost.
unfoldable pub chain : List (Handler → Handler) → Handler → Handler
chain [] next = next
chain (m ∷ ms) next = m (chain ms next)

-- The chain of the server around a handler.
unfoldable pub served : List Act → Bool → ℕ → ResponseWriter × Bool
served acts panics n = chain (logging ∷ recovery n ∷ []) (handler_of acts panics) new_writer
