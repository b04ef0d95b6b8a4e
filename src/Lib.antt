-- ===== src/Lib.antt =====
-- alertmanager-webhook-relay takes webhooks of Prometheus Alertmanager over HTTP, stores them in
-- SQLite, and delivers them through channels (the Pachca messenger, e-mail).
--
-- How the parts interact. main.go loads the configuration, opens the store, and starts an HTTP
-- server and a dispatcher. The webhook handler validates a payload and saves its group, which makes
-- the group pending. The dispatcher polls the store for pending groups. For each one it puts a
-- notification on the queue of every channel, waits for one result per accepted notification, and
-- calls MarkSent if none of the results is an error. A worker per channel takes notifications from
-- the channel's queue, sends them, and reports to the shared result channel. On shutdown the
-- dispatcher closes the queues and waits for the workers to drain them.
--
-- The files.
-- Base: shared types, texts as bytes, results with `do`, tests on numbers, signed integers.
-- Dialogue: calls of an outside party made one by one, up to the first that fails.
-- Alerts: internal/alerts. model.go is Alerts, validation.go (ValidatePayload) is
--   Alerts.Validation, service.go and store.go are Alerts.Service, handler.go (HandleWebhook) is
--   Alerts.Handler.
-- Notify: internal/notify. model.go (NewNotification) and result.go are Notify, queue.go is
--   Notify.Queue, worker.go (Worker.Run) is Notify.Worker, dispatcher.go is Notify.Dispatcher over
--   the state of Notify.State.
-- Storage: internal/storage/sqlite/store.go (Save, GetPending, MarkSent, Check) over the tables of
--   migrations/sqlite, whose rows and statements are Storage.Rows; New, ConfigurePragmas and Close of
--   the same file are Storage.Connection. What alerts/store.go and notify/store.go promise of a store
--   is Storage.Outbox.
-- Middleware: internal/server/middleware. logging.go (responseWriter, Logging) and recovery.go
--   (Recovery), in the order in which internal/server/server.go chains them by Chain.
-- Health: the handlers of internal/server/health.go (HandleReadyz, HandleHealthz, HandlePreStop).
-- Channel: internal/channel. Channel.Pachca.Format is pachca/formatter.go, Channel.Pachca.Client is
--   pachca/client.go (SendMessage) and pachca/channel.go; Channel.Email.Format is email/formatter.go,
--   Channel.Email.Message and Channel.Email.Sender are email/sender.go (buildMessage, Send) and
--   email/channel.go. What both formatters define alike is Channel itself; Channel.Content is the content
--   of a notification as a quotient.
-- Template: internal/template. engine.go (NewEngine, Render, Reload) and reload.go (Watch), with
--   TemplateFormatter.FormatBody of email/formatter.go.
-- Config: internal/config/config.go. The limits are Config.Data, the tests on texts
--   Config.Checks, `validate` Config.Validate, `Load` and `normalize` Config.Load, LogValue and
--   SlogLevel Config.Log.
-- Server: internal/server/server.go (New, Start, Addr).
-- Main: main.go. `run` is the list of what it starts and stops, with the error that it returns.
-- Relay: the endpoint, the store and the dispatcher of main.go over one database. An event is a request,
--   a poll or a step of a goroutine; MarkSent is carried out in the step that calls it.
--   Relay.Http is what a client of a route receives through the chain of middleware.
-- Child modules hold the proofs; each module of tests holds runs on concrete inputs.
--
-- How the code is modelled.
-- A Go string is its sequence of bytes. int and time.Duration are integers that the modelled code
--   only compares, so no overflow arises. An instant is its distance from the zero time.
-- An error is a constructor with the values that its message shows. Logging is left out.
-- A `select` that may take several cases has its choice as an argument; a call blocks while no
--   choice gives a result. The dispatcher, its workers and the environment are one machine, and a
--   schedule is any list of actions, so a statement about all schedules is one about all
--   interleavings, all results of GetPending and all outcomes of Send.
-- The context of an Enqueue is done when its own timeout has passed or the dispatcher's context is
--   cancelled; where the queue has room as well, its select may take either.
-- The steps of the machine are atomic at channel operations. Closing a queue sets its flag and
--   closes its channel in one step; the last step of the shutdown joins the wait for the workers,
--   the cancellation of their context and the draining of the result channel.
-- A queue has room for at least one item (the configuration demands ten) and channels have
--   different names.
-- In the store, the time, the random identifiers and the calls of the database that fail are
--   arguments of a call; a transaction that is not committed leaves the tables as they were. The
--   order in which the database finds rows, before ORDER BY sorts them by their time, is an
--   argument too.
-- A formatter writes to a builder; here it is the text that it writes. A map is a list of its entries,
--   in the order in which Go visits it; a statement about another order is one about a permutation.
-- The answer of an SMTP server to a command is a function of the commands given before it. The error
--   of Close is only logged. The template watcher is a machine over the cases of its select and the
--   firing of its timer, which a reload takes as one step; a set of templates is of any type.
-- strings.ToUpper is modelled on ASCII: validation lets no status pass but "firing" and "resolved".
-- strings.ToLower is modelled on ASCII and on the two other characters whose lower case is
--   ASCII; strings.TrimSpace knows the UTF-8 sequences of all white space.
-- Recursion is structural everywhere, so no fuel is needed.
--
-- Arguments that stand for code outside the repository: the JSON codec, the limit on the request
--   body, strconv.Atoi, time.ParseDuration, url.Parse, mail.ParseAddress, the SQLite driver, the text
--   of a time, the HTTP exchange with Pachca, the SMTP client, crypto/rand, the file system,
--   html/template and fsnotify. Of the text of a time one theorem asks that it has no angle bracket and
--   no quotation mark, another that the date and the configured addresses have no line break.
--
-- Not modelled: net/http behind the routes and the server's Shutdown, the function map of the
--   templates (DefaultFuncMap), the default SMTP dialer (netDialer), the set-up of the logger (internal/logging), packages that hold a comment only
--   (internal/cleanup, internal/metrics, internal/storage/postgres).
pub mod Alerts
pub mod Base
pub mod Channel
pub mod Config
pub mod Dialogue
pub mod Health
pub mod Main
pub mod Middleware
pub mod Notify
pub mod Relay
pub mod Server
pub mod Storage
pub mod Template
