-- ===== src/Lib.antt =====
-- Wavonyx: a WhatsApp gateway. A manager owns sessions, one for each account; a session pairs with a
-- phone by QR codes, buffers the last inbound messages, and sends through a queue that one worker
-- serves, showing the typing indicator before each message.
--
-- The modules and the code that they model:
--   Prelude    texts, lists, tests on numbers, and the integers of Go, with int64's wrap-around
--   Errors     errors.go: the sentinels and the two wrappers as values; `Result` is (T, error)
--   Message    message.go: the types that the parts exchange; SendRequest.Validate
--   Ring       ring.go: NewRing, Cap, Len, Append, Update, Recent
--   Typing     typing/typing.go: Config, Override, Apply, withDefaults, Duration and what it calls
--   Jid        jid.go: NormalizeRecipient; session.go: phoneFromJID
--   MediaRef   mediaref.go: encodeMediaRef, decodeMediaRef
--   Config     config.go and the configuration of webhook.go, with their defaults
--   Webhook    webhook.go: Enqueue, Close, deliver, attempt, backoff; the queue is a list
--   Registry   internal/registry/registry.go: Init, Create, Get, List, UpdateJID, UpdateWebhook and
--              Delete on a table
--              that is a list of rows with the id as primary key, which is what the statements document
--   Manager    manager.go: the map of the sessions beside that table; Operations has Create,
--              UpdateWebhook and Delete in the parts that other calls may come between, Delegates the
--              operations of one session, Listing List, and Lifecycle Start and Close. Steps has the
--              runs of a manager as sequences of these parts, with restarts; the other files have
--              proofs
--   Wire       the messages of the WhatsApp library, in the fields that parse.go and wa.go name
--   Parse      parse.go: Extract has extractContent; Events has parseMessage, parseEdit,
--              buildInbound, extractQuoted, contextInfoOf and resolvePhone
--   Wa         wa.go: Media has the messages with an attachment and the downloads, Client the methods
--              of realClient with the calls that they make, Store those of realStore, and Handlers
--              the dispatch of the library's events to a session (bindHandlers of session.go)
--   Server     server/server.go: classify and the sanitisers; Http has the envelope, auth and
--              decodeJSON, Upload the form of a media send, Handlers the handlers over any SessionAPI
--              (Api), and Managed the manager as that API
--   Session    session.go: State is the struct; Pairing has the QR codes, info and the callbacks of
--              the client; Login has login, attach, logout, stop; Inbound has onMessage and
--              markChatRead; Sending has send, sendMedia, enqueue, the worker and process; Calls has
--              editMessage, revokeMessage and downloadMedia; the other files have proofs
--   Cli        cmd/wavonyx: Args has splitCommand and permuteFlags, Dispatch dispatch and runHelp, Env
--              configFromEnv, parseSize and resolveBaseURL, Client the requests and decodeEnvelope,
--              Output the labels and tables, Qr the drawing of codes, Commands and Connect the
--              commands, Watch the loop of watch
--
-- How the code is modelled. A session is a record, and a `World` is a session with the calls that it
-- has made of its collaborators, the last one first; an operation is a function on worlds. What a
-- collaborator answers is an argument: the client, the store, the clock, the context, and the
-- generator. Each critical section of the source is one atomic change, and the calls between them
-- stand in the trace in the order in which the source makes them, except that a call made in a
-- goroutine of its own stands where the goroutine is started. An operation on one session is one
-- change of the manager. Create, UpdateWebhook and Delete are several, the registry's and the map's,
-- and in Manager/Steps anything else may come between these, but for one thing: no two of their
-- calls on one id overlap. Where they do, the code leaves the registry and the map different. A text is a list of numbers. Instants and
-- durations are in nanoseconds. IEEE arithmetic, the generator, encoding/json, base64,
-- the HMAC and url.Parse are parameters; a database error other than a taken id or a missing row is an
-- argument, and leaves the table as it was.
--
-- Fuel: the loop over the slices of simulated typing has one round for each whole slice and one more;
-- the loop over the words of a text has a round for each rune, and each round takes a rune at least.
-- A delivery has a round for each attempt that the configuration allows. The dispatch of the command
-- line has two rounds, the second for the help about a command.
--
-- The server's handlers are functions on the state of a SessionAPI; which route a request takes, the
-- decoding of bodies and forms, and the detection of a file's type are the standard library's, and
-- arguments. A message of the WhatsApp library is generic in what lies deeper than the code looks.
--
-- Not modelled: logging, the mutex itself, NewManager's wiring of the database, the random ids and
-- seeds, the copying of the pairing channel in wa.go, the start and the shutdown of the process
-- (runServe of cmd/wavonyx/main.go), the texts of its help, and the parsing of its flags, which is the
-- standard library's.
pub mod Prelude
pub mod Errors
pub mod Message
pub mod Ring
pub mod Typing
pub mod Jid
pub mod MediaRef
pub mod Wire
pub mod Parse
pub mod Config
pub mod Wa
pub mod Session
pub mod Webhook
pub mod Registry
pub mod Manager
pub mod Server
pub mod Cli
