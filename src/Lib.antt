-- ===== src/Lib.antt =====
-- A terminal client talks to a language model through a gateway: the gateway keeps short-lived
-- sessions in memory, a controller (a phone) pairs with a session by a code or a token, and prompts are
-- answered as streams of server-sent events. This library models the gateway, the protocol, the client of
-- the model's API, the terminal client, the configuration and the two commands.
--
-- The parts, from the bottom up; each file names the code that it is about.
-- Base: numbers, texts (lists of bytes), Go's maps as association lists, results, a heap, and
--   what the code uses of the packages strings and unicode.
-- Crypto: internal/crypto/rand.go. NewID, NewToken and NewPairCode are new_id, new_token and
--   new_pair_code; their argument is what the system's generator returns. Crypto/Base64 has the encoding.
-- Json: what the code uses of encoding/json and unicode/utf8, as of Go 1.22. Strings has the texts, Values
--   the reader, Structs the writer of a struct of texts, flags and numbers and the fields of what is read.
-- Protocol: internal/protocol. Types has the messages, Messages their JSON texts, PairCode the written
--   form of a code (NormalizePairCode, FormatPairCode), Sse the reader and writer of events (WriteSSE,
--   ReadSSE).
-- Provider: internal/provider/provider.go and settings.go (Valid, ParseSettings).
--   Provider/Deepseek is deepseek/deepseek.go, StreamCompletion split at the call of the HTTP client:
--   chat_request before it, stream_completion after it, and Chunks decodes a chunk.
--   Provider/Mock is mock/mock.go.
-- Session: internal/session. Types has the state, a Manager with a heap that its two maps share.
--   Create, Approve, Prompt and Destroy have the methods of manager.go under their own names in snake
--   case. Validity says when a manager is in order; Trace has the histories of calls; Refinement has the
--   specification of the calls on a view without pointers, and the view of a manager.
-- Gateway: internal/gateway. Limiter is ratelimit.go, Server and Routes are server.go, Handlers and Prompt
--   are handlers.go. Gateway/Prompt/World has the interleavings of requests.
-- Client: internal/client. The file Client has Prompt and readErrorBody of transport.go, waitApproved and
--   formatEffectiveSettings of cli.go, pairingPayloadString of qr.go; Client/Transport has the other
--   calls of transport.go, Client/Repl the command loop of cli.go. Client/Requests joins the
--   terminal's requests with the gateway's routes, and Client/Exchange joins the terminal, the gateway
--   and the API's client in one prompt.
-- Config: internal/config/config.go. Command: cmd/dsgateway/main.go and cmd/ds/main.go; Command/Approval
--   joins the subcommand `approve` with the gateway, Command/Address has the address they share.
-- Examples: runs at concrete inputs.
--
-- How they interact: a handler changes the gateway only by the limiter's Allow and the manager's methods.
-- A manager's method holds the lock from its start to its return, so it is one function from the manager
-- before to the manager after and a result. A pointer to a session is a number, and a session that
-- has left both maps can still be read through its pointer. A cancel function is the number of its
-- generation, and the manager records which ones it has called. The clock's time, the generator's draws
-- and what a provider's call has left are arguments.
--
-- handlePrompt and streamPrompt hold no lock between their calls, so they are three steps:
-- handle_prompt (up to PreparePrompt), start_stream (up to the provider's call) and end_prompt. The
-- relation Gateway/Prompt/World.Step lets any other request, and the sweeper, come in between. Results on
-- one prompt that runs alone say so. The handlers are otherwise taken as one step each: handleApprove
-- reads the control token back after the pairing, handlePrompt reads the session's state for its reply
-- when PreparePrompt has refused, handleStatus reads the settings after the state, and handleClose looks
-- the session up before it destroys it; a request that comes in between these calls is not modelled. Nor
-- are data races on the fields that handlers read after a lock is released.
--
-- A request's target is the path, escaped, and the query. The mux answers a path that is not clean with a
-- redirect, which is no handler's reply; the segments of a clean one are decoded and choose the handler.
-- What the terminal sends is taken as it is written, up to a fragment.
--
-- Bounds: times are nanoseconds on the natural numbers, and durations that New does not replace are
-- positive; the wrap-around of time.Duration is not modelled. The scanner's limit of a line is the
-- code's, 1 MiB; a text of 174000 bytes fits into it in JSON, where a byte takes six at most. All loops
-- are structural recursions but these, which have fuel: format_06d's digits beyond the sixth, where the
-- number itself is enough, since each round divides it by ten; and what reads a text by characters or by
-- JSON values, where the length of the text is enough, since each step reads a byte.
-- Ranging over a map visits the association list in its order; the sweep is treated for any order.
--
-- The terminal's chat is a relation on events: the lines, the interrupts, the deltas, the end of the
-- answer, and the steps at which the two goroutines read and write the atomic variables that they share,
-- in the order in which they happen. A line that arrives during an answer is seen after it.
--
-- Not modelled: the texts of the error messages in the gateway's replies (their codes are kept, and
-- reply_text, what writeJSON writes, takes the message as an argument), the HTTP headers but
-- Authorization, the terminal's decoding of a created session and of a status (parameters), the JSON
-- text of the request to the model's API, errors of writing to the client, the limits of encoding/json
-- on the depth of a value, signals and the shutdown of the server, and the picture of the QR code,
-- which a library draws.
pub mod Base
pub mod Crypto
pub mod Json
pub mod Protocol
pub mod Provider
pub mod Session
pub mod Gateway
pub mod Client
pub mod Config
pub mod Command
pub mod Examples
