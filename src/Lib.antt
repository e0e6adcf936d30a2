-- ===== src/Lib.antt =====
-- Verification of herdr-pal, a bridge that lets users of a chat service read and drive coding
-- agents that run in terminals on their own machines. A relay server (internal/server) keeps a
-- catalog of the sessions that clients report and routes chat messages; a client
-- (internal/relayclient, internal/bridge) runs beside the terminals; both speak the protocol of
-- internal/hprp.
--
-- Prelude holds texts (lists of code points), maps as association lists without repeated keys,
-- lists over the native numbers, stable sorting and Boolean tests.
-- Hprp models the wire types and checks of internal/hprp/messages.go and
-- internal/hprp/validate.go: ValidateMachineID, ValidateTarget and ValidateSessionSnapshot.
-- Hprp/Negotiate models internal/hprp/negotiate.go: the versions that both sides offer.
-- Catalog models internal/server/catalog.go: SessionCatalog with Attach, ApplySnapshot and Detach
-- (Catalog/Connections), the numbered list, the selection and the output modes (Catalog/Routing),
-- and any history of these calls (Catalog/Calls). Every Go method holds the lock of the catalog,
-- so concurrent calls are some sequence of steps; a method that waits is modelled by what one pass
-- does under the lock. The channel that wakes waiters is a counter. WaitForTarget, contexts and
-- calls on a nil catalog are not modelled.
-- Panel models internal/panel/buffer.go: the cached pages of a terminal, 100 lines each and 1000
-- at most. Pages are counted in natural numbers, and a cut below the first line is empty as in Go.
-- Dedupe models internal/policy/dedupe.go: the deduper of chat messages. The reading of the clock
-- is an argument of each call, and may go back.
-- RateLimit models internal/server/rate_limiter.go: the rolling windows of a user's inputs.
-- RateLimit/Windows follows any history of calls.
-- Guard models internal/policy/guard.go: who may send input, which keys, and the records of keys.
-- Command models internal/command/parser.go: chat texts read as actions; help texts are left out,
-- and the parts of the standard library that it calls (strings.Fields, strings.FieldsFunc,
-- strconv.Atoi) are written out.
-- Registry models internal/session/registry.go: the targets that a client reads from a snapshot of
-- its panes, the numbered list and the selection (Registry/Operations), and any history of calls
-- (Registry/Sound). The digest that makes an occupant key is an argument.
-- LoginGuard models internal/adminauth/login_guard.go: the buckets of users and sources that limit
-- failed and concurrent logins of administrators. LoginGuard/Logins follows any history of calls.
-- ResultCache models internal/relayclient/idempotency.go: the results of commands that a client
-- keeps (Lookup, Store, pruneLocked and fitPayloadLocked), so that a command that is sent again
-- does not run again. The fingerprint of a command and the size of a payload are arguments.
-- ResultCache/Runs follows any history of calls.
-- Credential models internal/credential: the keys of machines (Credential/Key, Credential/Token)
-- and their store (Credential/Store). What rests on net/netip, base64, hex and SHA-256 is a record
-- of functions, Primitives.
-- Registration models internal/machinereg: requests for keys (Registration/Requests), the service
-- that issues, delivers, approves and rejects (Registration/Service) and any history of its calls
-- (Registration/Calls), where Steps has the step relation and Phases the contract for one machine
-- of a user. Each call is one step, since the service holds the lock of the user; calls for
-- different users touch different machines.
-- Approval models internal/server/registration_approval.go: administrators decide by the numbers
-- of a list. Approval/Manager has the interface of the registrations, which Approval/Service
-- fills, and Approval/Lists follows the lists over any history of calls.
-- Split models internal/panel/split.go: pages of terminal output as Markdown (Split/Page), and
-- messages cut to the limit of the chat service (Split/Plain, Split/Markdown). Texts are valid
-- UTF-8.
-- Terminal models internal/panel/normalize.go: snapshots of terminals read as safe lines
-- (Terminal/Sequences, Terminal/Lines) and cut at the width of the terminal (Terminal/Width). The
-- width of a character is an argument.
-- AdminSession models internal/adminauth/session.go: the browser sessions of administrators
-- (AdminSession/Operations) and any history of calls (AdminSession/Runs). base64, SHA-256 and the
-- case of letters are a record of functions.
--
-- Go maps are modelled by association lists; a loop over a map runs over that list in order.
-- Integers are unbounded where the code cannot overflow: sequences are only compared, and times
-- are added to one duration. Loops are structural recursion over lists and counters. The loops of
-- Split and Terminal count rounds down, from the length of the text or from the digits of its
-- size: every round takes a character, or adds a digit. Network and file I/O, JSON, cryptography
-- and goroutines are not modelled.
pub mod Prelude
pub mod Hprp
pub mod Catalog
pub mod Panel
pub mod Dedupe
pub mod RateLimit
pub mod Guard
pub mod Command
pub mod Registry
pub mod LoginGuard
pub mod ResultCache
pub mod Credential
pub mod Registration
pub mod Approval
pub mod Split
pub mod Terminal
pub mod AdminSession
