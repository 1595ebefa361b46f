-- ===== src/Lib.antt =====
-- Verification of nineguard, a gateway that puts keys, quotas and plugins before model providers.
--
-- The parts and the files that model them:
--
-- RateLimit models internal/handler/ratelimit.go. The maps of `RateLimiter` are functions to options;
--   every method is a function of the state and of one reading of the clock, `allow_ip` for
--   `AllowIP`, `is_user_locked`, `record_user_failure`, `record_user_success` and `cleanup`. The
--   mutex makes a method one step: RateLimit/Runs has the sequences of steps.
-- Auth models internal/auth/auth.go: the tables of users and sessions are lists of rows, an operation is a
--   function of the tables, of which of its statements succeed (`Sql`), of the clock and of the random
--   values. Auth/Accounts has the operations, Auth/Middleware who a request is from, and Auth/Runs
--   sequences of calls; Auth/Keeps says what an invariant of the tables has to satisfy.
-- Handler models the handlers of internal/handler/handler.go for sign-in, recovery and users, which use
--   RateLimit and Auth together.
-- Calendar models the days, months and years of the Gregorian calendar, as Go's `time.Date` normalises them.
-- Quota models internal/traffic/{quota,window,schedule,pins}.go. Quota Windows, Reset Schedules and
--   Transitional Windows. `window_at` is the body of `scheduleWindow` for a loaded zone.
-- Keys/Schedule models internal/keys/{reset_schedule,global_schedule,preview}.go, and the schedule part
--   of `UpdateKeyAll` in internal/keys/modelquota.go. It uses Quota for the windows. Keys/Schedule/Bulk has
--   the bulk changes of the Global Reset Schedule.
-- Keys/Access models the access check of internal/keys/keys.go, and internal/models/availability.go.
-- Keys/Lists models the lists of models that a column holds, and the masks of keys, also that of
--   internal/providers/providers.go.
-- Keys/Cache models the table of client keys and the cache in front of it, of internal/keys/keys.go and
--   modelquota.go: `KeyStore` is both, an operation is a function of the store, of the outcomes of its
--   SQL (`Sql`) and of its random token and id. Keys/Cache/Refines runs them from an empty table;
--   Keys/Cache/Race splits `ValidateClientKey` at the point where it holds no lock. The entry and the
--   row are compared by their policy, everything but the Reset Schedule.
-- Keys/Page models internal/keys/page.go, less the SQL text of its query.
-- Limits models the quotas of keys and models: the usage sums of internal/traffic/{quota,modelquota}.go over a
--   log of requests, the status of internal/keys/modelquota.go, and the checks of internal/proxy/proxy.go.
-- Plugins models internal/plugins/resolve.go, and Plugins/Pipeline internal/plugins/pipeline.go. `execute` is
--   `Execute`; what a plugin does with a body is an argument (`Runs`, with the context of the request),
--   so that the theorems hold for every plugin.
-- Log models internal/ui/hub.go; a channel is a list, and a subscriber that takes an entry is a step.
-- Upstream/Alert models internal/upstream/alert.go, and `PercentBucketFresh` of sdk_pool.go.
-- Upstream/Pool models the names of sub-providers and the view of a key in
--   internal/upstream/pool.go.
-- Upstream/Merge models `MergeAccountPools` of internal/upstream/pool.go; amounts are not negative, and the rounded
--   percentage and the merge of SDK accounts are arguments.
-- Proxy/Headers and Proxy/Fallback model internal/proxy/hopbyhop.go and fallback.go.
-- Proxy/Decloak models the names of tools of internal/proxy/decloak.go, on the JSON values of Proxy/Json: an edit
--   of a decoded map gives the map and the flag `changed`; Proxy/Decloak/Events has the offered tools and
--   the events of a stream.
-- Base holds numbers, lists, texts and maps that the parts share.
--
-- Conventions. Instants are nanoseconds since the zero time of Go, so none is negative; text is a
-- list of bytes, with the case mapping and the white space of ASCII. What the code reads but does
-- not define is a parameter: the time zones (`Location`, a local day and the instant of a local
-- date), the JSON codec (`Codec`, with `IsFaithful` where what was written must read back), the JSON
-- values of plugin settings, the decoder and encoder of bodies (`JsonCodec`), the outcomes of SQL
-- statements (`Outcome`, `Sql`), and bcrypt (`Bcrypt`, with `IsFaithful` where a hash must match its password).
--
-- Bounds. The search of a window takes at most four steps back and four on, as in the code; a zone
-- whose local day is within a day of UTC needs fewer, and a search that fails ends in the default
-- window. `strip_loop` has fuel for the length of the name, and every round takes bytes off.
-- `decimal` has fuel for twenty digits, which is every 64-bit number.
--
-- Not modelled: SQL text, HTTP transport, encryption, floating-point prices, the web interface, logging, and the
-- order in which Go's `sort.Slice` leaves equal elements.
mod Base
pub mod RateLimit
pub mod Auth
pub mod Handler
pub mod Calendar
pub mod Quota
pub mod Keys
pub mod Limits
pub mod Log
pub mod Plugins
pub mod Upstream
pub mod Proxy
