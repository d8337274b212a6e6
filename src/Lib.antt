-- ===== src/Lib.antt =====
-- dsh-full-remote: an authenticated reverse proxy in front of the DeepSeek Harness Web server.
--
-- A remote device signs in with the access token or an invite, becomes a session, and from then on
-- its requests are forwarded to the backend with rewritten headers. This library models the parts
-- that decide who gets through, with the states that they share, and the client's poller.
--
-- - Security: `safeEqual` and `parseCookies` of src/security.ts.
-- - Sessions: the device store of src/sessions.ts. Sessions/Record has the state, the expiry and the
--   lookup, Login has login, reissue and eviction, Access validate, isActive and pending, Track the
--   callbacks of trackActivity, Admin list, revoke, approve, rename and clear, Disk hydrate and
--   serialize, Cookie and Label the two text formats. Steps runs whole histories,
--   Directory has the panel's view of ids and statuses.
-- - Invites: `createInviteStore` of src/invites.ts.
-- - Cache: `createStaticResponseCache` of src/static-cache.ts, least recently used first. Directives reads
--   `Cache-Control` and has `staticResponseTtlMs`, Admission `staticCacheRequestKey` and
--   `isCacheableStaticResponse`.
-- - Tracker: `createLoginTracker` of src/proxy.ts, used for logins and for upgrades.
-- - Net: src/hosts.ts, src/proxy-headers.ts, and helpers of src/http-util.ts, src/cidr.ts and
--   src/config-validation.ts. Net/Forward has `forwardHeaders`.
-- - Gate: the paths of src/pages.ts and the handlers `onRequest`, `handleLogin`, `handleWaitRoutes`,
--   `handleDevicePages`, `closeSessionConnections` and the admission of an upgrade of src/proxy.ts,
--   which call the stores above.
-- - Relay: `proxyRequest` of src/proxy.ts. Start refuses, answers from the cache (Cached) or opens an exchange
--   with the backend (Exchange), a machine over the events of its streams; Prepare makes the headers of the
--   response, Prompt finds command lines, Captures copies responses for the cache. Connections has
--   `trackSession`, `closeSessionConnections` and the callback of `sessionExpiryTimer`.
-- - Control: src/control-routes.ts over the runtime: Routes and what is read of a request, Snapshot `snapshot` and
--   the helpers of src/http-util.ts that it uses, and Handle.
-- - Audit: the two files of the audit log of src/audit.ts, their rotation and their reading.
-- - Pending: src/client/pending-source.ts, its views and its source. Cockpit: the machine of
--   src/client/cockpit-connection.ts, with one event for each callback.
-- - Polling: src/client/visibility-polling.ts.
-- - Cidr: src/cidr.ts in Parse and Match, `validateRuntimeConfig` of src/config-validation.ts in Config, and
--   in Numbers the language's readings of a number that they use.
-- - Tunnel: src/tunnel.ts. Manager has the closure of `createTunnelManager` with one function per callback,
--   Url the search for the public URL, Archive `extractTgzSingleFile`, Binary `findOnPath`, `download`,
--   `cachedBinaryIsValid` and `resolveBinary`. Safety runs histories of the callbacks, in which `start` and
--   `stop` wait for a `stop` under way as the write gate of src/index.ts makes them.
-- - Compress: src/proxy-compress.ts. Negotiate reads `Accept-Encoding`, Body decides whether a body may be
--   compressed, Rewrite changes the headers.
-- - Runtime: `createRuntime` of src/index.ts over the session, invite and tunnel models. State has its
--   variables, `load` and `save`, Actions `start`, `stop` and `rotateToken`, Commands `setListen`,
--   `mutateSession`, `restore`, `dispose` and histories of what passes the write gate. How a bind, a close,
--   a read of the certificate and a write of the file end is an argument. An action sees one time.
-- - Persist: `normalizeState` of src/persist.ts. Toast: src/client/toast.ts.
-- - Prelude: Boolean tests, lists, text as UTF-16 code units, and the language's insertion-ordered
--   `Map` as a list of entries.
--
-- Times are milliseconds as natural numbers and arguments of the operations; where the code reads the
-- clock twice the model has two times. Random ids, secrets and codes are arguments. The hash of a
-- secret (SHA-256 in the code) and `isIP` are parameters, of which nothing is assumed. Letter case is
-- that of ASCII. A loop that deletes from a map is a recursion on its entries; the eviction loop of
-- `login` has the number of entries as fuel, one more than it can use. The header block of a cached
-- response is a parameter with its size. The loop over an archive has one turn more than there are bytes,
-- of which each turn passes at least 512. SHA-256, gunzip and path joining are parameters of the tunnel.
--
-- The streams of an exchange are its events, in any order in which the platform lets them happen; `Date.parse`,
-- `toUTCString`, `URL`, `URLSearchParams` and `JSON.parse` are parameters, and dates count from the earliest one.
--
-- Not modelled: page bodies, audit lines and logs, the relay of an upgrade once it is admitted, the codecs, the
-- probe of the self-check, the reason of its own that `setListen` answers with, other file I/O, and the user
-- interface: its components, texts and page code.
pub mod Prelude
pub mod Security
pub mod Sessions
pub mod Cache
pub mod Tracker
pub mod Invites
pub mod Net
pub mod Gate
pub mod Polling
pub mod Cidr
pub mod Tunnel
pub mod Compress
pub mod Runtime
pub mod Control
pub mod Audit
pub mod Relay
pub mod Pending
pub mod Cockpit
mod Tests
pub mod Persist
pub mod Toast
