-- ===== src/Net.antt =====
-- The network helpers: src/hosts.ts, src/http-util.ts, src/cidr.ts (`normalizeRemoteIp`) and
-- src/proxy-headers.ts.
pub mod Hosts
pub mod Http
pub mod Headers
pub mod Remote
pub mod Forward
pub mod Copies
pub mod Lookups
pub mod Bodies
