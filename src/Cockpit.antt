-- ===== src/Cockpit.antt =====
-- The connection of the cockpit: src/client/cockpit-connection.ts.
pub mod Connection
pub mod Flights
