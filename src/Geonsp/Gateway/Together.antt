-- ===== src/Geonsp/Gateway/Together.antt =====
-- Requests that a `recv` finds together.
use geo_ns_core.Text.{Text}
use geo_ns_core.Json.{Json}
