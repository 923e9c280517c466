-- ===== src/Geonsp/Gateway/Behind.antt =====
-- What stands behind a message in the buffer of a client's thread.
use geo_ns_core.Common.{◌<◌, ◌≡◌, ap, ◌++◌, length, drop}
use geo_ns_core.Text.{Text, HasNoNul}
use geo_ns_core.Socket.Buffer.{peeked, Holds, c_string-Holds, peeked-Holds}
use geo_ns_core.Db.{Sqlite}
use geo_ns_core.Json.{Json}
use geo_ns_core.Geonsp.{Environment, node_server_callback}
use geo_ns_core.Geonsp.Gateway.{called, gateway_round}

module _ {W Row J : Type 0} (sqlite : Sqlite W Row) (json : Json J) (env : Environment)
    (client_addr : Text) where
  -- The callback reads a message that has no 0 and is shorter than the buffer together with what
  -- the string in the buffer has behind the message's length, and this is the buffer's string
  -- afterwards: a message that is shorter than the one before it is followed by the rest of that
  -- one.
  pub gateway_round-behind :
      (store : W) (buffer text message : Text)
      → Holds buffer text
      → HasNoNul message
      → length message < length buffer
      → (gateway_round sqlite json env client_addr store buffer message
          ≡ node_server_callback sqlite json env store client_addr
              (message ++ drop (length message) text))
        × Holds (peeked buffer message) (message ++ drop (length message) text)
  gateway_round-behind store buffer text message holds no_nul short =
      let after = peeked-Holds text message holds no_nul short in
      (
        unfold gateway_round in
            ap (called sqlite json env client_addr store)
              (c_string-Holds (message ++ drop (length message) text) after),
        after,
      )
