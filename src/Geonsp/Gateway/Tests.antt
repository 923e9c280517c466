-- ===== src/Geonsp/Gateway/Tests.antt =====
-- The theorems on the node gateway at concrete messages.
use geo_ns_core.Common.{◌++◌, ℕ, ◌≡◌, refl, List, [], ◌∷◌, arith, true, false}
use geo_ns_core.Text.{Text, codes, str_eq, strn_eq}
use geo_ns_core.Socket.Buffer.{zeros, peeked, c_string, Holds}
use geo_ns_core.Db.{insert_new_node, db_init, db_exec}
use geo_ns_core.Json.Entries.{entries_json, entries_json-IsLawful, entries_json-IsStream}
use geo_ns_core.Geonsp.{
  Effect, connected_database, disconnected_database, responded, added_text, version_text,
  node_server_callback, construct_client_hello_request, construct_add_node_request,
  server_proto_response,
}
use geo_ns_core.Geonsp.Tests.{store, env, client_addr}
use geo_ns_core.Geonsp.Gateway.{gateway_round}
use geo_ns_core.Geonsp.Gateway.Behind.{gateway_round-behind}
use geo_ns_core.Geonsp.Gateway.Clients.{
  Gateway, Event, accepts, speaks, leaves, runs, tagged, run_gateway, gateway_event, buffer_of,
  set_buffer_of, accept_client, end_client,
}
use geo_ns_core.Geonsp.Gateway.Clients.Answers.{answers, spoken, IsClient, run_gateway-answers}
use geo_ns_core.Geonsp.Gateway.Clients.Shared.{two_clients, run_gateway-shared}

-- Four bytes over a buffer that holds five.
gateway_round-behind_example :
    (gateway_round store entries_json env client_addr 0 (codes "abcde" ++ zeros 3) (codes "1234")
      ≡ node_server_callback store entries_json env 0 client_addr (codes "1234e"))
    × Holds (peeked (codes "abcde" ++ zeros 3) (codes "1234")) (codes "1234e")
unfolding zeros
gateway_round-behind_example =
    gateway_round-behind store entries_json env client_addr 0 (codes "abcde" ++ zeros 3)
      (codes "abcde") (codes "1234")
      (
        (
          (λ e. omega arith),
          (
            (λ e. omega arith),
            ((λ e. omega arith), ((λ e. omega arith), ((λ e. omega arith), tt))),
          ),
        ),
        (2, refl),
      )
      ((λ e. omega arith), ((λ e. omega arith), ((λ e. omega arith), ((λ e. omega arith), tt))))
      (omega arith)

abbrev request : Text
request = entries_json.serialize (construct_add_node_request entries_json 9060)

run_gateway-shared_example :
    run_gateway store entries_json env
      (record { store = 0; client_addr = []; buffer_size = 4096; clients = [] })
      (accepts 7 (codes "10.0.0.1") ∷ accepts 8 (codes "10.0.0.2") ∷ speaks 7 request ∷ [])
    ≡ runs
        (two_clients
          (insert_new_node store false 2 (codes "10.0.0.2") 9060).0
          (codes "10.0.0.2")
          4096
          []
          7
          8
          (peeked (zeros 4096) request))
        (tagged 7 (
          connected_database
          ∷ disconnected_database
          ∷ responded (
              added_text store entries_json env
                (insert_new_node store false 2 (codes "10.0.0.2") 9060).1)
          ∷ []))
unfolding db_init db_exec construct_add_node_request str_eq
run_gateway-shared_example =
    run_gateway-shared store entries_json env entries_json-IsLawful entries_json-IsStream 0 2 []
      4095 [] 7 8 (codes "10.0.0.1") (codes "10.0.0.2") 9060 (λ e. omega arith) refl (omega arith)
      refl refl (omega arith) (omega arith)

-- A client that asks for the version, and another one that comes and goes.
abbrev hello : Text
hello = entries_json.serialize (construct_client_hello_request entries_json)

abbrev one_client : Gateway ℕ
one_client = record {
  store = 0;
  client_addr = [];
  buffer_size = 128;
  clients = record { fd = 7; buffer = zeros 128 } ∷ [];
}

abbrev visit : List Event
visit = speaks 7 hello ∷ accepts 8 (codes "10.0.0.2") ∷ speaks 7 hello ∷ leaves 8 ∷ []

abbrev version_answer : Effect
version_answer =
    responded (server_proto_response entries_json true (version_text store entries_json env))

run_gateway-answers_example :
    (answers 7 ((7, version_answer) ∷ (7, version_answer) ∷ []) ≡ spoken 7 visit)
    × IsClient 7 one_client.clients
unfolding run_gateway gateway_event buffer_of set_buffer_of accept_client end_client gateway_round
    peeked c_string zeros node_server_callback server_proto_response construct_client_hello_request
    str_eq strn_eq
run_gateway-answers_example =
    run_gateway-answers store entries_json env one_client
      (record one_client {
        client_addr = codes "10.0.0.2";
        clients = record { fd = 7; buffer = peeked (zeros 128) hello } ∷ [];
      })
      7 visit ((7, version_answer) ∷ (7, version_answer) ∷ []) refl
      (tt, ((λ e. omega arith), (tt, (tt, tt)))) (λ e. cc)
