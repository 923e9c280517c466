-- ===== src/Geonsp/Tests.antt =====
-- The theorems on the protocol between nodes with a small JSON library, a database that lists the
-- statements it has executed, and one other node.
use geo_ns_core.Common.{
  Option, ℕ, suc, ◌==◌, if◌then◌else◌, ◌≡◌, refl, Bool, true, false, List, [], ◌∷◌, some, arith,
}
use geo_ns_core.Text.{Text, codes, str_eq, strn_eq}
use geo_ns_core.Text.Decimal.{decimal}
use geo_ns_core.Socket.{SocketServer, kill_socket_server}
use geo_ns_core.Socket.Opening.{Answers, obtained, opening, open_on, connect_to_socket_server}
use geo_ns_core.Socket.Addresses.{is_my_ip, is_interface}
use geo_ns_core.Db.{Sqlite, Node, db_init, db_exec, select_node, insert_new_node, nodes_of}
use geo_ns_core.Socket.Buffer.{zeros}
use geo_ns_core.Geonsp.{
  construct_client_hello_request, construct_add_node_request, construct_get_nodes_request,
  max_geonsp_buffer_size,
}
use geo_ns_core.Json.Entries.{entries_json, entries_json-IsLawful, entries_json-IsStream}
use geo_ns_core.Geonsp.{
  Environment, append_nodes, base_response, server_proto_response, server_proto_data_response,
  node_server_callback,
}
use geo_ns_core.Geonsp.Responses.{IsServed, node_server_callback-IsServed}
use geo_ns_core.Geonsp.NodeList.{Tells, server_proto_data_response-Tells}
use geo_ns_core.Geonsp.Client.{
  got, Network, exchanged, is_geons_host_available, handle_node_info_exchange,
}
use geo_ns_core.Geonsp.Client.Handshake.{
  IsKept, RefusesGreeting, BadGreeting, is_geons_host_available-IsKept,
}
use geo_ns_core.Geonsp.Client.Exchange.{learn}
use geo_ns_core.Geonsp.TwoNodes.{node_network, after_list, handle_node_info_exchange-two_nodes}

pub data Row : Type 0 where
  node_row : Row

-- A query finds one row, but for the node of `client_addr`, which is not there yet. The databases count
-- the statements they have executed.
abbrev pub client_addr : Text
client_addr = codes "10.0.0.1"

abbrev pub rows : Text → List Row
rows statement = if str_eq statement (select_node client_addr 9060) then [] else node_row ∷ []

abbrev pub store : Sqlite ℕ Row
store = record {
  exec = λ db statement. (suc db, 0);
  query = λ db statement. some (rows statement);
  column_int = λ row i. 7;
  column_text = λ row i. if i == 2 then codes "true" else codes "10.0.0.9";
}

abbrev pub env : Environment
env = record {
  has_memory = true;
  cwd = codes "/geons/";
  opens = λ path. true;
  version = codes "1";
  compile_time = codes "now";
}

-- The answers to the calls that connect on the descriptor 5.
abbrev answers : Answers
answers = record {
  has_memory = true;
  socket = some 5;
  address_valid = true;
  bound = true;
  listening = true;
}

abbrev server : SocketServer
server = record (opening 5 (codes "10.0.0.2") 9060) { buffer_size_per_client = 0 }

abbrev node_at : Text → Node
node_at server_addr = record {
  id = 1;
  server_addr = server_addr;
  node_gateway = 9060;
  status = codes "active";
}

node_server_callback-IsServed_example :
    IsServed store entries_json env 0
      (node_server_callback store entries_json env 0 client_addr (codes "{}"))
node_server_callback-IsServed_example =
    node_server_callback-IsServed store entries_json env 0 client_addr (codes "{}")

server_proto_data_response-Tells_example :
    Tells entries_json entries_json-IsLawful
      (entries_json.elements
        (entries_json.parse (
          server_proto_data_response entries_json true (codes "Successful") (
            append_nodes entries_json entries_json.array
              (node_at client_addr ∷ node_at (codes "10.0.0.2") ∷ []))))
        (codes "data"))
      (node_at client_addr ∷ node_at (codes "10.0.0.2") ∷ [])
server_proto_data_response-Tells_example =
    server_proto_data_response-Tells entries_json entries_json-IsLawful true (codes "Successful")
      (node_at client_addr ∷ node_at (codes "10.0.0.2") ∷ [])

-- A network on which every node refuses.
abbrev refusal : Text
refusal = entries_json.serialize (base_response entries_json false (codes "no"))

abbrev refusing : Network Bool
refusing = record {
  ping = λ net command. true;
  connect = λ net server_addr port. answers;
  answer = λ net server_addr port message. (net, got refusal);
  interfaces = codes "10.0.0.1" ∷ [];
}

is_geons_host_available-IsKept_example :
    IsKept entries_json refusing 5
      (obtained 5 (some 5))
      (BadGreeting entries_json refusing true (codes "10.0.0.2") 9060)
      (RefusesGreeting entries_json refusing true (codes "10.0.0.2") 9060)
      (is_geons_host_available entries_json refusing true (codes "10.0.0.2") 9060)
is_geons_host_available-IsKept_example =
    is_geons_host_available-IsKept entries_json refusing 5 true (codes "10.0.0.2") 9060 (some 5)
      true true true refl refl

abbrev other : Network (ℕ × Option Text)
other = node_network store entries_json env answers (codes "10.0.0.1" ∷ []) client_addr

handle_node_info_exchange-two_nodes_example :
    handle_node_info_exchange entries_json other store false 0
      (0, some (zeros max_geonsp_buffer_size))
      (node_at client_addr)
      (node_at (codes "10.0.0.2"))
      true
    ≡ exchanged
        (
          5,
          some (
              after_list entries_json entries_json-IsLawful entries_json-IsStream store store env
                answers
                (codes "10.0.0.1" ∷ [])
                client_addr
                (zeros max_geonsp_buffer_size)
                9060),
        )
        (learn entries_json other store entries_json-IsLawful false 0
          (nodes_of store (node_row ∷ [])))
        (kill_socket_server (some server))
        1
unfolding server_proto_response base_response server_proto_data_response append_nodes nodes_of
    connect_to_socket_server open_on db_init db_exec insert_new_node is_my_ip is_interface
    construct_client_hello_request construct_add_node_request construct_get_nodes_request str_eq
    strn_eq decimal
handle_node_info_exchange-two_nodes_example =
    handle_node_info_exchange-two_nodes entries_json entries_json-IsLawful entries_json-IsStream
      store store env answers (codes "10.0.0.1" ∷ []) client_addr false 0 0 2 3 5 (node_row ∷ []) 1
      (node_at client_addr) (node_at (codes "10.0.0.2")) true server refl refl refl (omega arith)
      refl (omega arith) refl refl refl refl (omega arith) (omega arith) (omega arith) (omega arith)
      (omega arith) (omega arith) (omega arith)
