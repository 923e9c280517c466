-- ===== src/Geonsp/Client/Handshake.antt =====
-- The greeting between two nodes, and what becomes of the descriptor of the connection.
use mathlib.Core.Path.{subst}
use geo_ns_core.Common.{
  ℕ, ◌<◌, ◌≤◌, none, ◌≡◌, refl, ◌∙◌, ap, sym, ◌⊎◌, inl, inr, Bool, true, false, not, ◌||◌, Option,
  some, arith, leb, length, Bool-cases, Option-cases,
}
use geo_ns_core.Text.{Text, codes, str_eq, strn_eq}
use geo_ns_core.Socket.{SocketServer}
use geo_ns_core.Socket.Balance.{closes}
use geo_ns_core.Socket.Lifecycle.{still_held, closes-kill_socket_server}
use geo_ns_core.Socket.Opening.{
  Answers, open_on, Opened, opened, without_socket, null, connect_to_socket_server, accounted,
  obtained, connect-accounted,
}
use geo_ns_core.Json.{Json, IsLawful}
use geo_ns_core.Geonsp.{
  base_response, server_proto_response, construct_client_hello_request, max_geonsp_buffer_size,
}
use geo_ns_core.Geonsp.Client.{
  Received, lost, got, Network, received_text, ping_command, Host, undefined_host, unavailable,
  available, greeted, read_greeting, greet, on_opened, is_geons_host_available,
}

module _ {P J : Type 0} (json : Json J) (network : Network P) where
  module _ (lawful : IsLawful json) where
    greeted-success :
        (net : P) (server : SocketServer) (message : Text)
        → greeted json network net server (json.parse (server_proto_response json true message))
          ≡ available net server
    unfolding server_proto_response base_response str_eq
    greeted-success net server message =
        let named = json.set_string json.object (codes "status") (codes "success") in
        let response = base_response json true message in
        let has_status : json.has_value (some response) (codes "status") ≡ true =
          lawful.has-set_string named (codes "message") message (codes "status")
          ∙ lawful.has-set_string json.object (codes "status") (codes "success") (codes "status") in
        let has_message : json.has_value (some response) (codes "message") ≡ true =
          lawful.has-set_string named (codes "message") message (codes "message") in
        let status : json.get_string (some response) (codes "status") ≡ some (codes "success") =
          lawful.get-set_string named (codes "message") message (codes "status")
          ∙ lawful.get-set_string json.object (codes "status") (codes "success") (codes "status") in
        ap (greeted json network net server) (lawful.parse-serialize response)
        ∙ unfold greeted strn_eq in rw (has_status, has_message, status, greeted) refl

    -- A node that answers the greeting with a message of success that fits the buffer is available,
    -- when it answers to ping and a connection to it opens.
    pub is_geons_host_available-success :
        (net net' : P) (server_addr : Text) (node_gateway : ℕ) (server : SocketServer)
        (message : Text)
        → network.ping net (ping_command server_addr) ≡ true
        → connect_to_socket_server
            (network.connect net server_addr node_gateway)
            server_addr
            node_gateway
          ≡ opened server
        → network.answer net server_addr node_gateway
            (json.serialize (construct_client_hello_request json))
          ≡ (net', got (server_proto_response json true message))
        → length (server_proto_response json true message) < max_geonsp_buffer_size
        → is_geons_host_available json network net server_addr node_gateway ≡ available net' server
    is_geons_host_available-success net net' server_addr node_gateway server message up opens
          answers short =
        let fits : leb max_geonsp_buffer_size (length (server_proto_response json true message))
            ≡ false =
          ground arith in
        unfold is_geons_host_available in
        rw (up, opens) (unfold greet in rw (answers, fits) (greeted-success net' server message))

  -- An answer to the greeting whose status is not "success".
  abbrev pub Refuses : Option J → Type 0
  Refuses response =
      (status : Text) × (json.get_string response (codes "status") ≡ some status)
      × (strn_eq 7 status (codes "success") ≡ false)

  -- The node at an address and a port refuses the greeting.
  abbrev pub RefusesGreeting : P → Text → ℕ → Type 0
  RefusesGreeting net server_addr node_gateway =
      (net' : P) × (text : Text) × (network.answer net server_addr node_gateway
          (json.serialize (construct_client_hello_request json))
        ≡ (net', got text))
      × Refuses (json.parse text)

  -- The answer is lost, or does not fit its buffer with its 0, or its status is not a text.
  abbrev pub BadGreeting : P → Text → ℕ → Type 0
  BadGreeting net server_addr node_gateway =
      (net' : P) × (received : Received) × (network.answer net server_addr node_gateway
          (json.serialize (construct_client_hello_request json))
        ≡ (net', received))
      × ((received ≡ lost)
          ⊎ ((text : Text) × (received ≡ got text)
              × ((max_geonsp_buffer_size ≤ length text)
                  ⊎ (json.get_string (json.parse text) (codes "status") ≡ none))))

  -- The descriptor `n` times accounted for, or the case `R`; undefined behaviour only in the case `U`.
  abbrev pub IsKept : ℕ → ℕ → Type 0 → Type 0 → Host P → Type 0
  IsKept x n U R undefined_host = U
  IsKept x n U R (unavailable net effects) = (closes x effects ≡ n) ⊎ R
  IsKept x n U R (available net server) = (still_held x (some server) ≡ n) ⊎ R

  greeted-IsKept :
      (x : ℕ) (net : P) (server : SocketServer) (response : Option J) (U R : Type 0)
      → (json.get_string response (codes "status") ≡ none → U)
      → (Refuses response → R)
      → IsKept x (still_held x (some server)) U R (greeted json network net server response)
  greeted-IsKept x net server response U R bad refusing =
      elim (Bool-cases (
        not (json.has_value response (codes "status"))
        || not (json.has_value response (codes "message")))) [
          | inl lacks ↦ unfold greeted in rw lacks (inl (closes-kill_socket_server x server))
          | inr has ↦ elim (Option-cases (json.get_string response (codes "status"))) [
            | inl no_text ↦ unfold greeted in rw (has, no_text, greeted) (bad no_text)
            | inr (status, e) ↦ elim (Bool-cases (strn_eq 7 status (codes "success"))) [
              | inl s ↦ unfold greeted in rw (has, e, s, greeted) (inl refl)
              | inr r ↦ unfold greeted in rw (has, e, r, greeted) (inr (refusing (status, e, r)))
            ]
          ]
        ]

  read_greeting-IsKept :
      (x : ℕ) (net net' : P) (server_addr : Text) (node_gateway : ℕ) (server : SocketServer)
      (received : Received)
      → network.answer net server_addr node_gateway
          (json.serialize (construct_client_hello_request json))
        ≡ (net', received)
      → IsKept x
          (still_held x (some server))
          (BadGreeting net server_addr node_gateway)
          (RefusesGreeting net server_addr node_gateway)
          (read_greeting json network net' server (received_text received))
  read_greeting-IsKept x net net' server_addr node_gateway server lost e = (net', lost, e, inl refl)
  read_greeting-IsKept x net net' server_addr node_gateway server (got text) e =
      elim (Bool-cases (leb max_geonsp_buffer_size (length text))) [
        | inl full ↦ rw full (net', got text, e, inr (text, refl, inl (ground arith)))
        | inr fits ↦ rw fits (
            greeted-IsKept x net' server (json.parse text)
              (BadGreeting net server_addr node_gateway)
              (RefusesGreeting net server_addr node_gateway)
              (λ none_given. (net', got text, e, inr (text, refl, inr none_given)))
              (λ r. (net', text, e, r)))
      ]

  -- A socket is got before its address is read, if it is got at all.
  abbrev HasSocket : Opened → Type 0
  HasSocket without_socket = ⊥
  HasSocket (opened server) = Unit
  HasSocket (null effects) = Unit

  open_on-HasSocket :
      (server : SocketServer) (valid bound listening : Bool)
      → HasSocket (open_on server valid bound listening)
  unfolding open_on
  open_on-HasSocket server true true true = tt
  open_on-HasSocket server true true false = tt
  open_on-HasSocket server true false listening = tt
  open_on-HasSocket server false bound listening = tt

  connect-HasSocket :
      (answers : Answers) (server_addr : Text) (node_gateway : ℕ)
      → HasSocket (connect_to_socket_server answers server_addr node_gateway)
  unfolding connect_to_socket_server
  connect-HasSocket answers server_addr node_gateway = elim (Bool-cases answers.has_memory) [
    | inr full ↦ rw full tt
    | inl memory ↦ elim (Option-cases answers.socket) [
      | inl without ↦ rw (memory, without) tt
      | inr (fd, e) ↦ rw (memory, e) (open_on-HasSocket _ answers.address_valid answers.bound true)
    ]
  ]

  on_opened-IsKept :
      (x : ℕ) (net : P) (server_addr : Text) (node_gateway : ℕ) (o : Opened) (n : ℕ)
      → HasSocket o
      → accounted x o ≡ n
      → IsKept x n
          (BadGreeting net server_addr node_gateway)
          (RefusesGreeting net server_addr node_gateway)
          (on_opened json network net server_addr node_gateway o)
  on_opened-IsKept x net server_addr node_gateway (opened server) n has e =
      subst
        (λ m.
          IsKept x m (BadGreeting net server_addr node_gateway)
            (RefusesGreeting net server_addr node_gateway)
            (on_opened json network net server_addr node_gateway (opened server)))
        e (unfold greet in read_greeting-IsKept x net _ server_addr node_gateway server _ refl)
  on_opened-IsKept x net server_addr node_gateway without_socket n has e = absurd has
  on_opened-IsKept x net server_addr node_gateway (null effects) n has e = inl e

  host_opened :
      (net : P) (server_addr : Text) (node_gateway : ℕ)
      → network.ping net (ping_command server_addr) ≡ true
      → is_geons_host_available json network net server_addr node_gateway
        ≡ on_opened json network net server_addr node_gateway (
            connect_to_socket_server
              (network.connect net server_addr node_gateway)
              server_addr
              node_gateway)
  host_opened net server_addr node_gateway up = unfold is_geons_host_available in rw up refl

  -- When the node answers to ping and there is memory, the descriptor that is got for the greeting is held
  -- by the server that is given, or closed once; or the node has answered the greeting with another status than "success".
  -- The code runs into undefined behaviour only when no answer is received, when the answer fills its
  -- buffer, or when its status is not a text.
  pub is_geons_host_available-IsKept :
      (x : ℕ) (net : P) (server_addr : Text) (node_gateway : ℕ) (socket : Option ℕ)
      (valid bound listening : Bool)
      → network.ping net (ping_command server_addr) ≡ true
      → network.connect net server_addr node_gateway ≡ record {
        has_memory = true;
        socket = socket;
        address_valid = valid;
        bound = bound;
        listening = listening;
      }
      → IsKept x
          (obtained x socket)
          (BadGreeting net server_addr node_gateway)
          (RefusesGreeting net server_addr node_gateway)
          (is_geons_host_available json network net server_addr node_gateway)
  is_geons_host_available-IsKept x net server_addr node_gateway socket valid bound listening up
        answers =
      subst
        (IsKept x (obtained x socket) (BadGreeting net server_addr node_gateway)
          (RefusesGreeting net server_addr node_gateway))
        (sym (host_opened net server_addr node_gateway up))
        (on_opened-IsKept x net server_addr node_gateway _ (obtained x socket)
          (connect-HasSocket (network.connect net server_addr node_gateway) server_addr
            node_gateway)
          (ap (λ a. accounted x (connect_to_socket_server a server_addr node_gateway)) answers
            ∙ connect-accounted x socket valid bound listening server_addr node_gateway))
