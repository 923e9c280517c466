-- ===== src/Geonsp/Gateway/Clients/Answers.antt =====
-- What the clients of the node gateway are answered.
use geo_ns_core.Common.{
  ℕ, ◌+◌, ◌≤◌, ◌≡◌, ◌≢◌, refl, List, [], ◌∷◌, ◌++◌, Option, none, some, ◌==◌, if◌then◌else◌, arith,
  Bool-cases, inl, inr, ◌∙◌, ap,
}
use geo_ns_core.Text.{Text}
use geo_ns_core.Socket.{CallbackResult, failed, success, other}
use geo_ns_core.Socket.Buffer.{peeked}
use geo_ns_core.Db.{Sqlite}
use geo_ns_core.Json.{Json}
use geo_ns_core.Geonsp.{
  Effect, connected_database, disconnected_database, responded, Served, undefined, exits, served,
  Environment,
}
use geo_ns_core.Geonsp.Responses.{IsReply, IsServed, node_server_callback-IsServed}
use geo_ns_core.Geonsp.Gateway.{called, gateway_round}
use geo_ns_core.Geonsp.Gateway.Clients.{
  Client, Gateway, Event, accepts, speaks, leaves, Run, undefined_run, exits_run, runs, buffer_of,
  set_buffer_of, without_client, tagged, accept_client, end_client, after_message, with_effects,
  after_event, message_to, gateway_event, run_gateway,
}

abbrev pub one : ℕ → ℕ → ℕ
one fd g = if g == fd then 1 else 0

-- The messages that are sent to a client.
abbrev pub answers : ℕ → List (ℕ × Effect) → ℕ
answers fd [] = 0
answers fd ((g, responded text) ∷ es) = (if g == fd then 1 else 0) + answers fd es
answers fd ((g, connected_database) ∷ es) = answers fd es
answers fd ((g, disconnected_database) ∷ es) = answers fd es

-- The messages of a client among the events.
abbrev pub said : ℕ → Event → ℕ
said fd (speaks g message) = one fd g
said fd (accepts g client_addr) = 0
said fd (leaves g) = 0

abbrev pub spoken : ℕ → List Event → ℕ
spoken fd [] = 0
spoken fd (event ∷ events) = said fd event + spoken fd events

-- The descriptor is not given to another client.
abbrev pub IsKept : ℕ → Event → Type 0
IsKept fd (accepts g client_addr) = g ≢ fd
IsKept fd (speaks g message) = Unit
IsKept fd (leaves g) = Unit

abbrev pub IsSteady : ℕ → List Event → Type 0
IsSteady fd [] = Unit
IsSteady fd (event ∷ events) = IsKept fd event × IsSteady fd events

abbrev pub IsClient : ℕ → List Client → Type 0
IsClient fd cs = buffer_of fd cs ≢ none

answers-append :
    (fd : ℕ) (xs ys : List (ℕ × Effect)) → answers fd (xs ++ ys) ≡ answers fd xs + answers fd ys
answers-append fd [] ys = omega arith
answers-append fd ((g, responded text) ∷ xs) ys = omega (arith, answers-append fd xs ys)
answers-append fd ((g, connected_database) ∷ xs) ys = answers-append fd xs ys
answers-append fd ((g, disconnected_database) ∷ xs) ys = answers-append fd xs ys

without-IsClient :
    (fd g : ℕ) (cs : List Client) → IsClient fd (without_client g cs) → IsClient fd cs
unfolding buffer_of without_client
without-IsClient fd g [] h = h
without-IsClient fd g (c ∷ cs) h = ground (arith, without-IsClient fd g cs)

set-IsClient :
    (fd g : ℕ) (buffer : Text) (cs : List Client)
    → IsClient fd (set_buffer_of g buffer cs)
    → IsClient fd cs
unfolding buffer_of set_buffer_of
set-IsClient fd g buffer [] h = h
set-IsClient fd g buffer (c ∷ cs) h = ground (arith, set-IsClient fd g buffer cs)

module _ {W Row J : Type 0} (sqlite : Sqlite W Row) (json : Json J) (env : Environment) where
  answers-reply :
      (before after : W) (fd g : ℕ) (effects : List Effect) (result : CallbackResult)
      → IsReply sqlite json env before after effects result
      → answers fd (tagged g effects) ≡ one fd g
  answers-reply before after fd g [] result h = absurd h
  answers-reply before after fd g (responded t ∷ []) success h = omega arith
  answers-reply before after fd g (responded t ∷ []) failed h = omega arith
  answers-reply before after fd g (connected_database ∷ responded t ∷ []) success h = omega arith
  answers-reply before after fd g (connected_database ∷ disconnected_database ∷ responded t ∷ [])
        success h =
      omega arith
  answers-reply before after fd g _ _ h = absurd h

  -- What a client is answered goes with what it has said.
  abbrev IsAnswered : ℕ → List Client → ℕ → Type 0 → Run W → Type 0
  IsAnswered fd cs said steady undefined_run = Unit
  IsAnswered fd cs said steady exits_run = Unit
  IsAnswered fd cs said steady (runs end effects) =
      (answers fd effects ≤ said)
      × (steady → IsClient fd end.clients → IsClient fd cs × (answers fd effects ≡ said))

  called-IsServed :
      (store : W) (client_addr : Text) (found : Option Text)
      → IsServed sqlite json env store (called sqlite json env client_addr store found)
  called-IsServed store client_addr none = tt
  called-IsServed store client_addr (some text) =
      node_server_callback-IsServed sqlite json env store client_addr text

  round-IsServed :
      (store : W) (client_addr buffer message : Text)
      → IsServed sqlite json env store
          (gateway_round sqlite json env client_addr store buffer message)
  round-IsServed store client_addr buffer message =
      unfold gateway_round in called-IsServed store client_addr _

  after_message-IsAnswered :
      (gateway : Gateway W) (fd g : ℕ) (buffer : Text) (outcome : Served W)
      → IsServed sqlite json env gateway.store outcome
      → IsAnswered fd gateway.clients (one fd g) Unit (after_message gateway g buffer outcome)
  after_message-IsAnswered gateway fd g buffer undefined h = tt
  after_message-IsAnswered gateway fd g buffer exits h = tt
  after_message-IsAnswered gateway fd g buffer (served store effects failed) h =
      let count = answers-reply gateway.store store fd g effects failed h in
      (
        omega arith,
        λ steady client. (unfold end_client in without-IsClient fd g gateway.clients client, count),
      )
  after_message-IsAnswered gateway fd g buffer (served store effects success) h =
      let count = answers-reply gateway.store store fd g effects success h in
      (omega arith, λ steady client. (set-IsClient fd g buffer gateway.clients client, count))
  after_message-IsAnswered gateway fd g buffer (served store effects other) h =
      let count = answers-reply gateway.store store fd g effects other h in
      (omega arith, λ steady client. (set-IsClient fd g buffer gateway.clients client, count))

  message_to-IsAnswered :
      (gateway : Gateway W) (fd g : ℕ) (message : Text) (found : Option Text)
      → buffer_of g gateway.clients ≡ found
      → IsAnswered fd gateway.clients
          (one fd g)
          Unit
          (message_to sqlite json env gateway g message found)
  message_to-IsAnswered gateway fd g message none e = (
    omega arith,
    λ steady client. (
      client,
      elim (Bool-cases (g == fd)) [
        | inl same ↦ absurd (client (ap (λ i. buffer_of i gateway.clients) (ground arith) ∙ e))
        | inr differs ↦ rw differs refl
      ],
    ),
  )
  message_to-IsAnswered gateway fd g message (some buffer) e =
      after_message-IsAnswered gateway fd g (peeked buffer message) _
        (round-IsServed gateway.store gateway.client_addr buffer message)

  accept-IsClient :
      (gateway : Gateway W) (fd g : ℕ) (client_addr : Text)
      → g ≢ fd
      → IsClient fd (accept_client gateway g client_addr).clients
      → IsClient fd gateway.clients
  unfolding accept_client buffer_of
  accept-IsClient gateway fd g client_addr ne h = ground arith

  gateway_event-IsAnswered :
      (gateway : Gateway W) (fd : ℕ) (event : Event)
      → IsAnswered fd gateway.clients
          (said fd event)
          (IsKept fd event)
          (gateway_event sqlite json env gateway event)
  unfolding gateway_event
  gateway_event-IsAnswered gateway fd (accepts g client_addr) =
      (omega arith, λ steady client. (accept-IsClient gateway fd g client_addr steady client, refl))
  gateway_event-IsAnswered gateway fd (speaks g message) =
      message_to-IsAnswered gateway fd g message (buffer_of g gateway.clients) refl
  gateway_event-IsAnswered gateway fd (leaves g) = (
    omega arith,
    λ steady client. (unfold end_client in without-IsClient fd g gateway.clients client, refl),
  )

  with_effects-IsAnswered :
      (fd : ℕ) (cs : List Client) (here there : ℕ) (kept steady : Type 0) (after : Gateway W)
      (effects : List (ℕ × Effect)) (rest : Run W)
      → IsAnswered fd cs here kept (runs after effects)
      → IsAnswered fd after.clients there steady rest
      → IsAnswered fd cs (here + there) (kept × steady) (with_effects effects rest)
  with_effects-IsAnswered fd cs here there kept steady after effects undefined_run h k = tt
  with_effects-IsAnswered fd cs here there kept steady after effects exits_run h k = tt
  with_effects-IsAnswered fd cs here there kept steady after effects (runs end effects') (le, h)
        (le', k) =
      let split = answers-append fd effects effects' in
      (
        omega (arith, split),
        (λ s client.
            let (still, rest) = k s.1 client in
            let (first, now) = h s.0 still in (first, omega (arith, split))),
      )

  after_event-IsAnswered :
      (fd : ℕ) (cs : List Client) (here there : ℕ) (kept steady : Type 0) (outcome : Run W)
      (next : Gateway W → Run W)
      → IsAnswered fd cs here kept outcome
      → ((after : Gateway W) → IsAnswered fd after.clients there steady (next after))
      → IsAnswered fd cs (here + there) (kept × steady) (after_event outcome next)
  after_event-IsAnswered fd cs here there kept steady undefined_run next h k = tt
  after_event-IsAnswered fd cs here there kept steady exits_run next h k = tt
  after_event-IsAnswered fd cs here there kept steady (runs after effects) next h k =
      with_effects-IsAnswered fd cs here there kept steady after effects (next after) h (k after)

  run_gateway-IsAnswered :
      (gateway : Gateway W) (fd : ℕ) (events : List Event)
      → IsAnswered fd gateway.clients
          (spoken fd events)
          (IsSteady fd events)
          (run_gateway sqlite json env gateway events)
  unfolding run_gateway
  run_gateway-IsAnswered gateway fd [] = (omega arith, λ steady client. (client, refl))
  run_gateway-IsAnswered gateway fd (event ∷ events) =
      after_event-IsAnswered fd gateway.clients (said fd event) (spoken fd events) (IsKept fd event)
        (IsSteady fd events) (gateway_event sqlite json env gateway event) _
        (gateway_event-IsAnswered gateway fd event)
        (λ after. run_gateway-IsAnswered after fd events)

  -- In a run of the gateway that comes to its end, a client that is connected at the end, and whose
  -- descriptor no other client has got, was connected at the start and has been sent exactly one
  -- message for each of its own.
  pub run_gateway-answers :
      (gateway end : Gateway W) (fd : ℕ) (events : List Event) (effects : List (ℕ × Effect))
      → run_gateway sqlite json env gateway events ≡ runs end effects
      → IsSteady fd events
      → IsClient fd end.clients
      → (answers fd effects ≡ spoken fd events) × IsClient fd gateway.clients
  run_gateway-answers gateway end fd events effects e steady client =
      let (most, each) = rw e at (run_gateway-IsAnswered gateway fd events) in
      let (first, count) = each steady client in (count, first)

  -- No client is sent more messages than it has said, whether its thread goes on or has ended.
  run_gateway-answers_most :
      (gateway end : Gateway W) (fd : ℕ) (events : List Event) (effects : List (ℕ × Effect))
      → run_gateway sqlite json env gateway events ≡ runs end effects
      → answers fd effects ≤ spoken fd events
  run_gateway-answers_most gateway end fd events effects e =
      let (most, each) = rw e at (run_gateway-IsAnswered gateway fd events) in most
