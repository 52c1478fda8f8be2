-- ===== src/Server/Loop.antt =====
-- `Server::run`: one round of select, accept and the pass over the clients. `mClients` is a vector
-- that the pass walks by position while it erases from it.
use nxdb.Common.{
  ℕ, zero, suc, ◌+◌, ◌-◌, ◌/◌, ◌^◌, Bool, false, ◌||◌, List, [], ◌∷◌, ◌++◌, Option, none, some, ltb,
  if◌then◌else◌, length, get_elem?, set, erase_at,
}
use nxdb.Wire.{no_packet}
use nxdb.Server.{Connection, World, Recv, handle_event}

pub record Server : Type 0 where
  pub clients : List Connection
  pub world : World

-- What the system answers while one client is served: the clock before `handleEvent` and within it,
-- in nanoseconds, and the socket.
pub record Visit : Type 0 where
  pub started : ℕ
  pub handled : ℕ
  pub recv : ℕ → Recv

-- `client.handleEvent() || seconds.count() > 15`, and the connection after it. The age is that before
-- the event.
unfoldable pub visit : Visit → Connection → World → Option (Connection × World × Bool)
visit v c w =
    elim (handle_event {K = Unit {0}} v.handled (λ n. (v.recv n, tt))
      (record { conn = c; world = w })) [
        | none ↦ none
        | some (t, gone, _) ↦
            some (t.conn, t.world, gone || ltb 15 ((v.started - c.last_alive) / 10 ^ 9))
      ]

-- The pass: `left` positions of the vector as it was at the start are still to come, the next one is
-- `i`. `none` is undefined behaviour: a position behind the end of the vector as it is now.
unfoldable pub sweep : ℕ → ℕ → (ℕ → Visit) → Server → Option Server
sweep zero i env s = some s
sweep (suc left) i env s = elim (get_elem? s.clients i) [
  | none ↦ none
  | some c ↦ elim (visit (env i) c s.world) [
    | none ↦ none
    | some (c', w, drop) ↦ sweep left (i + 1) env (record {
      clients = if drop then erase_at (set s.clients i c') i else set s.clients i c';
      world = w;
    })
  ]
]

-- The answers of `select` and `accept`. A new client comes with the descriptor, the bytes that its
-- buffer happens to hold, and the time.
pub data Poll : Type 0 where
  select_error accept_error quiet : Poll
  incoming : ℕ → List ℕ → ℕ → Poll

unfoldable pub new_client : ℕ → List ℕ → ℕ → Connection
new_client fd memory now = record {
  fd = fd;
  buffer = memory;
  buffer_size = 0;
  next_packet_size = 0;
  next_packet_type = no_packet;
  last_alive = now;
  has_sent_font_texture = false;
}

pub data Round : Type 0 where
  continues : Server → Round
  aborted undefined : Round

unfoldable pub accept : Poll → Server → Option Server
unfolding new_client
accept select_error s = none
accept accept_error s = none
accept quiet s = some s
accept (incoming fd memory now) s =
    some (record s { clients = s.clients ++ new_client fd memory now ∷ [] })

-- One round of the loop of `Server::run`.
unfoldable pub round : Poll → (ℕ → Visit) → Server → Round
round p env s = elim (accept p s) [
  | none ↦ aborted
  | some t ↦ elim (sweep (length t.clients) 0 env t) [ none ↦ undefined | some u ↦ continues u ]
]
