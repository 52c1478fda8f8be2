-- ===== src/Server/Delivery.antt =====
-- Whole runs of `handleEvent` over a stream of packets.
use nxdb.Common.{
  ℕ, ◌+◌, ◌-◌, ◌≤◌, ◌<◌, ◌≡◌, refl, sym, ap, ◌∙◌, false, List, [], ◌∷◌, ◌++◌, All, Option, none,
  some, arith, length, take, drop, min, ◌≢◌, write_at, if◌then◌else◌, length-append, length-take,
  length-drop, append_assoc, take-append-drop, eq_nil, append-nil,
}
use native.Mathlib.Decide.{ℕ_discrete}
use nxdb.Wire.{Packet}
use nxdb.Server.{State, World, would_block, received, handle_event, receive, buffer_capacity}
use nxdb.Server.Framing.{pending, pending-filled, filled-IsValid}
use nxdb.Server.Effects.{IsServable, effect}
use nxdb.Server.Arrival.{serve, wire, socket, Waits, Handled, handle_first}

-- One event: what was done, and that the sum of bytes to come and packets waiting falls.
record Advanced (now k : ℕ) (s : State) (bs : List ℕ) (ps : List Packet) : Type 0 where
  next : State
  left : List ℕ
  done : List Packet
  rest : List Packet
  returns : handle_event now (socket k bs) s ≡ some (next, false, left)
  waits : Waits next left rest
  splits : ps ≡ done ++ rest
  serves : next.world ≡ serve done s.world
  servable : All IsServable rest
  progress : 0 < k → length left + length rest ≤ length bs + length ps - 1

pub socket_blocked :
    (k n : ℕ) (bs : List ℕ) → 0 < n → length (take k bs) ≡ 0 → socket k bs n ≡ (would_block, bs)
unfolding socket
socket_blocked k n bs h e = ground arith

pub socket_arrived :
    (k n : ℕ) (bs : List ℕ)
    → 0 < n
    → length (take k bs) ≢ 0
    → socket k bs n ≡ (received (take (min k n) bs), drop (min k n) bs)
unfolding socket
socket_arrived k n bs h e = ground arith

module _ (now k : ℕ) (s : State) (bs : List ℕ) (ps : List Packet) (h : Handled now s bs ps) where
  abbrev free : ℕ
  free = buffer_capacity - h.next.conn.buffer_size

  blocked : length (take k bs) ≡ 0 → Advanced now k s bs ps
  unfolding handle_event receive
  blocked e = record {
    next = h.next;
    left = bs;
    done = h.done;
    rest = h.rest;
    returns = rw (h.returns, handle_event, socket_blocked k free bs (omega (arith, h.room)) e) refl;
    waits = h.waits;
    splits = h.splits;
    serves = h.serves;
    servable = h.servable;
    progress = λ q. omega (arith, h.fewer, h.progress, length-take k bs);
  }

  abbrev piece : List ℕ
  piece = take (min k free) bs

  length-piece : h.next.conn.buffer_size + length piece ≤ buffer_capacity
  length-piece = omega (arith, h.room, length-take (min k free) bs)

  arrived : length (take k bs) ≢ 0 → Advanced now k s bs ps
  unfolding handle_event receive
  arrived e = record {
    next = record (h.next) {
      conn = record (h.next.conn) {
        buffer = write_at h.next.conn.buffer h.next.conn.buffer_size piece;
        buffer_size = h.next.conn.buffer_size + length piece;
      };
    };
    left = drop (min k free) bs;
    done = h.done;
    rest = h.rest;
    returns = rw (h.returns, handle_event, socket_arrived k free bs (omega (arith, h.room)) e) refl;
    waits = record {
      valid = filled-IsValid h.next.conn h.waits.valid piece length-piece;
      stream =
          ap (λ m. m ++ drop (min k free) bs)
            (pending-filled h.next.conn h.waits.valid piece length-piece)
          ∙ append_assoc (pending h.next.conn) piece (drop (min k free) bs)
          ∙ ap (◌++◌ (pending h.next.conn)) (take-append-drop (min k free) bs)
          ∙ h.waits.stream;
    };
    splits = h.splits;
    serves = h.serves;
    servable = h.servable;
    progress = λ q. omega (arith, h.fewer, h.room, length-take k bs, length-drop (min k free) bs);
  }

advance :
    (now k : ℕ) (s : State) (bs : List ℕ) (ps : List Packet)
    → Waits s bs ps
    → All IsServable ps
    → Advanced now k s bs ps
advance now k s bs ps w ok =
    let h = handle_first now s bs ps w ok in
    elim (ℕ_discrete (length (take k bs)) 0) [
      | yes e ↦ blocked now k s bs ps h e
      | no e ↦ arrived now k s bs ps h e
    ]

serve-append : (ps qs : List Packet) (w : World) → serve qs (serve ps w) ≡ serve (ps ++ qs) w
unfolding serve
serve-append [] qs w = refl
serve-append (p ∷ ps) qs w = serve-append ps qs (effect p.type p.body w)

-- Events at the times `now`, each with at most `k` bytes there. An event that drops the connection is
-- the last one.
unfoldable pub events : List (ℕ × ℕ) → List ℕ → State → Option (State × List ℕ)
events [] bs s = some (s, bs)
events ((now, k) ∷ ks) bs s = elim (handle_event now (socket k bs) s) [
  | none ↦ none
  | some (t, gone, left) ↦ let more = events ks left t in if gone then some (t, left) else more
]

-- The outcome of a run: what has been done is a prefix of what was sent, the rest waits.
pub record Delivered (ks : List (ℕ × ℕ)) (s : State) (bs : List ℕ) (ps : List Packet) : Type 0 where
  pub last : State
  pub left : List ℕ
  pub done : List Packet
  pub rest : List Packet
  pub returns : events ks bs s ≡ some (last, left)
  pub waits : Waits last left rest
  pub splits : ps ≡ done ++ rest
  pub serves : last.world ≡ serve done s.world
  pub progress :
      All (λ e. 0 < e.1) ks → length left + length rest ≤ length bs + length ps - length ks

-- A valid connection in whose buffer and socket a sequence of servable packets waits: on any
-- schedule of events, with the bytes there cut into pieces in any way, the connection stays open,
-- and what has been done is the effects of a prefix of the packets, in order and once each; the
-- rest of them is in the buffer and on the wire. While bytes keep coming, each event moves it on.
pub deliver :
    (ks : List (ℕ × ℕ)) (s : State) (bs : List ℕ) (ps : List Packet)
    → Waits s bs ps
    → All IsServable ps
    → Delivered ks s bs ps
unfolding events serve
deliver [] s bs ps w ok = record {
  last = s;
  left = bs;
  done = [];
  rest = ps;
  returns = refl;
  waits = w;
  splits = refl;
  serves = refl;
  progress = λ h. omega arith;
}
deliver ((now, k) ∷ ks) s bs ps w ok =
    let a = advance now k s bs ps w ok in
    let d = deliver ks a.next a.left a.rest a.waits a.servable in
    record {
      last = d.last;
      left = d.left;
      done = a.done ++ d.done;
      rest = d.rest;
      returns = rw (a.returns, events) d.returns;
      waits = d.waits;
      splits = a.splits ∙ ap (◌++◌ a.done) d.splits ∙ sym (append_assoc a.done d.done d.rest);
      serves = d.serves ∙ ap (serve d.done) a.serves ∙ serve-append a.done d.done s.world;
      progress = λ h. omega (arith, a.progress h.0, d.progress h.1);
    }

-- With bytes there at every event, as many events as there are bytes and packets do everything.
pub deliver_total :
    (ks : List (ℕ × ℕ)) (s : State) (bs : List ℕ) (ps : List Packet)
    → Waits s bs ps
    → All IsServable ps
    → All (λ e. 0 < e.1) ks
    → length bs + length ps ≤ length ks
    → (t : State) × (events ks bs s ≡ some (t, []))
      × (t.world ≡ serve ps s.world)
      × (pending t.conn ≡ [])
unfolding wire
deliver_total ks s bs ps w ok live enough =
    let d = deliver ks s bs ps w ok in
    let none_left : d.left ≡ [] = eq_nil d.left (omega (arith, d.progress live)) in
    let none_waits : d.rest ≡ [] = eq_nil d.rest (omega (arith, d.progress live)) in
    let dry : pending d.last.conn ++ d.left ≡ [] = d.waits.stream ∙ ap wire none_waits in
    let empty : length (pending d.last.conn) ≡ 0 =
      omega (arith, ap length dry, length-append (pending d.last.conn) d.left) in
    (
      d.last,
      d.returns ∙ ap (λ l. some (d.last, l)) none_left,
      d.serves
          ∙ ap (λ q. serve q s.world)
              (sym (d.splits ∙ ap (◌++◌ d.done) none_waits ∙ append-nil d.done)),
      eq_nil (pending d.last.conn) empty,
    )
