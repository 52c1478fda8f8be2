-- ===== src/Viewer/Run/Advance.antt =====
-- A round of the viewer while packets come in: it handles what it can and reads what is there.
use nxdb.Common.{
  ℕ, ◌+◌, ◌-◌, ◌≤◌, ◌<◌, ◌≡◌, ◌≢◌, refl, ap, ◌∙◌, Bool, List, ◌++◌, All, Option, some, arith,
  length, take, drop, min, length-take, length-drop, append_assoc, take-append-drop, write_at,
}
use native.Mathlib.Decide.{ℕ_discrete}
use nxdb.Wire.{Packet}
use nxdb.Server.Delivery.{socket_blocked, socket_arrived}
use nxdb.Draw.{Floats}
use nxdb.Viewer.Run.{Inbox, Viewer, Env, inbox_capacity, receive, read_socket, take_in}
use nxdb.Viewer.Link.{Link}
use nxdb.Viewer.Run.Buffer.{waiting, waiting-filled, filled-IsOrderly}
use nxdb.Viewer.Run.Arrival.{IsStill, arriving, serve, IsReadable, Waits, Handled, handle_first}

module _ (f : Floats) (float_eq : ℕ → ℕ → Bool) (hash : List ℕ → ℕ)
    (write : List ℕ → List ℕ → Bool × List ℕ) (e : Env (List ℕ)) where
  abbrev serves_all : List Packet → Viewer (List ℕ) → Option (Viewer (List ℕ))
  serves_all = serve f float_eq hash write e

  abbrev Waiting : Viewer (List ℕ) → Viewer (List ℕ) → List Packet → Type 0
  Waiting = Waits f float_eq hash write e

  abbrev Readable : Packet → Type 0
  Readable = IsReadable f float_eq hash write e

  -- One round: what was done, and that the sum of bytes to come and packets waiting falls.
  pub record Advanced (k : ℕ) (v s w : Viewer (List ℕ)) (ps : List Packet) : Type 0 where
    pub next : Viewer (List ℕ)
    pub spec : Viewer (List ℕ)
    pub done : List Packet
    pub rest : List Packet
    pub returns : take_in f float_eq hash write (arriving f float_eq hash write e k) v ≡ some next
    pub waits : Waiting next spec rest
    pub splits : ps ≡ done ++ rest
    pub serves : serves_all done s ≡ some spec
    pub later : serves_all rest spec ≡ some w
    pub readable : All Readable rest
    pub state : next.link.state ≡ v.link.state
    pub progress :
        0 < k → length next.link.socket + length rest ≤ length v.link.socket + length ps - 1

  module _ (k : ℕ) (v s w : Viewer (List ℕ)) (ps : List Packet)
      (h : Handled f float_eq hash write e k v s w ps) where
    abbrev bytes : List ℕ
    bytes = h.next.link.socket

    abbrev free : ℕ
    free = inbox_capacity - h.next.inbox.buffer_size

    blocked : length (take k bytes) ≡ 0 → Advanced k v s w ps
    unfolding take_in read_socket receive
    blocked dry = record {
      next = h.next;
      spec = h.spec;
      done = h.done;
      rest = h.rest;
      returns =
          rw
            (
              take_in,
              h.returns,
              read_socket,
              socket_blocked k free bytes (omega (arith, h.room)) dry,
            )
            refl;
      waits = h.waits;
      splits = h.splits;
      serves = h.serves;
      later = h.later;
      readable = h.readable;
      state = ap (λ l. l.state) h.link;
      progress = λ q.
          omega (arith, h.fewer, h.progress, length-take k bytes, ap (λ l. length l.socket) h.link);
    }

    abbrev piece : List ℕ
    piece = take (min k free) bytes

    length-piece : h.next.inbox.buffer_size + length piece ≤ inbox_capacity
    length-piece = omega (arith, h.room, length-take (min k free) bytes)

    abbrev filled_inbox : Inbox
    filled_inbox = record (h.next.inbox) {
      buffer = write_at h.next.inbox.buffer h.next.inbox.buffer_size piece;
      buffer_size = h.next.inbox.buffer_size + length piece;
    }

    abbrev read_link : Link (List ℕ)
    read_link = record (h.next.link) { socket = drop (min k free) bytes }

    arrived : length (take k bytes) ≢ 0 → Advanced k v s w ps
    unfolding take_in read_socket receive
    arrived some_there = record {
      next = record (h.next) { inbox = filled_inbox; link = read_link };
      spec = h.spec;
      done = h.done;
      rest = h.rest;
      returns =
          rw
            (
              take_in,
              h.returns,
              read_socket,
              socket_arrived k free bytes (omega (arith, h.room)) some_there,
            )
            refl;
      waits = record {
        orderly = filled-IsOrderly h.next.inbox h.waits.orderly piece length-piece;
        stream =
            ap (λ m. m ++ drop (min k free) bytes)
              (waiting-filled h.next.inbox h.waits.orderly piece length-piece)
            ∙ append_assoc (waiting h.next.inbox) piece (drop (min k free) bytes)
            ∙ ap (◌++◌ (waiting h.next.inbox)) (take-append-drop (min k free) bytes)
            ∙ h.waits.stream;
        same =
            ap (λ (x : Viewer (List ℕ)). record x { inbox = filled_inbox; link = read_link })
              h.waits.same;
      };
      splits = h.splits;
      serves = h.serves;
      later = h.later;
      readable = h.readable;
      state = ap (λ l. l.state) h.link;
      progress = λ q. omega (
        arith,
        h.fewer,
        h.room,
        length-take k bytes,
        length-drop (min k free) bytes,
        ap (λ l. length l.socket) h.link,
      );
    }

  pub advance :
      IsStill f float_eq hash write e
      → (k : ℕ) (v s w : Viewer (List ℕ)) (ps : List Packet) → Waiting v s ps
      → serves_all ps s ≡ some w
      → All Readable ps
      → Advanced k v s w ps
  advance still k v s w ps h served ok =
      let first = handle_first f float_eq hash write e still k v s w ps h served ok in
      elim (ℕ_discrete (length (take k first.next.link.socket)) 0) [
        | yes dry ↦ blocked k v s w ps first dry
        | no there ↦ arrived k v s w ps first there
      ]
