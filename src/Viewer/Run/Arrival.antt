-- ===== src/Viewer/Run/Arrival.antt =====
-- Packets that come in at the viewer in pieces: what the first part of a round, which handles one, does.
use nxdb.Common.{
  ℕ, ◌+◌, ◌-◌, ◌≤◌, ◌<◌, ◌≡◌, refl, sym, ap, ap₂, ◌∙◌, subst, inl, inr, Bool, false, ◌||◌,
  if◌then◌else◌, List, [], ◌∷◌, ◌++◌, All, Option, none, some, arith, length, take, drop, le→leb,
  Option-cases, length-append,
}
use nxdb.Wire.{Packet, PacketType, IsNamed, font_texture, draw_data, set_clipboard_text, encode}
use nxdb.Server.Framing.{next_packet}
use nxdb.Server.RoundTrip.{IsSendable, split_stream, length-encode}
use nxdb.Server.Arrival.{wire, socket}
use nxdb.Draw.{Floats, DrawList}
use nxdb.Draw.Unpack.{unpack}
use nxdb.Viewer.Link.{Link}
use nxdb.Viewer.Run.{
  Inbox, Viewer, Env, inbox_capacity, read_inbox_header, inbox_whole, take_out, handle_packet, show,
  render, send_all, draw, set_cursor, handle_inbox,
}
use nxdb.Viewer.Run.Buffer.{
  waiting, IsOrderly, length-waiting, read_inbox_header-IsOrderly, take_out-IsOrderly,
}
use nxdb.Viewer.Run.Packets.{with_header, incomplete, complete, body_first, waiting-take_out}
use nxdb.Viewer.Run.Rounds.{finish_packet-take_out}

module _ (f : Floats) (float_eq : ℕ → ℕ → Bool) (hash : List ℕ → ℕ)
    (write : List ℕ → List ℕ → Bool × List ℕ) (e : Env (List ℕ)) where
  abbrev pub V : Type 0
  V = Viewer (List ℕ)

  abbrev pub handle : PacketType → List ℕ → V → Option V
  handle = handle_packet f float_eq hash write e

  -- The socket holds the bytes that are still to come, at most `k` of which are there.
  abbrev pub arriving : ℕ → Env (List ℕ)
  arriving k = record e { recv = λ n bs. socket k bs n }

  -- What the packets do, each on its own body.
  unfoldable pub serve : List Packet → V → Option V
  serve [] v = some v
  serve (p ∷ ps) v = elim (handle p.type p.body v) [ none ↦ none | some u ↦ serve ps u ]

  -- A packet that fits the receive buffer, and whose handler does not read behind its body.
  pub record IsReadable (p : Packet) : Type 0 where
    pub named : IsNamed p.type
    pub fits : length p.body + 8 ≤ inbox_capacity
    pub self_contained :
        (v u : V) (behind : List ℕ)
        → handle p.type p.body v ≡ some u
        → handle p.type (p.body ++ behind) v ≡ some u

  abbrev pub on : V → Inbox → Link (List ℕ) → V
  on s b l = record s { inbox = b; link = l }

  -- No callback sends anything while a frame is shown, and the window stays.
  pub record IsStill : Type 0 where
    pub unpolled : e.polled ≡ []
    pub stays : e.closing ≡ false

  -- Showing a frame, without callbacks.
  pub show-still :
      (env : Env (List ℕ)) (cursor : ℕ) (ls : List DrawList) (v : V)
      → env.polled ≡ []
      → env.closing ≡ false
      → show f float_eq hash write env cursor ls v
        ≡ some (record v {
          prev = some ls;
          effects =
              (if env.iconified then v.effects else v.effects ++ draw ls ∷ [])
              ++ set_cursor cursor ∷ [];
        })
  unfolding show render send_all
  show-still env cursor ls v unpolled stays =
      let alive : v.dead || false ≡ v.dead = ground arith in
      rw (show, render, unpolled, stays, alive) refl

  -- The handlers do not look at the buffer and the connection, nor at the socket's answer.
  handle-on :
      IsStill
      → (k : ℕ) (t : PacketType) (m : List ℕ) (s u : V) (b : Inbox) (l : Link (List ℕ))
      → handle t m s ≡ some u
      → handle_packet f float_eq hash write (arriving k) t m (on s b l) ≡ some (on u b l)
  unfolding handle_packet show
  handle-on still k font_texture m s u b l h = ground arith
  handle-on still k draw_data m s u b l h = elim (Option-cases (unpack f s.display s.prev m)) [
    | inl fault ↦ absurd (ground arith)
    | inr ((cursor, ls), reads) ↦ ground (
      arith,
      reads,
      show-still e cursor ls s still.unpolled still.stays,
      show-still (arriving k) cursor ls (on s b l) still.unpolled still.stays,
    )
  ]
  handle-on still k set_clipboard_text m s u b l h = ground arith
  handle-on still k _ m s u b l h = ground arith

  -- `ps` are all that stands in the buffer and is still to come, and, but for those, the viewer is `s`.
  pub record Waits (v s : V) (ps : List Packet) : Type 0 where
    pub orderly : IsOrderly v.inbox
    pub stream : waiting v.inbox ++ v.link.socket ≡ wire ps
    pub same : v ≡ on s v.inbox v.link

  -- After the first part of a round there is room in the buffer, and a packet that was there in whole is
  -- done.
  pub record Handled (k : ℕ) (v s w : V) (ps : List Packet) : Type 0 where
    pub next : V
    pub spec : V
    pub done : List Packet
    pub rest : List Packet
    pub returns : handle_inbox f float_eq hash write (arriving k) v ≡ some (next, false)
    pub waits : Waits next spec rest
    pub splits : ps ≡ done ++ rest
    pub serves : serve done s ≡ some spec
    pub later : serve rest spec ≡ some w
    pub room : next.inbox.buffer_size < inbox_capacity
    pub readable : All IsReadable rest
    pub progress : length v.link.socket ≡ 0 → length rest ≤ length ps - 1
    pub fewer : length rest ≤ length ps
    pub link : next.link ≡ v.link

  module _ (still : IsStill) (k : ℕ) (v s w : V) where
    nothing-Handled :
        (ps : List Packet)
        → Waits v s ps
        → serve ps s ≡ some w
        → All IsReadable ps
        → next_packet (waiting v.inbox) ≡ none
        → v.inbox.buffer_size < inbox_capacity
        → (length v.link.socket ≡ 0 → length ps ≡ 0)
        → Handled k v s w ps
    unfolding handle_inbox serve
    nothing-Handled ps h served ok none_there room idle =
        let b = read_inbox_header v.inbox in
        let (orderly, memory, size) = read_inbox_header-IsOrderly v.inbox h.orderly in
        record {
          next = record v { inbox = b };
          spec = s;
          done = [];
          rest = ps;
          returns = rw (handle_inbox, incomplete v.inbox h.orderly none_there) refl;
          waits = record {
            orderly = orderly;
            stream = ap₂ (λ m n. take n m ++ v.link.socket) memory size ∙ h.stream;
            same = ap (λ (x : V). record x { inbox = b }) h.same;
          };
          splits = refl;
          serves = refl;
          later = served;
          room = omega (arith, size);
          readable = ok;
          progress = λ q. omega (arith, idle q);
          fewer = omega arith;
          link = refl;
        }

    first-Handled :
        (p : Packet) (ps : List Packet) (rest : List ℕ)
        → Waits v s (p ∷ ps)
        → serve (p ∷ ps) s ≡ some w
        → IsReadable p
        → All IsReadable ps
        → next_packet (waiting v.inbox) ≡ some (p, rest)
        → rest ++ v.link.socket ≡ wire ps
        → Handled k v s w (p ∷ ps)
    unfolding handle_inbox serve inbox_whole take_out
    first-Handled p ps rest h served ok oks found joined =
        let b = with_header v.inbox in
        let there = complete v.inbox h.orderly p rest found in
        let (orderly, memory, size) = read_inbox_header-IsOrderly v.inbox h.orderly in
        let headed : IsOrderly b = subst IsOrderly there.headed orderly in
        let (behind, first) = body_first v.inbox h.orderly p rest there in
        elim (Option-cases (handle p.type p.body s)) [
          | inl fault ↦ absurd (ground arith)
          | inr (x, done) ↦
              let act = handle_packet f float_eq hash write (arriving k) in
              let handled : act b.next_packet_type (drop 8 b.buffer) (record v { inbox = b })
                  ≡ some (on x b v.link) =
                ap (λ t. act t (drop 8 b.buffer) (record v { inbox = b })) (sym there.kind)
                ∙ ap (λ m. act p.type m (record v { inbox = b })) first
                ∙ ap (λ (y : V). act p.type (p.body ++ behind) (record y { inbox = b })) h.same
                ∙ handle-on still k p.type (p.body ++ behind) s x b v.link
                    (ok.self_contained s x behind done) in
              let fits : inbox_whole b ≤ b.buffer_size = there.fits in
              let kept : serve (p ∷ ps) s ≡ serve ps x = rw (serve, done) refl in
              record {
                next = on x (take_out b) v.link;
                spec = x;
                done = p ∷ [];
                rest = ps;
                returns =
                    rw
                      (
                        handle_inbox,
                        there.headed,
                        le→leb (inbox_whole b) b.buffer_size fits,
                        handled,
                      )
                      (ap some (finish_packet-take_out (on x b v.link) headed));
                waits = record {
                  orderly = take_out-IsOrderly b headed fits;
                  stream =
                      ap (λ m. m ++ v.link.socket) (waiting-take_out v.inbox h.orderly p rest there)
                      ∙ joined;
                  same = refl;
                };
                splits = refl;
                serves = rw (serve, done) refl;
                later = sym kept ∙ served;
                room = omega (arith, h.orderly.within);
                readable = oks;
                progress = λ q. omega arith;
                fewer = omega arith;
                link = refl;
              }
        ]

    lengths :
        (xs ys : List ℕ) (p : Packet) (zs : List ℕ)
        → xs ++ ys ≡ encode p ++ zs
        → length xs + length ys ≡ length p.body + 8 + length zs
    lengths xs ys p zs joined =
        omega (
          arith,
          ap length joined,
          length-append xs ys,
          length-append (encode p) zs,
          length-encode p,
        )

    no_bytes : (xs : List ℕ) → length xs ≡ 0 → next_packet xs ≡ none
    unfolding next_packet
    no_bytes xs h = ground arith

    pub handle_first :
        (ps : List Packet)
        → Waits v s ps
        → serve ps s ≡ some w
        → All IsReadable ps
        → Handled k v s w ps
    unfolding wire
    handle_first [] h served ok =
        let empty : length (waiting v.inbox) ≡ 0 =
          omega (arith, ap length h.stream, length-append (waiting v.inbox) v.link.socket) in
        nothing-Handled [] h served ok (no_bytes (waiting v.inbox) empty)
          (omega (arith, length-waiting v.inbox h.orderly)) (λ q. refl)
    handle_first (p ∷ ps) h served ok =
        let fill = length-waiting v.inbox h.orderly in
        let total = lengths (waiting v.inbox) v.link.socket p (wire ps) h.stream in
        let sendable : IsSendable p = record {
          named = ok.0.named;
          fits = omega (arith, ok.0.fits);
        } in
        elim (split_stream p (waiting v.inbox) v.link.socket (wire ps) sendable h.stream) [
          | inl (short, none_there) ↦
              nothing-Handled (p ∷ ps) h served ok none_there
                (omega (arith, length-encode p, ok.0.fits))
                (λ q. absurd (omega (arith, length-encode p)))
          | inr (rest, found, joined) ↦ first-Handled p ps rest h served ok.0 ok.1 found joined
        ]
