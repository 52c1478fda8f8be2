-- ===== src/Viewer/Run/Film.antt =====
-- From the draw data that the sysmodule packs, over the bytes that come in in pieces, to what the viewer
-- shows.
mod Examples
use nxdb.Common.{
  if◌then◌else◌, ℕ, Bool, false, ◌+◌, ◌≤◌, ◌<◌, ◌≡◌, refl, sym, ap, ap₂, ◌∙◌, subst, List, [], ◌∷◌,
  ◌++◌, All, Option, none, some, map, arith, Option-cases, inl, inr, length, append-nil,
  append_assoc, c_string,
}
use mathlib.Core.Option
use nxdb.Wire.{Packet, draw_data}
use nxdb.Server.Arrival.{wire}
use nxdb.Draw.{Floats, Point, DrawList, DrawData}
use nxdb.Draw.Pack.{Hashes, Packer, pack}
use nxdb.Draw.Unpack.{unpack}
use nxdb.Draw.Codec.{shown_list}
use nxdb.Draw.Size.{lists_size, pack_size}
use nxdb.Draw.Reading.{unpack-append}
use nxdb.Draw.Frames.{IsSendable, Agree, Continues, frame_shown}
use nxdb.Viewer.Run.{
  render, send_all, run, has_no_socket, Viewer, Env, Effect, draw, set_cursor, inbox_capacity, show,
  handle_packet,
}
use nxdb.Viewer.Run.Buffer.{waiting, IsOrderly}
use nxdb.Viewer.Run.Arrival.{IsStill, show-still, arriving, serve, IsReadable}
use nxdb.Viewer.Run.Delivery.{IsQuiet, run_total}

-- The packets of frames that are packed one after the other.
unfoldable pub film : Floats → Hashes → Point → List DrawData → Packer → Option (List Packet)
film f h size [] p = some []
film f h size (d ∷ ds) p = elim (pack f h size d p) [
  | none ↦ none
  | some (bytes, q, _) ↦
      Option.map (◌∷◌ (record { type = draw_data; body = bytes })) (film f h size ds q)
]

-- What a viewer does that shows these frames.
unfoldable pub shows : Floats → Point → Point → List DrawData → List Effect
shows f from to [] = []
shows f from to (d ∷ ds) =
    draw (map (shown_list f from to) d.lists) ∷ set_cursor d.cursor ∷ shows f from to ds

-- Each frame without the memory behind it.
abbrev pub bare : List DrawData → List (DrawData × List ℕ)
bare ds = map (λ d. (d, [])) ds

-- Packed, the frame fits the receive buffer of the viewer.
abbrev pub IsSmall : DrawData → Type 0
IsSmall d = 24 + lists_size d.lists ≤ inbox_capacity

module _ (f : Floats) (float_eq : ℕ → ℕ → Bool) (hash : List ℕ → ℕ)
    (write : List ℕ → List ℕ → Bool × List ℕ) (e : Env (List ℕ)) where
  draw_data-IsReadable :
      (bytes : List ℕ)
      → length bytes + 8 ≤ inbox_capacity
      → IsReadable f float_eq hash write e (record { type = draw_data; body = bytes })
  unfolding handle_packet
  draw_data-IsReadable bytes fits = record {
    named = tt;
    fits = fits;
    self_contained = λ v u behind done. elim (Option-cases (unpack f v.display v.prev bytes)) [
      | inl fails ↦ absurd (ground arith)
      | inr ((cursor, ls), reads) ↦
          let longer = unpack-append f v.display v.prev bytes behind (cursor, ls) reads in
          rw (handle_packet, longer) (rw (handle_packet, reads) at done)
    ];
  }

  -- What the viewer is once it has shown a frame in a visible window.
  after_frame : ℕ → List DrawList → Viewer (List ℕ) → Viewer (List ℕ)
  after_frame cursor ls s = record s {
    prev = some ls;
    effects = (s.effects ++ draw ls ∷ []) ++ set_cursor cursor ∷ [];
  }

  module _ (h : Hashes) (from to : Point) (visible : e.iconified ≡ false)
      (still : IsStill f float_eq hash write e) where
    handle_packet-show :
        (bytes : List ℕ) (cursor : ℕ) (ls : List DrawList) (s : Viewer (List ℕ))
        → unpack f s.display s.prev bytes ≡ some (cursor, ls)
        → handle_packet f float_eq hash write e draw_data bytes s ≡ some (after_frame cursor ls s)
    unfolding handle_packet after_frame show render send_all
    handle_packet-show bytes cursor ls s reads =
        let shown = show-still f float_eq hash write e e cursor ls s still.unpolled still.stays in
        let drawn : List Effect = s.effects ++ draw ls ∷ [] in
        rw (handle_packet, reads)
          (shown
            ∙ ap
                (λ hidden. some (record s {
                  prev = some ls;
                  effects = (if hidden then s.effects else drawn) ++ set_cursor cursor ∷ [];
                }))
                visible)

    -- What serving the packets of a film comes to.
    record Served (ds : List DrawData) (p : Packer) (s : Viewer (List ℕ)) : Type 0 where
      packets : List Packet
      last : Viewer (List ℕ)
      packs : film f h from ds p ≡ some packets
      readable : All (IsReadable f float_eq hash write e) packets
      serves : serve f float_eq hash write e packets s ≡ some last
      effects : last.effects ≡ s.effects ++ shows f from to ds

    film-Served :
        (ds : List DrawData) (os : List DrawList) (p : Packer) (s : Viewer (List ℕ))
        → Agree f h from to os p s.prev
        → Continues f h from to os (bare ds)
        → All IsSmall ds
        → s.display ≡ to
        → Served ds p s
    unfolding film shows serve after_frame
    film-Served [] os p s a c small size = record {
      packets = [];
      last = s;
      packs = refl;
      readable = tt;
      serves = refl;
      effects = sym (append-nil s.effects);
    }
    film-Served (d ∷ ds) os p s a c small size =
        let (bytes, q, d', packs, reads, agree) =
          frame_shown f h from to os p s.prev d [] a c.1 c.0 in
        let ls = map (shown_list f from to) d.lists in
        let plain : unpack f s.display s.prev bytes ≡ some (d.cursor, ls) =
          ap₂ (λ z m. unpack f z s.prev m) size (sym (append-nil bytes)) ∙ reads in
        let next = after_frame d.cursor ls s in
        let rest = film-Served ds d.lists q next agree c.2 small.1 size in
        let packet : Packet = record { type = draw_data; body = bytes } in
        record {
          packets = packet ∷ rest.packets;
          last = rest.last;
          packs = rw (film, packs, rest.packs) refl;
          readable = (
            draw_data-IsReadable bytes
                (omega (arith, pack_size f h from d d' p q bytes packs, small.0)),
            rest.readable,
          );
          serves = rw (serve, handle_packet-show bytes d.cursor ls s plain) rest.serves;
          effects =
              rest.effects
              ∙ ap (λ x. x ++ shows f from to ds)
                  (append_assoc s.effects (draw ls ∷ []) (set_cursor d.cursor ∷ []))
              ∙ append_assoc s.effects (draw ls ∷ set_cursor d.cursor ∷ []) (shows f from to ds);
        }

    -- A viewer that runs, has a socket and has said hello, whose buffer is well-formed, whose lists
    -- agree with those the sender has, whose window is visible, is not closed and has the size that is
    -- drawn for, and to which the packets of a film come, cut into pieces in any way. In rounds of its
    -- loop in which bytes are there, neither an `Alive` nor the input is due and no callback sends
    -- anything: after as many as there are bytes and packets it has shown every frame, in order and
    -- once each, has set the cursor of each, and has nothing left in its buffer or socket. In the film
    -- each frame can be sent, fits the receive buffer, and follows the one before it.
    pub film_delivered :
        (ks : List ℕ) (ds : List DrawData) (os : List DrawList) (p : Packer) (ps : List Packet)
        (v : Viewer (List ℕ))
        → Agree f h from to os p v.prev
        → Continues f h from to os (bare ds)
        → All IsSmall ds
        → v.display ≡ to
        → film f h from ds p ≡ some ps
        → IsQuiet f float_eq hash write e v
        → has_no_socket v.link.state ≡ false
        → IsOrderly v.inbox
        → waiting v.inbox ++ v.link.socket ≡ wire ps
        → All (λ k. 0 < k) ks
        → length v.link.socket + length ps ≤ length ks
        → (u : Viewer (List ℕ)) × (run f float_eq hash write
              (map (arriving f float_eq hash write e) ks)
              v
            ≡ some u)
          × (u.effects ≡ v.effects ++ shows f from to ds)
          × (u.link.socket ≡ [])
          × (waiting u.inbox ≡ [])
    film_delivered ks ds os p ps v a c small size packed quiet up orderly stream live enough =
        let s = film-Served ds os p v a c small size in
        let same : s.packets ≡ ps = Option.some-injective s.packets ps (sym s.packs ∙ packed) in
        let (u, returns, done, dry, empty) =
          run_total f float_eq hash write e still ks v s.last ps quiet up
            (record { orderly = orderly; stream = stream; same = refl })
            (subst (λ qs. serve f float_eq hash write e qs v ≡ some s.last) same s.serves)
            (subst (All (IsReadable f float_eq hash write e)) same s.readable) live enough in
        (u, returns, ap (λ (x : Viewer (List ℕ)). x.effects) done ∙ s.effects, dry, empty)
