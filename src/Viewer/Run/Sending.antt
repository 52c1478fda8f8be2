-- ===== src/Viewer/Run/Sending.antt =====
-- What a round of the viewer's loop sends, and what that leaves alone.
use nxdb.Common.{
  ℕ, ◌-◌, ◌*◌, ◌^◌, ◌≡◌, refl, ap, ◌∙◌, ◌||◌, subst, Bool, true, Bool-cases, Option-cases, inl, inr,
  List, [], ◌∷◌, Option, none, some, arith, length, ltb, put_u32,
}
use nxdb.Wire.{Packet, PacketType, header, hello, alive, draw_data, set_clipboard_text}
use nxdb.Draw.{Floats, DrawList}
use nxdb.Draw.Unpack.{unpack}
use nxdb.Viewer.Input.{update_network_input}
use nxdb.Viewer.Link.{Link, write_once}
use nxdb.Viewer.Link.Pieces.{write_all, send_packet_lem}
use nxdb.Viewer.Run.{
  Viewer, Window, Env, ◌>>=◌, render, show, send, send_all, handle_packet, send_hello, send_alive,
  update, send_input,
}

module _ {ℓ} {K : Type ℓ} (f : Floats) (float_eq : ℕ → ℕ → Bool) (hash : List ℕ → ℕ)
    (write : List ℕ → K → Bool × K) where
  abbrev pub Accepts : Type ℓ
  Accepts = (bs : List ℕ) (k : K) → (write bs k).0 ≡ true

  -- Sending leaves the receive buffer alone, and the connection where the writes are accepted.
  pub record Kept (v u : Viewer K) : Type ℓ where
    pub inbox : u.inbox ≡ v.inbox
    pub state : Accepts → u.link.state ≡ v.link.state

  Kept-refl : (v : Viewer K) → Kept v v
  Kept-refl v = record { inbox = refl; state = λ a. refl }

  pub Kept-trans : (v u w : Viewer K) → Kept v u → Kept u w → Kept v w
  Kept-trans v u w a b = record {
    inbox = b.inbox ∙ a.inbox;
    state = λ accepts. b.state accepts ∙ a.state accepts;
  }

  write_all-state :
      (pieces : List (List ℕ)) (l : Link K) → Accepts → (write_all write pieces l).state ≡ l.state
  unfolding write_all write_once
  write_all-state [] l accepts = refl
  write_all-state (b ∷ pieces) l accepts =
      write_all-state pieces (write_once write b l) accepts ∙ rw (accepts b l.socket) refl

  -- A chain that comes to its end has come through both parts.
  pub >>=-parts :
      (m : Option (Viewer K)) (g : Viewer K → Option (Viewer K)) (u : Viewer K)
      → (◌>>=◌ f float_eq hash write m g) ≡ some u
      → (w : Viewer K) × (m ≡ some w) × (g w ≡ some u)
  >>=-parts none g u e = cc
  >>=-parts (some w) g u e = (w, refl, e)

  send-Kept : (p : Packet) (v u : Viewer K) → send f float_eq hash write p v ≡ some u → Kept v u
  unfolding send
  send-Kept p v u e =
      let (pieces, _, sent) = send_packet_lem write p v.link in
      let calls = header p.type (length p.body) ∷ pieces in
      let same : record v { link = write_all write calls v.link } ≡ u = ground (arith, sent) in
      subst (Kept v) same
        (record { inbox = refl; state = λ accepts. write_all-state calls v.link accepts })

  send_all-Kept :
      (ps : List Packet) (v u : Viewer K) → send_all f float_eq hash write ps v ≡ some u → Kept v u
  unfolding send_all
  send_all-Kept [] v u e = let same : v ≡ u = ground arith in subst (Kept v) same (Kept-refl v)
  send_all-Kept (p ∷ ps) v u e = elim (Option-cases (send f float_eq hash write p v)) [
    | inl stuck ↦ absurd (ground arith)
    | inr (w, sent) ↦
        Kept-trans v w u (send-Kept p v w sent) (send_all-Kept ps w u (ground (arith, sent)))
  ]

  pub send_hello-Kept : (v u : Viewer K) → send_hello f float_eq hash write v ≡ some u → Kept v u
  unfolding send_hello
  send_hello-Kept v u e = elim (Bool-cases v.has_sent_hello) [
    | inl said ↦ let same : v ≡ u = ground arith in subst (Kept v) same (Kept-refl v)
    | inr first ↦
        elim (Option-cases
          (send f float_eq hash write (record { type = hello; body = put_u32 0 }) v)) [
            | inl stuck ↦ absurd (ground arith)
            | inr (w, sent) ↦
                let kept = send-Kept _ v w sent in
                let same : record w { has_sent_hello = true } ≡ u = ground arith in
                subst (Kept v) same (record { inbox = kept.inbox; state = kept.state })
          ]
  ]

  pub send_alive-Kept :
      (env : Env K) (v u : Viewer K) → send_alive f float_eq hash write env v ≡ some u → Kept v u
  unfolding send_alive
  send_alive-Kept env v u e = elim (Bool-cases (ltb (5 * 10 ^ 9) (env.now - v.last_alive))) [
    | inr early ↦ let same : v ≡ u = ground arith in subst (Kept v) same (Kept-refl v)
    | inl due ↦
        elim (Option-cases
          (send f float_eq hash write (record { type = alive; body = put_u32 0 }) v)) [
            | inl stuck ↦ absurd (ground arith)
            | inr (w, sent) ↦
                let kept = send-Kept _ v w sent in
                let same : record w { last_alive = env.now } ≡ u = ground arith in
                subst (Kept v) same (record { inbox = kept.inbox; state = kept.state })
          ]
  ]

  update-Kept :
      (w : Option Window) (v u : Viewer K) → update f float_eq hash write w v ≡ some u → Kept v u
  unfolding update
  update-Kept none v u e = let same : v ≡ u = ground arith in subst (Kept v) same (Kept-refl v)
  update-Kept (some w) v u e = elim (Option-cases (send_all f float_eq hash write w.events v)) [
    | inl stuck ↦ absurd (ground arith)
    | inr (x, polled) ↦
        elim (Option-cases
          (update_network_input f.less float_eq hash x.seen w.size w.cursor w.clipboard w.pad)) [
            | inl fault ↦ absurd (ground arith)
            | inr ((seen, ps), made) ↦
                let y : Viewer K = record x {
                  seen = seen;
                  display = record { x = w.size.x; y = w.size.y };
                } in
                let sent : send_all f float_eq hash write ps y ≡ some u = ground arith in
                let kept = send_all-Kept ps y u sent in
                Kept-trans v x u (send_all-Kept w.events v x polled)
                  (record { inbox = kept.inbox; state = kept.state })
          ]
  ]

  pub send_input-Kept :
      (env : Env K) (v u : Viewer K) → send_input f float_eq hash write env v ≡ some u → Kept v u
  unfolding send_input
  send_input-Kept env v u e = elim (Bool-cases (ltb (15 * 10 ^ 6) (env.now - v.last_input))) [
    | inr early ↦ let same : v ≡ u = ground arith in subst (Kept v) same (Kept-refl v)
    | inl due ↦ elim (Option-cases (update f float_eq hash write env.window v)) [
      | inl stuck ↦ absurd (ground arith)
      | inr (w, sent) ↦
          let kept = update-Kept env.window v w sent in
          let same : record w { last_input = env.now } ≡ u = ground arith in
          subst (Kept v) same (record { inbox = kept.inbox; state = kept.state })
    ]
  ]

  show-Kept :
      (env : Env K) (cursor : ℕ) (ls : List DrawList) (v u : Viewer K)
      → show f float_eq hash write env cursor ls v ≡ some u
      → Kept v u
  unfolding show render
  show-Kept env cursor ls v u e =
      let x : Viewer K = record v { prev = some ls; dead = v.dead || env.closing } in
      elim (Option-cases (send_all f float_eq hash write env.polled x)) [
        | inl stuck ↦ absurd (ground arith)
        | inr (w, polled) ↦
            let kept = send_all-Kept env.polled x w polled in
            let inbox : u.inbox ≡ w.inbox = ground (arith, polled) in
            let link : u.link ≡ w.link = ground (arith, polled) in
            record {
              inbox = inbox ∙ kept.inbox;
              state = λ accepts. ap (λ (l : Link K). l.state) link ∙ kept.state accepts;
            }
      ]

  -- Handling a packet does not touch the buffer, and the connection only by what it sends.
  pub handle_packet-Kept :
      (env : Env K) (t : PacketType) (m : List ℕ) (v u : Viewer K)
      → handle_packet f float_eq hash write env t m v ≡ some u
      → Kept v u
  unfolding handle_packet
  handle_packet-Kept env draw_data m v u e = elim (Option-cases (unpack f v.display v.prev m)) [
    | inl fault ↦ absurd (ground arith)
    | inr ((cursor, ls), reads) ↦ show-Kept env cursor ls v u (ground (arith, reads))
  ]
  handle_packet-Kept env set_clipboard_text m v u e =
      let inbox : u.inbox ≡ v.inbox = ground arith in
      let link : u.link ≡ v.link = ground arith in
      record { inbox = inbox; state = λ accepts. ap (λ (l : Link K). l.state) link }
  handle_packet-Kept env _ m v u e =
      let inbox : u.inbox ≡ v.inbox = ground arith in
      let link : u.link ≡ v.link = ground arith in
      record { inbox = inbox; state = λ accepts. ap (λ (l : Link K). l.state) link }
