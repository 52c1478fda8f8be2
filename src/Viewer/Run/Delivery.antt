-- ===== src/Viewer/Run/Delivery.antt =====
-- Whole runs of the viewer's rounds over a stream of packets.
use nxdb.Common.{
  true, false, ltb, ◌*◌, ◌^◌, map, subst, c_string, ℕ, ◌+◌, ◌-◌, ◌≤◌, ◌<◌, ◌≡◌, refl, sym, ap, ◌∙◌,
  Bool, List, [], ◌∷◌, ◌++◌, All, Option, some, arith, length, Option-cases, inl, inr,
  length-append, append_assoc, eq_nil,
}
use nxdb.Server.Arrival.{wire}
use nxdb.Draw.{Floats}
use nxdb.Viewer.Run.Advance.{advance}
use nxdb.Wire.{Packet, PacketType, font_texture, draw_data, set_clipboard_text}
use nxdb.Draw.Unpack.{unpack}
use mathlib.Core.Option.{some-injective}
use nxdb.Viewer.Run.Buffer.{waiting}
use nxdb.Viewer.Run.Arrival.{IsStill, show-still, arriving, handle, serve, IsReadable, Waits}
use nxdb.Viewer.Run.{
  round, run, send_hello, send_alive, send_input, has_no_socket, handle_packet, show, render,
  send_all, set_clipboard, Viewer, Env, take_in,
}

module _ (f : Floats) (float_eq : ℕ → ℕ → Bool) (hash : List ℕ → ℕ)
    (write : List ℕ → List ℕ → Bool × List ℕ) (e : Env (List ℕ)) where
  abbrev serves_all : List Packet → Viewer (List ℕ) → Option (Viewer (List ℕ))
  serves_all = serve f float_eq hash write e

  abbrev Waiting : Viewer (List ℕ) → Viewer (List ℕ) → List Packet → Type 0
  Waiting = Waits f float_eq hash write e

  abbrev Readable : Packet → Type 0
  Readable = IsReadable f float_eq hash write e

  serve-append :
      (ps qs : List Packet) (s t : Viewer (List ℕ))
      → serves_all ps s ≡ some t
      → serves_all (ps ++ qs) s ≡ serves_all qs t
  unfolding serve
  serve-append [] qs s t h = ap (serves_all qs) (some-injective s t h)
  serve-append (p ∷ ps) qs s t h =
      elim (Option-cases (handle f float_eq hash write e p.type p.body s)) [
        | inl fault ↦ absurd (ground arith)
        | inr (x, done) ↦
            let first : serves_all (p ∷ ps) s ≡ serves_all ps x = rw (serve, done) refl in
            let whole : serves_all (p ∷ ps ++ qs) s ≡ serves_all (ps ++ qs) x =
              rw (serve, done) refl in
            whole ∙ serve-append ps qs x t (sym first ∙ h)
      ]

  -- Nothing is due to be sent, and the loop goes on.
  pub record IsQuiet (v : Viewer (List ℕ)) : Type 0 where
    pub living : v.dead ≡ false
    pub greeted : v.has_sent_hello ≡ true
    pub alive_later : ltb (5 * 10 ^ 9) (e.now - v.last_alive) ≡ false
    pub input_later : ltb (15 * 10 ^ 6) (e.now - v.last_input) ≡ false

  -- What a handler leaves alone of what the loop looks at.
  record Steady (v u : Viewer (List ℕ)) : Type 0 where
    dead : u.dead ≡ v.dead
    greeted : u.has_sent_hello ≡ v.has_sent_hello
    last_alive : u.last_alive ≡ v.last_alive
    last_input : u.last_input ≡ v.last_input

  Steady-IsQuiet : (v u : Viewer (List ℕ)) → Steady v u → IsQuiet v → IsQuiet u
  Steady-IsQuiet v u same q = record {
    living = same.dead ∙ q.living;
    greeted = same.greeted ∙ q.greeted;
    alive_later = ap (λ n. ltb (5 * 10 ^ 9) (e.now - n)) same.last_alive ∙ q.alive_later;
    input_later = ap (λ n. ltb (15 * 10 ^ 6) (e.now - n)) same.last_input ∙ q.input_later;
  }

  abbrev handler : PacketType → List ℕ → Viewer (List ℕ) → Option (Viewer (List ℕ))
  handler = handle f float_eq hash write e

  text-Steady :
      (m : List ℕ) (v u : Viewer (List ℕ)) → handler set_clipboard_text m v ≡ some u → Steady v u
  unfolding handle_packet
  text-Steady m v u h = elim (Option-cases (c_string m)) [
    | inl endless ↦ absurd (ground arith)
    | inr (text, ends) ↦
        let same : record v { effects = v.effects ++ set_clipboard text ∷ [] } ≡ u = ground arith in
        subst (Steady v) same
          (record { dead = refl; greeted = refl; last_alive = refl; last_input = refl })
  ]

  frame-Steady :
      IsStill f float_eq hash write e
      → (m : List ℕ) (v u : Viewer (List ℕ)) → handler draw_data m v ≡ some u
      → Steady v u
  unfolding handle_packet show render send_all
  frame-Steady still m v u h = elim (Option-cases (unpack f v.display v.prev m)) [
    | inl fault ↦ absurd (ground arith)
    | inr ((cursor, ls), reads) ↦
        let shown = show-still f float_eq hash write e e cursor ls v still.unpolled still.stays in
        let same = some-injective _ u (sym shown ∙ ground (arith, reads)) in
        subst (Steady v) same
          (record { dead = refl; greeted = refl; last_alive = refl; last_input = refl })
  ]

  handle-Steady :
      IsStill f float_eq hash write e
      → (t : PacketType) (m : List ℕ) (v u : Viewer (List ℕ)) → handler t m v ≡ some u
      → Steady v u
  unfolding handle_packet
  handle-Steady still draw_data m v u h = frame-Steady still m v u h
  handle-Steady still set_clipboard_text m v u h = text-Steady m v u h
  handle-Steady still font_texture m v u h =
      subst (Steady v) (some-injective _ u h)
        (record { dead = refl; greeted = refl; last_alive = refl; last_input = refl })
  handle-Steady still _ m v u h =
      subst (Steady v) (some-injective v u h)
        (record { dead = refl; greeted = refl; last_alive = refl; last_input = refl })

  serve-IsQuiet :
      IsStill f float_eq hash write e
      → (ps : List Packet) (s u : Viewer (List ℕ)) → IsQuiet s
      → serves_all ps s ≡ some u
      → IsQuiet u
  unfolding serve
  serve-IsQuiet still [] s u q h = subst IsQuiet (some-injective s u h) q
  serve-IsQuiet still (p ∷ ps) s u q h = elim (Option-cases (handler p.type p.body s)) [
    | inl fault ↦ absurd (ground arith)
    | inr (x, done) ↦
        serve-IsQuiet still ps x u
          (Steady-IsQuiet s x (handle-Steady still p.type p.body s x done) q) (ground (arith, done))
  ]

  -- In such a round the viewer only takes in.
  round-take_in :
      (k : ℕ) (v : Viewer (List ℕ))
      → IsQuiet v
      → has_no_socket v.link.state ≡ false
      → round f float_eq hash write (arriving f float_eq hash write e k) v
        ≡ take_in f float_eq hash write (arriving f float_eq hash write e k) v
  unfolding round send_hello send_alive send_input
  round-take_in k v q up =
      rw (round, up, send_hello, q.greeted, send_alive, q.alive_later, send_input, q.input_later)
        refl

  -- The loop, with at most so many bytes there in each round.
  abbrev pub run_arriving : List ℕ → Viewer (List ℕ) → Option (Viewer (List ℕ))
  run_arriving ks v = run f float_eq hash write (map (arriving f float_eq hash write e) ks) v

  run_step :
      (k : ℕ) (ks : List ℕ) (v u : Viewer (List ℕ))
      → v.dead ≡ false
      → round f float_eq hash write (arriving f float_eq hash write e k) v ≡ some u
      → run_arriving (k ∷ ks) v ≡ run_arriving ks u
  unfolding run
  run_step k ks v u living moves = rw (run, moves, living) refl

  -- The outcome of a run: what has been done is a prefix of what was sent, the rest waits.
  pub record Taken (ks : List ℕ) (v s w : Viewer (List ℕ)) (ps : List Packet) : Type 0 where
    pub last : Viewer (List ℕ)
    pub spec : Viewer (List ℕ)
    pub done : List Packet
    pub rest : List Packet
    pub returns : run_arriving ks v ≡ some last
    pub waits : Waiting last spec rest
    pub splits : ps ≡ done ++ rest
    pub serves : serves_all done s ≡ some spec
    pub later : serves_all rest spec ≡ some w
    pub progress :
        All (λ k. 0 < k) ks
        → length last.link.socket + length rest ≤ length v.link.socket + length ps - length ks

  run_lem :
      IsStill f float_eq hash write e
      → (ks : List ℕ) (v s w : Viewer (List ℕ)) (ps : List Packet) → IsQuiet s
      → has_no_socket v.link.state ≡ false
      → Waiting v s ps
      → serves_all ps s ≡ some w
      → All Readable ps
      → Taken ks v s w ps
  unfolding run serve
  run_lem still [] v s w ps q up h served ok = record {
    last = v;
    spec = s;
    done = [];
    rest = ps;
    returns = refl;
    waits = h;
    splits = refl;
    serves = refl;
    later = served;
    progress = λ q. omega arith;
  }
  run_lem still (k ∷ ks) v s w ps q up h served ok =
      let a = advance f float_eq hash write e still k v s w ps h served ok in
      let up' : has_no_socket a.next.link.state ≡ false = ap has_no_socket a.state ∙ up in
      let q' = serve-IsQuiet still a.done s a.spec q a.serves in
      let d = run_lem still ks a.next a.spec w a.rest q' up' a.waits a.later a.readable in
      let quiet : IsQuiet v = subst IsQuiet (sym h.same) (
        Steady-IsQuiet s _
          (record { dead = refl; greeted = refl; last_alive = refl; last_input = refl }) q) in
      record {
        last = d.last;
        spec = d.spec;
        done = a.done ++ d.done;
        rest = d.rest;
        returns =
            run_step k ks v a.next quiet.living (round-take_in k v quiet up ∙ a.returns)
            ∙ d.returns;
        waits = d.waits;
        splits = a.splits ∙ ap (◌++◌ a.done) d.splits ∙ sym (append_assoc a.done d.done d.rest);
        serves = serve-append a.done d.done s a.spec a.serves ∙ d.serves;
        later = d.later;
        progress = λ q. omega (arith, a.progress q.0, d.progress q.1);
      }

  -- With bytes there in every round and nothing due to be sent, as many rounds as there are bytes and packets: the viewer is, but for
  -- its buffer and its socket, which are empty, what the packets make of it.
  pub run_total :
      IsStill f float_eq hash write e
      → (ks : List ℕ) (v w : Viewer (List ℕ)) (ps : List Packet) → IsQuiet v
      → has_no_socket v.link.state ≡ false
      → Waiting v v ps
      → serves_all ps v ≡ some w
      → All Readable ps
      → All (λ k. 0 < k) ks
      → length v.link.socket + length ps ≤ length ks
      → (u : Viewer (List ℕ)) × (run_arriving ks v ≡ some u)
        × (u ≡ record w { inbox = u.inbox; link = u.link })
        × (u.link.socket ≡ [])
        × (waiting u.inbox ≡ [])
  unfolding wire serve
  run_total still ks v w ps q up h served ok live enough =
      let d = run_lem still ks v v w ps q up h served ok in
      let left_none : d.last.link.socket ≡ [] =
        eq_nil d.last.link.socket (omega (arith, d.progress live)) in
      let rest_none : d.rest ≡ [] = eq_nil d.rest (omega (arith, d.progress live)) in
      let dry : waiting d.last.inbox ++ d.last.link.socket ≡ [] =
        d.waits.stream ∙ ap wire rest_none in
      let empty : length (waiting d.last.inbox) ≡ 0 =
        omega (arith, ap length dry, length-append (waiting d.last.inbox) d.last.link.socket) in
      let all_done : d.spec ≡ w =
        some-injective d.spec w (sym (ap (λ ps'. serves_all ps' d.spec) rest_none) ∙ d.later) in
      (
        d.last,
        d.returns,
        d.waits.same
            ∙ ap (λ (x : Viewer (List ℕ)). record x { inbox = d.last.inbox; link = d.last.link })
                all_done,
        left_none,
        eq_nil (waiting d.last.inbox) empty,
      )
