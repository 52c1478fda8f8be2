-- ===== src/Viewer/Run/Rounds.antt =====
-- Rounds of the viewer's loop: its receive buffer.
use nxdb.Common.{
  ◌++◌, ◌⊎◌, none, append-nil, ℕ, ◌+◌, ◌-◌, ◌≤◌, ◌≡◌, refl, sym, ap, ◌∙◌, subst, Bool, true, false,
  Bool-cases, Option-cases, inl, inr, List, [], ◌∷◌, some, arith, length, All, leb, leb→le, ltb,
  drop,
}
use nxdb.Wire.{packet_header_size}
use nxdb.Server.{Recv, received, closed_by_peer, would_block, failed}
use nxdb.Draw.{Floats}
use nxdb.Viewer.Run.{
  Inbox, Viewer, Env, ◌>>=◌, inbox_capacity, start, read_inbox_header, inbox_whole, take_out,
  handle_packet, send_hello, send_alive, send_input, finish_packet, handle_inbox, receive,
  read_socket, take_in, has_no_socket, round, run,
}
use nxdb.Viewer.Run.Buffer.{
  IsOrderly, read_inbox_header-IsOrderly, take_out-IsOrderly, filled-IsOrderly,
}
use nxdb.Viewer.Run.Sending.{
  Accepts, Kept, Kept-trans, >>=-parts, send_hello-Kept, send_alive-Kept, send_input-Kept,
  handle_packet-Kept,
}

-- `recv` writes no more than it was asked for.
abbrev pub IsBounded {ℓ} : {K : Type ℓ} → Env K → Type ℓ
IsBounded {K = K} env =
    (n : ℕ) (k : K) (bs : List ℕ) → (env.recv n k).0 ≡ received bs → length bs ≤ n

module _ {ℓ} {K : Type ℓ} where
  receive-IsOrderly :
      (r : Recv) (v : Viewer K)
      → IsOrderly v.inbox
      → ((bs : List ℕ) → r ≡ received bs → v.inbox.buffer_size + length bs ≤ inbox_capacity)
      → IsOrderly (receive r v).inbox
  unfolding receive
  receive-IsOrderly (received bs) v o h = filled-IsOrderly v.inbox o bs (h bs refl)
  receive-IsOrderly closed_by_peer v o h = o
  receive-IsOrderly would_block v o h = o
  receive-IsOrderly failed v o h = o

  read_socket-IsOrderly :
      (env : Env K) (v : Viewer K)
      → IsBounded env
      → IsOrderly v.inbox
      → IsOrderly (read_socket env v).inbox
  unfolding read_socket
  read_socket-IsOrderly env v bounded o =
      let n = inbox_capacity - v.inbox.buffer_size in
      let (answer, k) = env.recv n v.link.socket in
      receive-IsOrderly answer (record v { link = record (v.link) { socket = k } }) o
        (λ bs e. omega (arith, bounded n v.link.socket bs e, o.within))

  -- A packet that is done is taken out: with an orderly buffer there is never too much behind it.
  pub finish_packet-take_out :
      (v : Viewer K)
      → IsOrderly v.inbox
      → finish_packet v ≡ (record v { inbox = take_out v.inbox }, false)
  unfolding finish_packet
  finish_packet-take_out v o =
      let fits : ltb inbox_capacity (v.inbox.buffer_size - inbox_whole v.inbox) ≡ false =
        ground (arith, o.within) in
      rw fits refl

module _ {ℓ} {K : Type ℓ} (f : Floats) (float_eq : ℕ → ℕ → Bool) (hash : List ℕ → ℕ)
    (write : List ℕ → K → Bool × K) where
  -- The buffer is in order again, and the connection is the one before where writes are accepted.
  pub handle_inbox-IsOrderly :
      (env : Env K) (v u : Viewer K) (skip : Bool)
      → IsOrderly v.inbox
      → handle_inbox f float_eq hash write env v ≡ some (u, skip)
      → IsOrderly u.inbox
        × (skip ≡ false)
        × (Accepts f float_eq hash write → u.link.state ≡ v.link.state)
  unfolding handle_inbox
  handle_inbox-IsOrderly env v u skip o e =
      let b = read_inbox_header v.inbox in
      let (orderly, _, _) = read_inbox_header-IsOrderly v.inbox o in
      elim (Bool-cases (leb (inbox_whole b) b.buffer_size)) [
        | inr more ↦
            let same : record v { inbox = b } ≡ u = ground arith in
            let on : skip ≡ false = ground arith in
            (
              subst (λ (x : Viewer K). IsOrderly x.inbox) same orderly,
              on,
              λ accepts. sym (ap (λ x. x.link.state) same),
            )
        | inl whole ↦
            let here : Viewer K = record v { inbox = b } in
            let handled =
              handle_packet f float_eq hash write env b.next_packet_type
                (drop packet_header_size b.buffer) here in
            elim (Option-cases handled) [
              | inl fault ↦ absurd (ground arith)
              | inr (w, done) ↦
                  let kept = handle_packet-Kept f float_eq hash write env _ _ here w done in
                  let now_orderly : IsOrderly w.inbox = subst IsOrderly (sym kept.inbox) orderly in
                  let finished = finish_packet-take_out w now_orderly in
                  let same : record w { inbox = take_out w.inbox } ≡ u = ground (arith, finished) in
                  let on : skip ≡ false = ground (arith, finished) in
                  let there : inbox_whole w.inbox ≤ w.inbox.buffer_size =
                    subst (λ (x : Inbox). inbox_whole x ≤ x.buffer_size) (sym kept.inbox)
                      (leb→le (inbox_whole b) b.buffer_size whole) in
                  (
                    subst (λ (x : Viewer K). IsOrderly x.inbox) same
                        (take_out-IsOrderly w.inbox now_orderly there),
                    on,
                    λ accepts. sym (ap (λ (x : Viewer K). x.link.state) same) ∙ kept.state accepts,
                  )
            ]
      ]

  pub take_in-IsOrderly :
      (env : Env K) (v u : Viewer K)
      → IsBounded env
      → IsOrderly v.inbox
      → take_in f float_eq hash write env v ≡ some u
      → IsOrderly u.inbox
  unfolding take_in
  take_in-IsOrderly env v u bounded o e =
      elim (Option-cases (handle_inbox f float_eq hash write env v)) [
        | inl fault ↦ absurd (ground arith)
        | inr ((w, skip), handled) ↦
            let (orderly, on, _) = handle_inbox-IsOrderly env v w skip o handled in
            let same : read_socket env w ≡ u = ground arith in
            subst (λ (x : Viewer K). IsOrderly x.inbox) same
              (read_socket-IsOrderly env w bounded orderly)
      ]

  -- What a round with a socket sends, and the viewer before it takes in.
  pub round-parts :
      (env : Env K) (v u : Viewer K)
      → has_no_socket v.link.state ≡ false
      → round f float_eq hash write env v ≡ some u
      → (w : Viewer K) × Kept f float_eq hash write v w
        × (take_in f float_eq hash write env w ≡ some u)
  unfolding round
  round-parts env v u up e =
      let hello = send_hello f float_eq hash write v in
      let alive = send_alive f float_eq hash write env in
      let input = send_input f float_eq hash write env in
      let chain : ◌>>=◌ f float_eq hash write
            (◌>>=◌ f float_eq hash write (◌>>=◌ f float_eq hash write hello alive) input)
            (take_in f float_eq hash write env)
          ≡ some u =
        rw (round, up) at e in
      let (c, sent_c, last) = >>=-parts f float_eq hash write _ _ u chain in
      let (b, sent_b, third) = >>=-parts f float_eq hash write _ _ c sent_c in
      let (a, first, second) = >>=-parts f float_eq hash write _ _ b sent_b in
      (
        c,
        Kept-trans f float_eq hash write v b c
            (Kept-trans f float_eq hash write v a b
              (send_hello-Kept f float_eq hash write v a first)
              (send_alive-Kept f float_eq hash write env a b second))
            (send_input-Kept f float_eq hash write env b c third),
        last,
      )

  -- Reconnecting leaves the receive buffer as it is.
  pub start-inbox : (env : Env K) (v : Viewer K) → (start env v).inbox ≡ v.inbox
  unfolding start
  start-inbox env v = ground arith

  pub reconnects :
      (env : Env K) (v u : Viewer K)
      → has_no_socket v.link.state ≡ true
      → round f float_eq hash write env v ≡ some u
      → start env (record v { has_sent_hello = false }) ≡ u
  unfolding round
  reconnects env v u down e = ground arith

  round-IsOrderly :
      (env : Env K) (v u : Viewer K)
      → IsBounded env
      → IsOrderly v.inbox
      → round f float_eq hash write env v ≡ some u
      → IsOrderly u.inbox
  round-IsOrderly env v u bounded o e = elim (Bool-cases (has_no_socket v.link.state)) [
    | inl down ↦
        let again : u.inbox ≡ v.inbox =
          ap (λ (x : Viewer K). x.inbox) (sym (reconnects env v u down e))
          ∙ start-inbox env (record v { has_sent_hello = false }) in
        subst IsOrderly (sym again) o
    | inr up ↦
        let (w, kept, last) = round-parts env v u up e in
        take_in-IsOrderly env w u bounded (subst IsOrderly (sym kept.inbox) o) last
  ]

  -- The rounds that have a result, and the viewer behind them. The loop has come through all of the
  -- answers, or the next round has no result.
  pub record Passed (envs : List (Env K)) (v : Viewer K) : Type ℓ where
    pub done : List (Env K)
    pub rest : List (Env K)
    pub last : Viewer K
    pub splits : envs ≡ done ++ rest
    pub returns : run f float_eq hash write done v ≡ some last
    pub orderly : IsOrderly last.inbox
    pub stops :
        (rest ≡ [])
        ⊎ ((env : Env K) × (later : List (Env K)) × (rest ≡ env ∷ later)
            × (round f float_eq hash write env last ≡ none))

  -- Whatever the socket, the window and the clock answer, `recv` writing no more than it was asked for,
  -- from a buffer in order: the loop goes through all rounds or up to one that has no defined result,
  -- and up to there the receive buffer has its size, is filled within it, and its header fields are
  -- blank or those of the bytes that wait, through reconnections too.
  pub run-IsOrderly :
      (envs : List (Env K)) (v : Viewer K) → All IsBounded envs → IsOrderly v.inbox → Passed envs v
  unfolding run
  run-IsOrderly [] v bounded o = record {
    done = [];
    rest = [];
    last = v;
    splits = refl;
    returns = refl;
    orderly = o;
    stops = inl refl;
  }
  run-IsOrderly (env ∷ envs) v bounded o = elim (Bool-cases v.dead) [
    | inl dead ↦ record {
      done = env ∷ envs;
      rest = [];
      last = v;
      splits = sym (append-nil (env ∷ envs));
      returns = rw (run, dead) refl;
      orderly = o;
      stops = inl refl;
    }
    | inr living ↦ elim (Option-cases (round f float_eq hash write env v)) [
      | inl fault ↦ record {
        done = [];
        rest = env ∷ envs;
        last = v;
        splits = refl;
        returns = refl;
        orderly = o;
        stops = inr (env, envs, refl, fault);
      }
      | inr (w, moves) ↦
          let p = run-IsOrderly envs w bounded.1 (round-IsOrderly env v w bounded.0 o moves) in
          let step : run f float_eq hash write (env ∷ p.done) v
              ≡ run f float_eq hash write p.done w =
            rw (run, moves, living) refl in
          record {
            done = env ∷ p.done;
            rest = p.rest;
            last = p.last;
            splits = ap (◌∷◌ env) p.splits;
            returns = step ∙ p.returns;
            orderly = p.orderly;
            stops = p.stops;
          }
    ]
  ]
