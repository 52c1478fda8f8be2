-- ===== src/Viewer/Run/Reconnect.antt =====
-- Rounds of the viewer's loop: the end of its connection and the next one.
use nxdb.Common.{
  ℕ, ◌+◌, ◌-◌, ◌≤◌, ◌≡◌, sym, ap, ◌∙◌, subst, Bool, true, false, Bool-cases, Option-cases, inl, inr,
  List, [], ◌∷◌, ◌++◌, some, arith, length, All,
}
use nxdb.Server.{received, closed_by_peer}
use nxdb.Draw.{Floats}
use nxdb.Viewer.Run.{
  Inbox, Viewer, Env, inbox_capacity, handle_inbox, receive, read_socket, take_in, has_no_socket,
  round, run,
}
use nxdb.Viewer.Run.Buffer.{waiting, IsOrderly, waiting-filled}
use nxdb.Viewer.Run.Sending.{Accepts}
use nxdb.Viewer.Run.Rounds.{
  IsBounded, handle_inbox-IsOrderly, take_in-IsOrderly, round-parts, start-inbox, reconnects,
}

module _ {ℓ} {K : Type ℓ} (f : Floats) (float_eq : ℕ → ℕ → Bool) (hash : List ℕ → ℕ)
    (write : List ℕ → K → Bool × K) where
  -- The peer has closed the connection: every read answers with the end of the stream.
  abbrev pub HasClosed : Env K → Type ℓ
  HasClosed env = (n : ℕ) (k : K) → (env.recv n k).0 ≡ closed_by_peer

  closed-IsBounded : (env : Env K) → HasClosed env → IsBounded env
  closed-IsBounded env closed n k bs e =
      absurd (let no_data : closed_by_peer ≡ received bs = sym (closed n k) ∙ e in cc)

  take_in-closed :
      (env : Env K) (v u : Viewer K)
      → Accepts f float_eq hash write
      → HasClosed env
      → IsOrderly v.inbox
      → take_in f float_eq hash write env v ≡ some u
      → u.link.state ≡ v.link.state
  unfolding take_in read_socket receive
  take_in-closed env v u accepts closed o e =
      elim (Option-cases (handle_inbox f float_eq hash write env v)) [
        | inl fault ↦ absurd (ground arith)
        | inr ((w, skip), handled) ↦
            let (orderly, on, link) =
              handle_inbox-IsOrderly f float_eq hash write env v w skip o handled in
            let end = closed (inbox_capacity - w.inbox.buffer_size) w.link.socket in
            let same : u.link.state ≡ w.link.state = ground (arith, end) in same ∙ link accepts
      ]

  -- While the socket still accepts what is written, the end of the stream is not noticed: the viewer stays
  -- connected for any number of rounds and never reconnects.
  pub closed_unnoticed :
      (envs : List (Env K)) (v u : Viewer K)
      → Accepts f float_eq hash write
      → All HasClosed envs
      → IsOrderly v.inbox
      → has_no_socket v.link.state ≡ false
      → run f float_eq hash write envs v ≡ some u
      → u.link.state ≡ v.link.state
  unfolding run
  closed_unnoticed [] v u accepts closed o up e =
      let same : v ≡ u = ground arith in sym (ap (λ (x : Viewer K). x.link.state) same)
  closed_unnoticed (env ∷ envs) v u accepts closed o up e = elim (Bool-cases v.dead) [
    | inl dead ↦ let same : v ≡ u = ground arith in sym (ap (λ (x : Viewer K). x.link.state) same)
    | inr living ↦ elim (Option-cases (round f float_eq hash write env v)) [
      | inl fault ↦ absurd (ground arith)
      | inr (w, done) ↦
          let rest : run f float_eq hash write envs w ≡ some u = ground arith in
          let (x, kept, last) = round-parts f float_eq hash write env v w up done in
          let o' = subst IsOrderly (sym kept.inbox) o in
          let state : w.link.state ≡ v.link.state =
            take_in-closed env x w accepts closed.0 o' last ∙ kept.state accepts in
          closed_unnoticed envs w u accepts closed.1
            (take_in-IsOrderly f float_eq hash write env x w (closed-IsBounded env closed.0) o'
              last)
            (ap has_no_socket state ∙ up) rest
          ∙ state
    ]
  ]

  -- After a reconnection the bytes of the new connection go behind those of the old one.
  pub reconnect_mixes :
      (env env' : Env K) (v u : Viewer K) (bs : List ℕ)
      → IsOrderly v.inbox
      → has_no_socket v.link.state ≡ true
      → round f float_eq hash write env v ≡ some u
      → (env'.recv (inbox_capacity - u.inbox.buffer_size) u.link.socket).0 ≡ received bs
      → v.inbox.buffer_size + length bs ≤ inbox_capacity
      → waiting (read_socket env' u).inbox ≡ waiting v.inbox ++ bs
  unfolding read_socket receive
  reconnect_mixes env env' v u bs o down e arrives fits =
      let again : u.inbox ≡ v.inbox =
        ap (λ (x : Viewer K). x.inbox) (sym (reconnects f float_eq hash write env v u down e))
        ∙ start-inbox f float_eq hash write env (record v { has_sent_hello = false }) in
      let orderly : IsOrderly u.inbox = subst IsOrderly (sym again) o in
      let room : u.inbox.buffer_size + length bs ≤ inbox_capacity =
        subst (λ (x : Inbox). x.buffer_size + length bs ≤ inbox_capacity) (sym again) fits in
      rw arrives
        (waiting-filled u.inbox orderly bs room ∙ ap (λ (x : Inbox). waiting x ++ bs) again)
