-- ===== src/Server/Sweep.antt =====
-- What the pass over the clients does, by who is dropped.
use nxdb.Common.{
  get_elem?-middle, set-middle, erase_at-middle, ℕ, zero, suc, ◌+◌, ◌≤◌, ◌<◌, ◌≡◌, refl, ap, ◌∙◌,
  inl, inr, true, false, List, [], ◌∷◌, ◌++◌, none, some, arith, length, get_elem?, set, erase_at,
  length-set, length-append, append_assoc, append-nil, if◌then◌else◌, Option-cases,
}
use nxdb.Server.{Connection, World}
use nxdb.Server.Loop.{Server, Visit, visit, sweep}

-- Serving the clients `cs` at the positions from `i` on drops none and gives `ds` and `w'`.
pub data Stays (env : ℕ → Visit)
    : ℕ → List Connection → World → List Connection → World → Type 0 where
  none_left : {i : ℕ} {w : World} → Stays env i [] w [] w
  served :
      {i : ℕ} {c d : Connection} {cs ds : List Connection} {w v u : World}
      → visit (env i) c w ≡ some (d, v, false)
      → Stays env (i + 1) cs v ds u
      → Stays env i (c ∷ cs) w (d ∷ ds) u

get_elem?-lt : {A : Type 0} (xs : List A) (i : ℕ) (x : A) → get_elem? xs i ≡ some x → i < length xs
get_elem?-lt [] i x e = absurd (cc)
get_elem?-lt (y ∷ xs) zero x e = omega arith
get_elem?-lt (y ∷ xs) (suc i) x e = omega (arith, get_elem?-lt xs i x e)

length-erase_at-le : {A : Type 0} (xs : List A) (i : ℕ) → length (erase_at xs i) ≤ length xs
length-erase_at-le [] i = omega arith
length-erase_at-le (x ∷ xs) zero = omega arith
length-erase_at-le (x ∷ xs) (suc i) = omega (arith, length-erase_at-le xs i)

module _ (env : ℕ → Visit) where
  module _ (i left : ℕ) (pre : List Connection) (at : i ≡ length pre) (c d : Connection)
      (cs : List Connection) (w v : World) where
    -- One step of the pass at the position behind `pre`.
    sweep_stay :
        visit (env i) c w ≡ some (d, v, false)
        → sweep (suc left) i env (record { clients = pre ++ c ∷ cs; world = w })
          ≡ sweep left (i + 1) env (record { clients = pre ++ d ∷ cs; world = v })
    unfolding sweep
    sweep_stay e = rw (get_elem?-middle i pre c cs at, e, set-middle i pre c d cs at, sweep) refl

    sweep_drop :
        visit (env i) c w ≡ some (d, v, true)
        → sweep (suc left) i env (record { clients = pre ++ c ∷ cs; world = w })
          ≡ sweep left (i + 1) env (record { clients = pre ++ cs; world = v })
    unfolding sweep
    sweep_drop e =
        rw
          (
            get_elem?-middle i pre c cs at,
            e,
            set-middle i pre c d cs at,
            erase_at-middle i pre d cs at,
            sweep,
          )
          refl

  -- With more positions to come than clients the pass reaches one behind the end.
  sweep_over :
      (left i : ℕ) (s : Server) → 0 < left → length s.clients < i + left → sweep left i env s ≡ none
  unfolding sweep
  sweep_over zero i s p h = absurd (omega arith)
  sweep_over (suc left) i s p h = elim (Option-cases (get_elem? s.clients i)) [
    | inl past ↦ rw (past, sweep)
    | inr (c, e) ↦ elim (Option-cases (visit (env i) c s.world)) [
      | inl fault ↦ rw (e, fault, sweep)
      | inr ((d, w, drop), done) ↦
          let cs : List Connection =
            if drop then erase_at (set s.clients i d) i else set s.clients i d in
          let shorter : length cs ≤ length s.clients =
            ground (arith, length-erase_at-le (set s.clients i d) i, length-set s.clients i d) in
          let within = get_elem?-lt s.clients i c e in
          rw (e, done, sweep)
            (sweep_over left (i + 1) (record { clients = cs; world = w }) (omega arith)
              (omega arith))
    ]
  ]

  -- Serving clients that stay, in the midst of others.
  sweep-Stays :
      {i : ℕ} {cs ds : List Connection} {w v : World} (pre rest : List Connection) (n left : ℕ)
      → i ≡ length pre
      → n ≡ length cs + left
      → Stays env i cs w ds v
      → sweep n i env (record { clients = pre ++ (cs ++ rest); world = w })
        ≡ sweep left (length (pre ++ ds)) env (record { clients = (pre ++ ds) ++ rest; world = v })
  sweep-Stays {i} {w = w} pre rest n left at count none_left =
      let same : n ≡ left = omega arith in rw (append-nil pre, same, at) refl
  sweep-Stays pre rest zero left at count (served e more) = absurd (omega arith)
  sweep-Stays {i} {v = u} pre rest (suc n) left at count
        (served {c = c} {d = d} {cs = cs} {ds = ds} {w = w} {v = v} e more) =
      sweep_stay i n pre at c d (cs ++ rest) w v e
      ∙ (rw (append_assoc pre (d ∷ []) (cs ++ rest), append_assoc pre (d ∷ []) ds) at
          (sweep-Stays (pre ++ d ∷ []) rest n left (omega (arith, length-append pre (d ∷ [])))
            (omega arith) more))

  Stays-length :
      {i : ℕ} {cs ds : List Connection} {w v : World}
      → Stays env i cs w ds v
      → length ds ≡ length cs
  Stays-length none_left = refl
  Stays-length (served e more) = ap suc (Stays-length more)

  -- A pass in which nobody is dropped serves every client once, from the first to the last.
  pub sweep_all :
      (cs ds : List Connection) (w v : World)
      → Stays env 0 cs w ds v
      → sweep (length cs) 0 env (record { clients = cs; world = w })
        ≡ some (record { clients = ds; world = v })
  unfolding sweep
  sweep_all cs ds w v h =
      rw (append-nil cs, append-nil ds) at (sweep-Stays [] [] (length cs) 0 refl (omega arith) h)

  module _ (cs ds : List Connection) (c d : Connection) (w v u : World) (h : Stays env 0 cs w ds v)
      (e : visit (env (length cs)) c v ≡ some (d, u, true)) where
    dropped : visit (env (length ds)) c v ≡ some (d, u, true)
    dropped = rw (Stays-length h) e

    -- A pass in which the last client alone is dropped serves all and takes that one out.
    sweep_drop_last :
        sweep (length (cs ++ c ∷ [])) 0 env (record { clients = cs ++ c ∷ []; world = w })
        ≡ some (record { clients = ds; world = u })
    unfolding sweep
    sweep_drop_last =
        sweep-Stays [] (c ∷ []) (length (cs ++ c ∷ [])) 1 refl (length-append cs (c ∷ [])) h
        ∙ sweep_drop (length ds) 0 ds refl c d [] v u dropped
        ∙ ap (λ l. some (record { clients = l; world = u })) (append-nil ds)

    -- A pass that drops a client in front of another reads behind the end of the vector.
    pub sweep_drop_inner :
        (next : Connection) (rest : List Connection)
        → sweep
            (length (cs ++ c ∷ next ∷ rest))
            0
            env
            (record { clients = cs ++ c ∷ next ∷ rest; world = w })
          ≡ none
    sweep_drop_inner next rest =
        sweep-Stays [] (c ∷ next ∷ rest) (length (cs ++ c ∷ next ∷ rest)) (suc (suc (length rest)))
          refl (length-append cs (c ∷ next ∷ rest)) h
        ∙ sweep_drop (length ds) (suc (length rest)) ds refl c d (next ∷ rest) v u dropped
        ∙ sweep_over (suc (length rest)) (length ds + 1)
            (record { clients = ds ++ next ∷ rest; world = u }) (omega arith)
            (omega (arith, length-append ds (next ∷ rest)))
