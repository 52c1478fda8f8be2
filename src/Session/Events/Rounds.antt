-- ===== src/Session/Events/Rounds.antt =====
-- The debug events against a kernel that keeps a queue of them.
use nxdb.Common.{
  ℕ, zero, suc, ◌+◌, ◌≤◌, ◌<◌, ◌≡◌, refl, ◌∙◌, sym, Bool, true, false, ◌||◌, none, some, arith,
  Bool-cases, inl, inr, ltb, ◌==◌, if◌then◌else◌,
}
use nxdb.Session.Events.{
  Event, Calls, Debugged, returned, busy, retry, first_try, try_from, try_continue, find_name,
  handle_debug_event, handle_debug_events, continue_if_asked, thread_round,
}

-- A kernel with `pending` events: continuing is refused as busy while there are any, and makes the
-- process run otherwise; an event that is got is taken off the queue.
pub record Laws {K : Type 0} (calls : Calls K) : Type 0 where
  pub pending : K → ℕ
  pub running : K → Bool
  pub masked : (core : ℕ) (k : K) → (calls.set_mask core k).0 ≡ true
  pub masked_pending : (core : ℕ) (k : K) → pending (calls.set_mask core k).1 ≡ pending k
  pub is_busy : (k : K) → 0 < pending k → (calls.continue_event k).0 ≡ busy
  pub is_busy_pending : (k : K) → 0 < pending k → pending (calls.continue_event k).1 ≡ pending k
  pub continued : (k : K) → pending k ≡ 0 → (calls.continue_event k).0 ≡ 0
  pub continued_pending : (k : K) → pending k ≡ 0 → pending (calls.continue_event k).1 ≡ 0
  pub continued_running : (k : K) → pending k ≡ 0 → running (calls.continue_event k).1 ≡ true
  pub got : (k : K) → 0 < pending k → (event : Event) × ((calls.get_event k).0 ≡ some event)
  pub got_pending : (k : K) → 0 < pending k → suc (pending (calls.get_event k).1) ≡ pending k
  pub got_none : (k : K) → pending k ≡ 0 → (calls.get_event k).0 ≡ none
  pub got_none_pending : (k : K) → pending k ≡ 0 → pending (calls.get_event k).1 ≡ 0

or_true : (a : Bool) {b : Bool} → b ≡ true → (a || b) ≡ true
or_true true e = refl
or_true false e = e

or_false : (a : Bool) {b : Bool} → b ≡ false → (a || b) ≡ a
or_false true e = refl
or_false false e = e

module _ {K : Type 0} (calls : Calls K) (laws : Laws calls) where
  -- The process runs, and no event is left.
  Continued : K → Type 0
  Continued k = (laws.pending k ≡ 0) × (laws.running k ≡ true)

  retry-success : (fuel : ℕ) (k : K) → retry calls fuel 0 k ≡ returned (0, k)
  unfolding retry
  retry-success zero k = refl
  retry-success (suc fuel) k = refl

  first_try-continued :
      (fuel : ℕ) (k : K)
      → laws.pending k ≡ 0
      → first_try calls fuel k ≡ returned (0, (calls.continue_event k).1)
  unfolding first_try
  first_try-continued fuel k empty =
      rw (first_try, laws.continued k empty) (retry-success fuel (calls.continue_event k).1)

  -- A try on one core gets rid of all events.
  first_try_lem :
      (fuel : ℕ) (k : K)
      → laws.pending k ≤ fuel
      → (k' : K) × (first_try calls fuel k ≡ returned (0, k')) × Continued k'
  unfolding first_try retry Continued
  first_try_lem zero k enough = (
    (calls.continue_event k).1,
    first_try-continued 0 k (omega arith),
    (laws.continued_pending k (omega arith), laws.continued_running k (omega arith)),
  )
  first_try_lem (suc fuel) k enough = elim (Bool-cases (ltb 0 (laws.pending k))) [
    | inl left ↦
        let some_left : 0 < laws.pending k = ground arith in
        let k1 = (calls.continue_event k).1 in
        let same = laws.is_busy_pending k some_left in
        let (event, e) = laws.got k1 (omega arith) in
        let fewer = laws.got_pending k1 (omega arith) in
        let (k', h, rest) = first_try_lem fuel (calls.get_event k1).1 (omega arith) in
        (k', rw (first_try, retry, laws.is_busy k some_left, e) h, rest)
    | inr none_left ↦ (
      (calls.continue_event k).1,
      first_try-continued (suc fuel) k (ground arith),
      (laws.continued_pending k (ground arith), laws.continued_running k (ground arith)),
    )
  ]

  try_from_lem :
      (fuel left core : ℕ) (k : K)
      → laws.pending k ≤ fuel
      → (k' : K) × (try_from calls fuel (suc left) core k ≡ returned (true, k')) × Continued k'
  unfolding try_from Continued
  try_from_lem fuel zero core k enough =
      let same = laws.masked_pending core k in
      let (k', h, free) = first_try_lem fuel (calls.set_mask core k).1 (omega arith) in
      (k', rw (try_from, laws.masked core k, h) refl, free)
  try_from_lem fuel (suc left) core k enough =
      let same = laws.masked_pending core k in
      let (k', h, free) = first_try_lem fuel (calls.set_mask core k).1 (omega arith) in
      let none_left = free.0 in
      let (k'', h', free') = try_from_lem fuel left (core + 1) k' (omega arith) in
      (k'', rw (try_from, laws.masked core k, h) h', free')

  try_continue_lem :
      (fuel : ℕ) (k : K)
      → laws.pending k ≤ fuel
      → (k' : K) × (try_continue calls fuel k ≡ returned (true, k')) × Continued k'
  unfolding try_continue
  try_continue_lem fuel k enough = try_from_lem fuel 3 0 k enough

  -- What `handleDebugEvents` leaves: no event, and the wish to go on if there was one.
  Emptied : Debugged K → Debugged K → Type 0
  Emptied s s' =
      (laws.pending s'.kernel ≡ 0)
      × (s'.should_continue ≡ (s.should_continue || ltb 0 (laws.pending s.kernel)))
      × (s'.name ≡ s.name)

  handle_debug_events_lem :
      (fuel : ℕ) (s : Debugged K)
      → laws.pending s.kernel < fuel
      → (s' : Debugged K) × (handle_debug_events calls fuel s ≡ returned s') × Emptied s s'
  unfolding handle_debug_events handle_debug_event Emptied
  handle_debug_events_lem zero s enough = absurd (omega arith)
  handle_debug_events_lem (suc fuel) s enough = elim (Bool-cases (ltb 0 (laws.pending s.kernel))) [
    | inl left ↦
        let some_left : 0 < laws.pending s.kernel = ground arith in
        let (event, e) = laws.got s.kernel some_left in
        let fewer = laws.got_pending s.kernel some_left in
        let s1 = handle_debug_event event (record s { kernel = (calls.get_event s.kernel).1 }) in
        let (s', h, (empty, asked, named)) = handle_debug_events_lem fuel s1 (omega arith) in
        (
          s',
          rw (handle_debug_events, e) h,
          (empty, asked ∙ sym (or_true s.should_continue left), named),
        )
    | inr none_left ↦
        let empty : laws.pending s.kernel ≡ 0 = ground arith in
        (
          record s { kernel = (calls.get_event s.kernel).1 },
          rw (handle_debug_events, laws.got_none s.kernel empty) refl,
          (laws.got_none_pending s.kernel empty, sym (or_false s.should_continue none_left), refl),
        )
  ]

  continue_if_asked_lem :
      (fuel : ℕ) (s : Debugged K)
      → laws.pending s.kernel ≡ 0
      → (s' : Debugged K) × (continue_if_asked calls fuel s ≡ returned s')
        × (laws.pending s'.kernel ≡ 0)
        × (s'.should_continue ≡ false)
        × (s.should_continue ≡ true → laws.running s'.kernel ≡ true)
  unfolding continue_if_asked Continued
  continue_if_asked_lem fuel s empty = elim (Bool-cases s.should_continue) [
    | inl asked ↦
        let (k, h, (empty', runs)) = try_continue_lem fuel s.kernel (omega arith) in
        (
          record s { should_continue = false; kernel = k },
          rw (continue_if_asked, asked, h) refl,
          empty',
          refl,
          λ wish. runs,
        )
    | inr not_asked ↦ (
      s,
      simp (continue_if_asked, not_asked) refl,
      empty,
      not_asked,
      λ wish. absurd (ground (arith, wish, not_asked)),
    )
  ]

  -- On a kernel that keeps a queue of events, a round of the debug thread that is woken up with an event
  -- or with the wish to go on, with more fuel than events, comes to its end: no event is left, the wish
  -- is taken back, and the process runs.
  pub thread_round_lem :
      (fuel : ℕ) (s : Debugged K)
      → (calls.wait s.kernel).0 ≡ 0
      → laws.pending (calls.wait s.kernel).1 < fuel
      → (s.should_continue || ltb 0 (laws.pending (calls.wait s.kernel).1)) ≡ true
      → (s' : Debugged K) × (thread_round calls fuel s ≡ returned s')
        × (laws.pending s'.kernel ≡ 0)
        × (s'.should_continue ≡ false)
        × (laws.running s'.kernel ≡ true)
  unfolding thread_round Emptied
  thread_round_lem fuel s woken enough wish =
      let s0 = record s { kernel = (calls.wait s.kernel).1 } in
      let (s1, h, (empty, asked, named)) = handle_debug_events_lem fuel s0 enough in
      let (s2, h', empty', off, runs) = continue_if_asked_lem fuel s1 empty in
      (s2, rw (thread_round, woken, woken, h) h', empty', off, runs (asked ∙ wish))

  -- With an event in front, fuel for the others and a kernel that keeps a queue, findName comes to its
  -- end: the number of the program is that of the event, the name too where the event is the start of a process,
  -- no event is left, and the process runs.
  pub find_name_lem :
      (fuel : ℕ) (s : Debugged K) (event : Event)
      → (calls.get_event s.kernel).0 ≡ some event
      → 0 < laws.pending s.kernel
      → laws.pending s.kernel ≤ suc fuel
      → (s' : Debugged K) × (find_name calls fuel s ≡ returned s')
        × (s'.program_id ≡ event.program_id)
        × (s'.name ≡ (if event.type == calls.create_process then event.name else s.name))
        × (laws.pending s'.kernel ≡ 0)
        × (laws.running s'.kernel ≡ true)
  unfolding find_name Continued
  find_name_lem fuel s event first waiting enough =
      let fewer = laws.got_pending s.kernel waiting in
      let (k, h, (empty, runs)) =
        try_continue_lem fuel (calls.get_event s.kernel).1 (omega arith) in
      (
        record s {
          program_id = event.program_id;
          name = if event.type == calls.create_process then event.name else s.name;
          kernel = k;
        },
        rw (find_name, first, h) refl,
        refl,
        refl,
        empty,
        runs,
      )
