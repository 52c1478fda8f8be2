-- ===== src/Processes/Search.antt =====
-- What `getProcessList` lists, by the ids that have a program.
use nxdb.Common.{
  ℕ, zero, suc, ◌+◌, ◌≤◌, ◌<◌, ◌≡◌, ◌≢◌, refl, sym, ap, ◌∙◌, true, false, Bool-cases, inl, inr, ◌⊎◌,
  List, [], ◌∷◌, ◌++◌, append_assoc, append-nil, none, some, arith, All, ltb, ltb→lt, leb, leb→le,
  not_leb→lt, lt→ltb, if◌then◌else◌, length, length-append, take, drop, min, length-take, take_all,
}
use nxdb.Processes.{
  Process, System, Debug, DebugEvent, failed, attached, refused, listed, overruns, max_pids,
  max_pid_search_range, has_program, search_pids, describe, describe_all, get_process_list,
}

Debug-cases : (d : Debug) → (d ≡ refused) ⊎ ((d ≡ failed) ⊎ ((e : DebugEvent) × (d ≡ attached e)))
Debug-cases refused = inl refl
Debug-cases failed = inr (inl refl)
Debug-cases (attached e) = inr (inr (e, refl))

take-min {κ} : {A : Type κ} (n : ℕ) (xs : List A) → take (min (length xs) n) xs ≡ take n xs
take-min n xs = elim (Bool-cases (leb n (length xs))) [
  | inl within ↦
      let all_of_n : min (length xs) n ≡ n = omega (arith, leb→le n (length xs) within) in
      ap (λ k. take k xs) all_of_n
  | inr short ↦
      let fewer = not_leb→lt n (length xs) short in
      take_all (min (length xs) n) xs (omega arith) ∙ sym (take_all n xs (omega arith))
]

module _ (system : System) where
  -- The ids with a program among the `n` from `i` on.
  unfoldable pub running : ℕ → ℕ → List ℕ
  running zero i = []
  running (suc n) i =
      let rest = running n (i + 1) in if has_program system i then i ∷ rest else rest

  running-found :
      (n i : ℕ) → has_program system i ≡ true → running (suc n) i ≡ i ∷ running n (i + 1)
  unfolding running
  running-found n i found = rw found refl

  pub running-empty :
      (n i : ℕ) → has_program system i ≡ false → running (suc n) i ≡ running n (i + 1)
  unfolding running
  running-empty n i empty = rw empty refl

  search_pids-running :
      (n i : ℕ) (pids : List ℕ)
      → length pids + length (running n i) ≤ max_pids
      → search_pids system n i pids ≡ some (pids ++ running n i)
  unfolding search_pids
  search_pids-running zero i pids room = unfold running in ap some (sym (append-nil pids))
  search_pids-running (suc n) i pids room = elim (Bool-cases (has_program system i)) [
    | inl found ↦
        let count = ap length (running-found n i found) in
        let free = lt→ltb (length pids) max_pids (omega arith) in
        let same : search_pids system n (i + 1) (pids ++ i ∷ [])
            ≡ some (pids ++ running (suc n) i) =
          search_pids-running n (i + 1) (pids ++ i ∷ [])
            (omega (arith, length-append pids (i ∷ [])))
          ∙ ap some (append_assoc pids (i ∷ []) (running n (i + 1)))
          ∙ ap (λ r. some (pids ++ r)) (sym (running-found n i found)) in
        rw (search_pids, found, free) same
    | inr empty ↦
        let same : search_pids system n (i + 1) pids ≡ some (pids ++ running (suc n) i) =
          search_pids-running n (i + 1) pids (omega (arith, ap length (running-empty n i empty)))
          ∙ ap (λ r. some (pids ++ r)) (sym (running-empty n i empty)) in
        rw (search_pids, empty) same
  ]

  search_pids-overrun :
      (n i : ℕ) (pids : List ℕ)
      → length pids ≤ max_pids
      → max_pids < length pids + length (running n i)
      → search_pids system n i pids ≡ none
  unfolding search_pids
  search_pids-overrun zero i pids inside over = unfold running in absurd (omega arith)
  search_pids-overrun (suc n) i pids inside over = elim (Bool-cases (has_program system i)) [
    | inl found ↦
        let count = ap length (running-found n i found) in
        elim (Bool-cases (ltb (length pids) max_pids)) [
          | inl free ↦
              rw (search_pids, found, free)
                (search_pids-overrun n (i + 1) (pids ++ i ∷ [])
                  (omega (arith, length-append pids (i ∷ []), ltb→lt (length pids) max_pids free))
                  (omega (arith, length-append pids (i ∷ []))))
          | inr full ↦ rw (search_pids, found, full) refl
        ]
    | inr empty ↦
        rw (search_pids, empty)
          (search_pids-overrun n (i + 1) pids inside
            (omega (arith, ap length (running-empty n i empty))))
  ]

  -- With more than 0x50 ids that have a program, `getProcessList` writes behind its array of ids.
  get_process_list_overrun :
      (out : List Process) (max : ℕ)
      → max_pids < length (running max_pid_search_range 0)
      → get_process_list system out max ≡ overruns
  unfolding get_process_list
  get_process_list_overrun out max over =
      rw
        (
          get_process_list,
          search_pids-overrun max_pid_search_range 0 [] (omega arith) (omega arith),
        )
        refl

  abbrev pub process_ids : List Process → List ℕ
  process_ids [] = []
  process_ids (p ∷ ps) = p.process_id ∷ process_ids ps

  describe-id :
      (pid : ℕ) (p : Process)
      → system.debug pid ≢ failed
      → (q : Process) × (describe system pid p ≡ some q) × (q.process_id ≡ pid)
  unfolding describe
  describe-id pid p h = elim (Debug-cases (system.debug pid)) [
    | inl closed ↦ (record p { process_id = pid }, rw (describe, closed) refl, refl)
    | inr (inl bad) ↦ absurd (h bad)
    | inr (inr (d, seen)) ↦ (
      record {
        process_id = pid;
        program_id = d.program_id;
        name = if d.is_create_process then d.name else p.name;
      },
      rw (describe, seen) refl,
      refl,
    )
  ]

  length-process_ids : (ps : List Process) → length (process_ids ps) ≡ length ps
  length-process_ids [] = refl
  length-process_ids (p ∷ ps) = ap suc (length-process_ids ps)

  describe_all-ids :
      (pids : List ℕ) (out : List Process) (count : ℕ) (before : List Process)
      → length pids ≤ length out
      → All (λ pid. system.debug pid ≢ failed) pids
      → (described : List Process) × (describe_all system pids out count before
          ≡ listed count (before ++ (described ++ drop (length pids) out)))
        × (process_ids described ≡ pids)
  unfolding describe_all
  describe_all-ids [] out count before room h = ([], refl, refl)
  describe_all-ids (pid ∷ pids) [] count before room h = absurd (omega arith)
  describe_all-ids (pid ∷ pids) (p ∷ out) count before room h =
      let (q, one, id) = describe-id pid p h.0 in
      let (described, same, ids) =
        describe_all-ids pids out count (before ++ q ∷ []) (omega arith) h.1 in
      (
        q ∷ described,
        rw (describe_all, one) (same ∙ ap (listed count) (append_assoc before (q ∷ []) _)),
        ap (λ i. i ∷ process_ids described) id ∙ ap (◌∷◌ pid) ids,
      )

  -- With at most 0x50 ids that have a program, all events of which can be read, `getProcessList` lists
  -- those of them that fit below `max`, the first ones, in order, leaves the rest of `out` as it is, and
  -- returns their number.
  pub get_process_list_lem :
      (out : List Process) (max : ℕ)
      → length (running max_pid_search_range 0) ≤ max_pids
      → max ≤ length out
      → All (λ pid. system.debug pid ≢ failed) (take max (running max_pid_search_range 0))
      → (described : List Process) × (get_process_list system out max
          ≡ listed (length described) (described ++ drop (length described) out))
        × (process_ids described ≡ take max (running max_pid_search_range 0))
  unfolding get_process_list
  get_process_list_lem out max few room h =
      let ids = running max_pid_search_range 0 in
      let found : search_pids system max_pid_search_range 0 [] ≡ some ids =
        search_pids-running max_pid_search_range 0 [] (omega arith) in
      let listing : get_process_list system out max
          ≡ describe_all system (take max ids) out (min (length ids) max) [] =
        rw (get_process_list, found, take-min max ids) refl in
      let (described, same, listed_ids) =
        describe_all-ids (take max ids) out (min (length ids) max) []
          (omega (arith, length-take max ids)) h in
      let read : length described ≡ length (take max ids) =
        sym (length-process_ids described) ∙ ap length listed_ids in
      let count : min (length ids) max ≡ length described = omega (arith, length-take max ids) in
      (
        described,
        listing
            ∙ same
            ∙ ap (λ n. listed n (described ++ drop (length (take max ids)) out)) count
            ∙ ap (λ n. listed (length described) (described ++ drop n out)) (sym read),
        listed_ids,
      )
