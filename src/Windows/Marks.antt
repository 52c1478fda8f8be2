-- ===== src/Windows/Marks.antt =====
-- Lists of components: which are there, and what marking one of them changes.
use nxdb.Common.{ℕ, ◌≡◌, ◌≢◌, refl, Bool, true, false, List, [], ◌∷◌, ◌++◌, arith, All, All-map}
use nxdb.Components.{Component, queue_for_deletion}
use nxdb.Components.Single.{AllAlive, RestAlive}
use nxdb.Windows.{Window, main_window, session, module_list, Input, is_live}
use nxdb.Windows.Calm.{AllStay, Stays}

pub is_live_middle :
    (a : ℕ) (pre mid post : List Component)
    → is_live a (pre ++ post) ≡ true
    → is_live a (pre ++ (mid ++ post)) ≡ true
unfolding is_live
is_live_middle a [] [] post h = h
is_live_middle a [] (c ∷ mid) post h = ground (arith, is_live_middle a [] mid post h)
is_live_middle a (c ∷ pre) mid post h = ground (arith, is_live_middle a pre mid post)

pub is_live_here :
    (a : ℕ) (doomed : Bool) (pre post : List Component)
    → is_live a (pre ++ record { address = a; doomed = doomed } ∷ post) ≡ true
unfolding is_live
is_live_here a doomed [] post = ground arith
is_live_here a doomed (c ∷ pre) post = ground (arith, is_live_here a doomed pre post)

Stays-append :
    (input : Input) (a : ℕ) (w : Window) (pre mid post : List Component)
    → Stays input (pre ++ post) a w
    → Stays input (pre ++ (mid ++ post)) a w
Stays-append input a main_window pre mid post h = tt
Stays-append input a (session list) pre mid post h = h
Stays-append input a (module_list s) pre mid post h = is_live_middle s pre mid post h

pub AllStay-append :
    (input : Input) (windows : ℕ → Window) (pre mid post cs : List Component)
    → AllStay input windows (pre ++ post) cs
    → AllStay input windows (pre ++ (mid ++ post)) cs
AllStay-append input windows pre mid post cs =
    All-map _ _ cs (λ c. Stays-append input c.address (windows c.address) pre mid post)

-- Every component but one has another address.
abbrev pub NotAt : ℕ → List Component → Type 0
NotAt a cs = All (λ c. c.address ≢ a) cs

pub queue_for_deletion_other :
    (a : ℕ) (cs : List Component) → NotAt a cs → queue_for_deletion a cs ≡ cs
unfolding queue_for_deletion
queue_for_deletion_other a [] h = refl
queue_for_deletion_other a (c ∷ cs) h = ground (arith, queue_for_deletion_other a cs h.1)

-- A component and the mark of another one.
pub queue_for_deletion_here :
    (a : ℕ) (doomed : Bool) (pre post : List Component)
    → NotAt a pre
    → NotAt a post
    → queue_for_deletion a (pre ++ record { address = a; doomed = doomed } ∷ post)
      ≡ pre ++ record { address = a; doomed = true } ∷ post
unfolding queue_for_deletion
queue_for_deletion_here a doomed [] post hpre hpost =
    ground (arith, queue_for_deletion_other a post hpost)
queue_for_deletion_here a doomed (c ∷ pre) post hpre hpost =
    ground (arith, queue_for_deletion_here a doomed pre post hpre.1 hpost)

pub queue_for_deletion_second :
    (a : ℕ) (doomed : Bool) (pre : List Component) (b : Component) (post : List Component)
    → NotAt a pre
    → b.address ≢ a
    → NotAt a post
    → queue_for_deletion a (pre ++ b ∷ record { address = a; doomed = doomed } ∷ post)
      ≡ pre ++ b ∷ record { address = a; doomed = true } ∷ post
unfolding queue_for_deletion
queue_for_deletion_second a doomed [] b post hpre hb hpost =
    ground (arith, queue_for_deletion_here a doomed [] post tt hpost)
queue_for_deletion_second a doomed (c ∷ pre) b post hpre hb hpost =
    ground (arith, queue_for_deletion_second a doomed pre b post hpre.1 hb hpost)

pub live_second :
    (a : ℕ) (doomed : Bool) (b : Component) (pre post : List Component)
    → is_live a (pre ++ b ∷ record { address = a; doomed = doomed } ∷ post) ≡ true
unfolding is_live
live_second a doomed b [] post = ground arith
live_second a doomed b (c ∷ pre) post = ground (arith, live_second a doomed b pre post)

pub is_live_none :
    (a : ℕ) (pre post : List Component)
    → NotAt a pre
    → NotAt a post
    → is_live a (pre ++ post) ≡ false
unfolding is_live
is_live_none a [] [] h g = refl
is_live_none a [] (c ∷ post) h g = ground (arith, is_live_none a [] post tt g.1)
is_live_none a (c ∷ pre) post h g = ground (arith, is_live_none a pre post h.1 g)

pub rest_alive : (cs : List Component) → AllAlive cs → RestAlive cs
rest_alive [] live = tt
rest_alive (c ∷ cs) live = live.1

abbrev pub marked : ℕ → Bool → Component
marked a doomed = record { address = a; doomed = doomed }
