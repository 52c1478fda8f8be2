-- ===== src/Server/Listen/Sockets.antt =====
-- How many sockets `Server::start` leaves open.
use nxdb.Common.{
  ℕ, ◌≡◌, ◌≢◌, refl, ap, Bool, false, ◌&&◌, List, [], ◌∷◌, Option, none, some, arith, All, ◌==◌,
  if◌then◌else◌, Bool-cases, ◌⊎◌, inl, inr,
}
use nxdb.Server.Listen.{Answers, Listener, close_socket, close_old, set_up, start}

abbrev pub NotIn : ℕ → List ℕ → Type 0
NotIn fd ss = All (λ s. s ≢ fd) ss

-- Beside the `others` of the process the listener's socket is open, if it has one, and nobody else's
-- listens.
abbrev pub IsAlone : List ℕ → Option ℕ → Listener → Type 0
IsAlone others none l = (l.fd ≡ none) × (l.sockets ≡ others) × (l.listening ≡ [])
IsAlone others (some fd) l =
    (l.fd ≡ some fd)
    × (l.sockets ≡ fd ∷ others)
    × NotIn fd others
    × ((l.listening ≡ []) ⊎ (l.listening ≡ fd ∷ []))

close_socket_other : (fd : ℕ) (ss : List ℕ) → NotIn fd ss → close_socket fd ss ≡ ss
unfolding close_socket
close_socket_other fd [] h = refl
close_socket_other fd (s ∷ ss) h = ground (arith, close_socket_other fd ss h.1)

close_socket_own : (fd : ℕ) (ss : List ℕ) → NotIn fd ss → close_socket fd (fd ∷ ss) ≡ ss
unfolding close_socket
close_socket_own fd ss h = ground (arith, close_socket_other fd ss h)

-- The socket of an earlier start is closed.
close_old_lem :
    (others : List ℕ) (own : Option ℕ) (l : Listener)
    → IsAlone others own l
    → ((close_old l).sockets ≡ others) × ((close_old l).listening ≡ [])
unfolding close_old
close_old_lem others none l h = rw (close_old, h.0) (h.1, h.2)
close_old_lem others (some fd) l (e, open_ones, other, inl deaf) =
    rw (close_old, e, open_ones, deaf)
      (close_socket_own fd others other, unfold close_socket in refl)
close_old_lem others (some fd) l (e, open_ones, other, inr hears) =
    rw (close_old, e, open_ones, hears)
      (close_socket_own fd others other, close_socket_own fd [] tt)

abbrev all_succeed : Answers → Bool
all_succeed a = a.reuse_address && a.no_delay && a.bind && a.listen

set_up_lem :
    (a : Answers) (fd : ℕ) (l : Listener) (others : List ℕ)
    → l.sockets ≡ others
    → l.listening ≡ []
    → NotIn fd others
    → IsAlone others (some fd) (set_up a fd l).0
      × (((set_up a fd l).1 == 0) ≡ all_succeed a)
      × ((set_up a fd l).0.listening ≡ (if all_succeed a then fd ∷ [] else []))
unfolding set_up
set_up_lem a fd l others e deaf other =
    let opened = ap (◌∷◌ fd) e in
    let heard = ap (◌∷◌ fd) deaf in
    elim (Bool-cases a.reuse_address) [
      | inr bad ↦ rw (set_up, bad) ((refl, opened, other, inl deaf), refl, deaf)
      | inl yes1 ↦ elim (Bool-cases a.no_delay) [
        | inr bad ↦ rw (set_up, yes1, bad) ((refl, opened, other, inl deaf), refl, deaf)
        | inl yes2 ↦ elim (Bool-cases a.bind) [
          | inr bad ↦ rw (set_up, yes1, yes2, bad) ((refl, opened, other, inl deaf), refl, deaf)
          | inl yes3 ↦ elim (Bool-cases a.listen) [
            | inr bad ↦
                rw (set_up, yes1, yes2, yes3, bad) ((refl, opened, other, inl deaf), refl, deaf)
            | inl yes4 ↦
                rw (set_up, yes1, yes2, yes3, yes4) ((refl, opened, other, inr heard), refl, heard)
          ]
        ]
      ]
    ]

-- The socket that a start gets is not open yet.
abbrev pub IsNew : Option ℕ → List ℕ → Type 0
IsNew none others = Unit {0}
IsNew (some fd) others = NotIn fd others

abbrev listens : Answers → Option ℕ → Bool
listens a none = false
listens a (some fd) = all_succeed a

abbrev listeners : Answers → Option ℕ → List ℕ
listeners a none = []
listeners a (some fd) = if all_succeed a then fd ∷ [] else []

start_from :
    (a : Answers) (l : Listener) (others : List ℕ) (got : Option ℕ)
    → a.socket ≡ got
    → (close_old l).sockets ≡ others
    → (close_old l).listening ≡ []
    → IsNew got others
    → IsAlone others got (start a l).0
      × (((start a l).1 == 0) ≡ listens a got)
      × ((start a l).0.listening ≡ listeners a got)
unfolding start
start_from a l others none e open_ones deaf new =
    rw (start, e) ((refl, open_ones, deaf), refl, deaf)
start_from a l others (some fd) e open_ones deaf new =
    rw (start, e) (set_up_lem a fd (close_old l) others open_ones deaf new)

-- However often the server is started, and whichever calls fail: the socket of an earlier start is
-- closed, the new one is the only socket that it keeps open, and it listens just where the result is 0,
-- which is so when all calls succeed.
pub start_lem :
    (a : Answers) (l : Listener) (others : List ℕ) (own : Option ℕ)
    → IsAlone others own l
    → IsNew a.socket others
    → IsAlone others a.socket (start a l).0
      × (((start a l).1 == 0) ≡ listens a a.socket)
      × ((start a l).0.listening ≡ listeners a a.socket)
unfolding start
start_lem a l others own alone new =
    let (open_ones, deaf) = close_old_lem others own l alone in
    start_from a l others a.socket refl open_ones deaf new
