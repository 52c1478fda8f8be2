-- ===== src/Frame/Clipboard/Echo.antt =====
-- The way of a text that is copied in the interface: to a viewer, to its window, and back.
use nxdb.Common.{
  ℕ, ◌+◌, ◌≤◌, ◌<◌, ◌≡◌, ◌≢◌, refl, ap, ◌∙◌, All, Bool, false, List, [], ◌∷◌, ◌++◌, some, map,
  arith, length, length-append, take,
}
use nxdb.Wire.{Packet, set_clipboard_text}
use nxdb.Server.{Connection, World, State}
use nxdb.Server.Effects.{IsServable, effect, c_string-append}
use nxdb.Server.Arrival.{serve, Waits as ServerWaits}
use nxdb.Server.Delivery.{events, deliver_total}
use nxdb.Draw.{Floats}
use nxdb.Viewer.Input.{send_clipboard}
use nxdb.Viewer.Run.{Viewer, Env, set_clipboard, handle_packet, has_no_socket, run}
use nxdb.Viewer.Run.Arrival.{
  serve as viewer_serve, IsStill, IsReadable, arriving, Waits as ViewerWaits,
}
use nxdb.Viewer.Run.Delivery.{IsQuiet, run_total}
use nxdb.Session.Names.{c_string-ended}
use nxdb.Frame.Clipboard.{
  clipboard_packet, platform_set_clipboard_text, platform_get_clipboard_text,
}

-- A text and the zero at its end.
abbrev pub text_packet : List ℕ → Packet
text_packet text = record { type = set_clipboard_text; body = text ++ 0 ∷ [] }

take_text : (text rest : List ℕ) → take (length text + 1) (text ++ 0 ∷ rest) ≡ text ++ 0 ∷ []
take_text [] rest = refl
take_text (b ∷ text) rest = grind (arith, take_text text rest)

clipboard_packet-text :
    (text rest : List ℕ)
    → All (λ b. b ≢ 0) text
    → clipboard_packet (text ++ 0 ∷ rest) ≡ some (text_packet text)
unfolding clipboard_packet
clipboard_packet-text text rest plain =
    rw (clipboard_packet, c_string-ended text rest plain, take_text text rest) refl

sent_to_all :
    (m : List ℕ) (p : Packet) (cs : List Connection)
    → clipboard_packet m ≡ some p
    → platform_set_clipboard_text m cs ≡ some (map (λ c. p ∷ []) cs)
unfolding platform_set_clipboard_text
sent_to_all m p [] e = refl
sent_to_all m p (c ∷ cs) e = rw (platform_set_clipboard_text, e, sent_to_all m p cs e) refl

text_packet-IsServable :
    (text : List ℕ) → All (λ b. b ≢ 0) text → length text < 512 → IsServable (text_packet text)
text_packet-IsServable text plain short = record {
  named = tt;
  fits = omega (arith, length-append text (0 ∷ []));
  has_body = (text, c_string-ended text [] plain);
}

-- The server: the packet comes in as a stream of its own.
pasted :
    (js : List (ℕ × ℕ)) (s : State) (bs text : List ℕ)
    → All (λ b. b ≢ 0) text
    → length text < 512
    → ServerWaits s bs (text_packet text ∷ [])
    → All (λ j. 0 < j.1) js
    → length bs + 1 ≤ length js
    → (t : State) × (events js bs s ≡ some (t, [])) × (platform_get_clipboard_text t.world ≡ text)
unfolding serve effect platform_get_clipboard_text
pasted js s bs text plain short waits live enough =
    let (t, returns, does, empty) =
      deliver_total js s bs (text_packet text ∷ []) waits
        (text_packet-IsServable text plain short, tt) live enough in
    let clipboard : (serve (text_packet text ∷ []) s.world).clipboard ≡ text =
      rw (serve, effect, c_string-ended text [] plain) refl in
    (t, returns, ap (λ (w : World). w.clipboard) does ∙ clipboard)

module _ (f : Floats) (float_eq : ℕ → ℕ → Bool) (hash : List ℕ → ℕ)
    (write : List ℕ → List ℕ → Bool × List ℕ) (e : Env (List ℕ)) where
  text_packet-IsReadable :
      (text : List ℕ)
      → All (λ b. b ≢ 0) text
      → length text < 512
      → IsReadable f float_eq hash write e (text_packet text)
  unfolding handle_packet
  text_packet-IsReadable text plain short = record {
    named = tt;
    fits = omega (arith, length-append text (0 ∷ []));
    self_contained = λ v u behind done.
        let ends = c_string-ended text [] plain in
        let longer = c_string-append (text ++ 0 ∷ []) behind text ends in
        rw (handle_packet, longer) (rw (handle_packet, ends) at done);
  }

  -- The viewer: the packet comes in at its loop.
  copied :
      (ks : List ℕ) (v : Viewer (List ℕ)) (text : List ℕ)
      → All (λ b. b ≢ 0) text
      → length text < 512
      → IsStill f float_eq hash write e
      → IsQuiet f float_eq hash write e v
      → has_no_socket v.link.state ≡ false
      → ViewerWaits f float_eq hash write e v v (text_packet text ∷ [])
      → All (λ k. 0 < k) ks
      → length v.link.socket + 1 ≤ length ks
      → (u : Viewer (List ℕ)) × (run f float_eq hash write
            (map (arriving f float_eq hash write e) ks)
            v
          ≡ some u)
        × (u.effects ≡ v.effects ++ set_clipboard text ∷ [])
  unfolding handle_packet viewer_serve
  copied ks v text plain short still quiet up waits live enough =
      let w : Viewer (List ℕ) = record v { effects = v.effects ++ set_clipboard text ∷ [] } in
      let (u, returns, done, dry, empty) =
        run_total f float_eq hash write e still ks v w (text_packet text ∷ []) quiet up waits
          (rw (viewer_serve, handle_packet, c_string-ended text [] plain) refl)
          (text_packet-IsReadable text plain short, tt) live enough in
      (u, returns, ap (λ (x : Viewer (List ℕ)). x.effects) done)

  -- The way of a text of less than 512 bytes without zeros that is copied in the interface. It is sent
  -- to every client as one packet. A viewer in whose buffer and socket this packet waits, in pieces of
  -- any kind, that runs, has a socket and has nothing to send in rounds in which bytes are there, sets
  -- the clipboard of its window to the text, and does nothing else outside. An update that finds
  -- the text there, its hash not being that of the update before, sends the same packet. A server in
  -- whose buffer and socket this one waits, in pieces of any kind, with bytes there at every event, gives
  -- the text to be pasted. Both have as many rounds and events as there are bytes and packets.
  pub copy_paste :
      (ks : List ℕ) (js : List (ℕ × ℕ)) (clients : List Connection) (v : Viewer (List ℕ))
      (s : State) (bs text rest : List ℕ) (seen : ℕ)
      → All (λ b. b ≢ 0) text
      → length text < 512
      → hash text ≢ seen
      → IsStill f float_eq hash write e
      → IsQuiet f float_eq hash write e v
      → has_no_socket v.link.state ≡ false
      → ViewerWaits f float_eq hash write e v v (text_packet text ∷ [])
      → All (λ k. 0 < k) ks
      → length v.link.socket + 1 ≤ length ks
      → ServerWaits s bs (text_packet text ∷ [])
      → All (λ j. 0 < j.1) js
      → length bs + 1 ≤ length js
      → (u : Viewer (List ℕ)) × (t : State) × (platform_set_clipboard_text
            (text ++ 0 ∷ rest)
            clients
          ≡ some (map (λ c. text_packet text ∷ []) clients))
        × (run f float_eq hash write (map (arriving f float_eq hash write e) ks) v ≡ some u)
        × (u.effects ≡ v.effects ++ set_clipboard text ∷ [])
        × (send_clipboard hash seen (some text) ≡ some (text_packet text ∷ []))
        × (events js bs s ≡ some (t, []))
        × (platform_get_clipboard_text t.world ≡ text)
  unfolding send_clipboard
  copy_paste ks js clients v s bs text rest seen plain short new still quiet up waits live enough
        comes lively plenty =
      let (u, runs, sets) = copied ks v text plain short still quiet up waits live enough in
      let (t, returns, pastes) = pasted js s bs text plain short comes lively plenty in
      (
        u,
        t,
        sent_to_all (text ++ 0 ∷ rest) (text_packet text) clients
            (clipboard_packet-text text rest plain),
        runs,
        sets,
        ground (arith, new),
        returns,
        pastes,
      )
