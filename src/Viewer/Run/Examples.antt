-- ===== src/Viewer/Run/Examples.antt =====
-- Tests of the viewer's rounds, and their theorems at a connected viewer.
use nxdb.Common.{
  ℕ, ◌*◌, ◌/◌, ◌≡◌, refl, inl, Bool, true, false, List, [], ◌∷◌, ◌++◌, none, some, arith, ltb, leb,
  ◌==◌, if◌then◌else◌, length, replicate, length-replicate, take, write_at, put_u32,
}
use nxdb.Wire.{no_packet, is_no_packet, header, to_code}
use nxdb.Server.{Recv, received, closed_by_peer, would_block}
use nxdb.Draw.{Floats}
use nxdb.Viewer.Link.{no_socket, connecting, send_packet, send_rest, write_once, send_size}
use nxdb.Viewer.Run.{
  Inbox, Viewer, Env, opened, inbox_capacity, start, read_inbox_header, inbox_whole, send,
  send_hello, send_alive, send_input, handle_inbox, receive, read_socket, take_in, round, run,
}
use nxdb.Viewer.Run.Buffer.{waiting, IsOrderly}
use nxdb.Viewer.Run.Rounds.{Passed, run-IsOrderly}
use nxdb.Viewer.Run.Reconnect.{closed_unnoticed, reconnect_mixes}

abbrev whole : Floats
whole = record {
  of_int = λ n. n;
  to_u16 = λ n. n;
  mul = λ a b. a * b;
  div = λ a b. a / b;
  less = ltb;
}

abbrev write : List ℕ → List ℕ → Bool × List ℕ
write bs k = (true, k ++ bs)

abbrev zero_byte : ℕ
zero_byte = 0

memory : List ℕ
memory = replicate 0x10_0000 0

length-memory : length memory ≡ inbox_capacity
unfolding memory
length-memory = length-replicate 0x10_0000 zero_byte

abbrev blank : Inbox
blank = record {
  buffer = memory;
  buffer_size = 0;
  next_packet_size = 0;
  next_packet_type = no_packet;
}

blank-IsOrderly : IsOrderly blank
blank-IsOrderly = record {
  capacity = length-memory;
  within = omega arith;
  framed = inl (refl, refl);
}

abbrev viewer : Viewer (List ℕ)
viewer = record {
  link = record { socket = []; state = connecting };
  has_sent_hello = true;
  inbox = blank;
  last_alive = 0;
  last_input = 0;
  seen = record {
    size = record { x = 0; y = 0 };
    cursor = record { x = 0; y = 0 };
    clipboard_hash = 0;
  };
  display = record { x = 0; y = 0 };
  prev = none;
  effects = [];
  dead = false;
}

abbrev answers : ℕ → Recv → Env (List ℕ)
answers now r = record {
  now = now;
  open_socket = λ k. opened [];
  window = none;
  closing = false;
  polled = [];
  iconified = false;
  recv = λ n k. (r, k);
}

abbrev arriving : Env (List ℕ)
arriving = record (answers 5 would_block) {
  recv = λ n k. (if leb 3 n then received (4 ∷ 0 ∷ 0 ∷ []) else would_block, k);
}

-- A header of which three bytes have come in.
abbrev started : Viewer (List ℕ)
started = record viewer {
  inbox = record blank { buffer = write_at memory 0 (4 ∷ 0 ∷ 0 ∷ []); buffer_size = 3 };
}

three_bytes : run whole ◌==◌ length write (arriving ∷ []) viewer ≡ some started
unfolding run round send_hello send_alive send_input take_in handle_inbox read_inbox_header
    inbox_whole read_socket receive is_no_packet
three_bytes = refl

end_of_stream : run whole ◌==◌ length write (answers 5 closed_by_peer ∷ []) viewer ≡ some viewer
unfolding run round send_hello send_alive send_input take_in handle_inbox read_inbox_header
    inbox_whole read_socket receive is_no_packet
end_of_stream = refl

-- Six seconds after the last one an `Alive` is sent.
sign_of_life :
    send_alive whole ◌==◌ length write (answers 6_000_000_000 would_block) viewer
    ≡ some (record viewer {
      link = record {
        socket = 4 ∷ 0 ∷ 0 ∷ 0 ∷ 2 ∷ 0 ∷ 0 ∷ 0 ∷ 0 ∷ 0 ∷ 0 ∷ 0 ∷ [];
        state = connecting;
      };
      last_alive = 6_000_000_000;
    })
unfolding send_alive send send_packet send_rest write_once send_size header to_code put_u32
sign_of_life = refl

abbrev lost : Viewer (List ℕ)
lost = record viewer { link = record { socket = 7 ∷ []; state = no_socket } }

abbrev again : Viewer (List ℕ)
again = record viewer { has_sent_hello = false }

reconnected : round whole ◌==◌ length write (answers 5 would_block) lost ≡ some again
unfolding round start
reconnected = refl

run-IsOrderly_example : Passed whole ◌==◌ length write (arriving ∷ []) viewer
run-IsOrderly_example =
    run-IsOrderly whole ◌==◌ length write (arriving ∷ []) viewer ((λ n k bs e. ground arith), tt)
      blank-IsOrderly

closed_unnoticed_example : viewer.link.state ≡ connecting
closed_unnoticed_example =
    closed_unnoticed whole ◌==◌ length write (answers 5 closed_by_peer ∷ []) viewer viewer
      (λ bs k. refl) ((λ n k. refl), tt) blank-IsOrderly refl end_of_stream

reconnect_mixes_example :
    waiting (read_socket (answers 6 (received (9 ∷ []))) again).inbox ≡ take 0 memory ++ 9 ∷ []
reconnect_mixes_example =
    reconnect_mixes whole ◌==◌ length write (answers 5 would_block) (answers 6 (received (9 ∷ [])))
      lost again (9 ∷ []) blank-IsOrderly refl reconnected refl (omega arith)
