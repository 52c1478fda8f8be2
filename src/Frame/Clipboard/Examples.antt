-- ===== src/Frame/Clipboard/Examples.antt =====
-- Tests of the clipboard, and its theorem at a short text.
use nxdb.Common.{
  ◌*◌, ◌/◌, ◌≡◌, refl, true, false, List, [], ◌∷◌, none, some, arith, ltb, ◌==◌, length, c_string,
  ℕ, map, inl, replicate, length-replicate, put_u32,
}
use nxdb.Wire.{no_packet, header, encode}
use nxdb.Server.{Connection, World, State, would_block, buffer_capacity}
use nxdb.Server.Arrival.{wire, Waits as ServerWaits}
use nxdb.Server.Delivery.{events}
use nxdb.Draw.{Floats}
use nxdb.Viewer.Input.{send_clipboard}
use nxdb.Viewer.Link.{connecting}
use nxdb.Viewer.Run.{Viewer, Env, Inbox, opened, set_clipboard, inbox_capacity, run}
use nxdb.Viewer.Run.Arrival.{arriving, Waits as ViewerWaits}
use nxdb.Frame.Clipboard.{
  clipboard_packet, platform_set_clipboard_text, platform_get_clipboard_text,
}
use nxdb.Frame.Clipboard.Echo.{copy_paste, text_packet}

abbrev whole : Floats
whole = record {
  of_int = λ n. n;
  to_u16 = λ n. n;
  mul = λ a b. a * b;
  div = λ a b. a / b;
  less = ltb;
}

abbrev client : Connection
client = record {
  fd = 3;
  buffer = [];
  buffer_size = 0;
  next_packet_size = 0;
  next_packet_type = no_packet;
  last_alive = 0;
  has_sent_font_texture = true;
}

abbrev viewer : Viewer (List ℕ)
viewer = record {
  link = record { socket = []; state = connecting };
  has_sent_hello = true;
  inbox = record {
    buffer = [];
    buffer_size = 0;
    next_packet_size = 0;
    next_packet_type = no_packet;
  };
  last_alive = 0;
  last_input = 0;
  seen = record {
    size = record { x = 0; y = 0 };
    cursor = record { x = 0; y = 0 };
    clipboard_hash = 0;
  };
  display = record { x = 0; y = 0 };
  prev = none;
  effects = [];
  dead = false;
}

abbrev env : Env (List ℕ)
env = record {
  now = 5;
  open_socket = λ k. opened [];
  window = none;
  closing = false;
  polled = [];
  iconified = false;
  recv = λ n k. (would_block, k);
}

abbrev interface : World
interface = record {
  display_width = 0;
  display_height = 0;
  inputs = [];
  rerender = false;
  clipboard = 9 ∷ [];
  closed = [];
}

unended : platform_set_clipboard_text (65 ∷ 66 ∷ []) (client ∷ []) ≡ none
unfolding platform_set_clipboard_text clipboard_packet c_string
unended = refl

-- With no client the text goes nowhere.
nobody : platform_set_clipboard_text (65 ∷ 0 ∷ []) [] ≡ some []
unfolding platform_set_clipboard_text
nobody = refl

abbrev text : List ℕ
text = 65 ∷ 66 ∷ []

abbrev zero_byte : ℕ
zero_byte = 0

-- The receive buffers of the two sides.
memory : List ℕ
memory = replicate 0x10_0000 0

length-memory : length memory ≡ inbox_capacity
unfolding memory
length-memory = length-replicate 0x10_0000 zero_byte

server_memory : List ℕ
server_memory = replicate 4096 0

length-server_memory : length server_memory ≡ buffer_capacity
unfolding server_memory
length-server_memory = length-replicate 4096 zero_byte

abbrev blank : Inbox
blank = record {
  buffer = memory;
  buffer_size = 0;
  next_packet_size = 0;
  next_packet_type = no_packet;
}

abbrev receiving : Viewer (List ℕ)
receiving = record viewer {
  link = record { socket = wire (text_packet text ∷ []); state = connecting };
  inbox = blank;
}

receiving-Waits :
    ViewerWaits whole ◌==◌ length
      (λ bs k. (true, k))
      env
      receiving
      receiving
      (text_packet text ∷ [])
receiving-Waits = record {
  orderly = record { capacity = length-memory; within = omega arith; framed = inl (refl, refl) };
  stream = refl;
  same = refl;
}

abbrev server : State
server = record { conn = record client { buffer = server_memory }; world = interface }

server-Waits : ServerWaits server (wire (text_packet text ∷ [])) (text_packet text ∷ [])
server-Waits = record {
  valid = record {
    capacity = length-server_memory;
    within = omega arith;
    framed = inl (refl, refl);
  };
  stream = refl;
}

-- Four bytes in each round, three at each event.
abbrev fours : List ℕ
fours = 4 ∷ 4 ∷ 4 ∷ 4 ∷ 4 ∷ 4 ∷ 4 ∷ 4 ∷ 4 ∷ 4 ∷ 4 ∷ 4 ∷ []

abbrev threes : List (ℕ × ℕ)
threes = map (λ k. (5, 3)) fours

copy_paste_example :
    (u : Viewer (List ℕ)) × (t : State) × (platform_set_clipboard_text
        (65 ∷ 66 ∷ 0 ∷ 7 ∷ [])
        (client ∷ client ∷ [])
      ≡ some (map (λ c. text_packet text ∷ []) (client ∷ client ∷ [])))
    × (run whole ◌==◌ length
          (λ bs k. (true, k))
          (map (arriving whole ◌==◌ length (λ bs k. (true, k)) env) fours)
          receiving
        ≡ some u)
    × (u.effects ≡ set_clipboard text ∷ [])
    × (send_clipboard length 0 (some text) ≡ some (text_packet text ∷ []))
    × (events threes (wire (text_packet text ∷ [])) server ≡ some (t, []))
    × (platform_get_clipboard_text t.world ≡ text)
copy_paste_example =
    copy_paste whole ◌==◌ length (λ bs k. (true, k)) env fours threes (client ∷ client ∷ [])
      receiving server (wire (text_packet text ∷ [])) text (7 ∷ []) 0
      (omega arith, (omega arith, tt)) (omega arith) (omega arith)
      (record { unpolled = refl; stays = refl })
      (record { living = refl; greeted = refl; alive_later = refl; input_later = refl }) refl
      receiving-Waits (omega arith) (unfold wire encode header put_u32 in omega arith) server-Waits
      (omega arith) (unfold wire encode header put_u32 in omega arith)
