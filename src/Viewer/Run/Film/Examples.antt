-- ===== src/Viewer/Run/Film/Examples.antt =====
-- The theorem on films at two frames, which come in seven bytes at a time.
use nxdb.Common.{
  ℕ, zero, suc, ◌+◌, ◌*◌, ◌/◌, ◌%◌, ◌^◌, ◌<◌, ◌≤◌, ◌≢◌, ◌≡◌, refl, inl, Bool, true, false, List, [],
  ◌∷◌, All, map, none, some, arith, ltb, ◌==◌, length, replicate, length-replicate, put_u32,
}
use nxdb.Wire.{Packet, draw_data, no_packet, encode, header}
use nxdb.Server.{would_block}
use nxdb.Server.Arrival.{wire}
use nxdb.Draw.{Floats, Point, DrawList, DrawData}
use nxdb.Draw.Layout.{put_u16}
use nxdb.Draw.Pack.{
  Hashes, Packer, hash_draw_list, pack, pack_lists, put_header, put_list, clamp_list,
}
use nxdb.Draw.Unpack.{is_blank}
use nxdb.Draw.Sync.{IsShowable}
use nxdb.Draw.Frames.{IsSendable}
use nxdb.Draw.Size.{lists_size, list_size}
use nxdb.Viewer.Link.{connecting}
use nxdb.Viewer.Run.{Inbox, Viewer, Env, opened, inbox_capacity, run}
use nxdb.Viewer.Run.Buffer.{waiting, IsOrderly}
use nxdb.Viewer.Run.Arrival.{arriving}
use nxdb.Viewer.Run.Film.{film, shows, IsSmall, film_delivered}

abbrev whole : Floats
whole = record {
  of_int = λ n. n;
  to_u16 = λ n. n % 2 ^ 16;
  mul = λ a b. a * b;
  div = λ a b. a / b;
  less = ltb;
}

abbrev counts : Hashes
counts = record { vertices = length; indices = length; commands = length }

abbrev unit : Point
unit = record { x = 1; y = 1 }

abbrev row : DrawList
row = record { commands = []; vertices = []; indices = 5 ∷ [] }

abbrev longer_row : DrawList
longer_row = record { commands = []; vertices = []; indices = 5 ∷ 6 ∷ [] }

abbrev first : DrawData
first = record { cursor = 0; lists = row ∷ []; total_vtx_count = 0; total_idx_count = 1 }

abbrev second : DrawData
second = record {
  cursor = 2;
  lists = row ∷ longer_row ∷ [];
  total_vtx_count = 0;
  total_idx_count = 3;
}

abbrev zero_word : ℕ
zero_word = 0

blank_hashes : List ℕ
blank_hashes = replicate 128 0

length-blank_hashes : length blank_hashes ≡ 128
unfolding blank_hashes
length-blank_hashes = length-replicate 128 zero_word

zeros : (n : ℕ) → All (λ x. x ≡ 0) (replicate n zero_word)
zeros zero = tt
zeros (suc n) = (refl, zeros n)

blank_hashes-zero : All (λ x. x ≡ 0) blank_hashes
unfolding blank_hashes
blank_hashes-zero = zeros 128

abbrev reset : Packer
reset = record { hashes = blank_hashes; num_prev = 0 }

abbrev packets : List Packet
packets =
    record {
      type = draw_data;
      body =
          0 ∷ 0 ∷ 0 ∷ 0 ∷ 1 ∷ 0 ∷ 0 ∷ 0 ∷ 0 ∷ 0 ∷ 0 ∷ 0 ∷ 1 ∷ 0 ∷ 0 ∷ 0 ∷ 0 ∷ 0 ∷ 0 ∷ 0 ∷ 0 ∷ 0 ∷ 0
          ∷ 0 ∷ 1 ∷ 0 ∷ 0 ∷ 0 ∷ 5 ∷ 0 ∷ [];
    }
    ∷ record {
      type = draw_data;
      body =
          2 ∷ 0 ∷ 0 ∷ 0 ∷ 2 ∷ 0 ∷ 0 ∷ 0 ∷ 0 ∷ 0 ∷ 0 ∷ 0 ∷ 3 ∷ 0 ∷ 0 ∷ 0 ∷ 0 ∷ 0 ∷ 0 ∷ 0 ∷ 0 ∷ 0 ∷ 0
          ∷ 0 ∷ 0 ∷ 0 ∷ 0 ∷ 0 ∷ 0 ∷ 0 ∷ 0 ∷ 0 ∷ 0 ∷ 0 ∷ 0 ∷ 0 ∷ 2 ∷ 0 ∷ 0 ∷ 0 ∷ 5 ∷ 0 ∷ 6 ∷ 0 ∷ [];
    }
    ∷ []

film_packed : film whole counts unit (first ∷ second ∷ []) reset ≡ some packets
unfolding film blank_hashes pack pack_lists put_list clamp_list put_header hash_draw_list put_u32
    put_u16
film_packed = refl

row-IsShowable : IsShowable row × IsShowable longer_row
unfolding is_blank
row-IsShowable = (
  record {
    drawable = record {
      commands = omega arith;
      vertices = omega arith;
      indices = omega arith;
      colours = tt;
    };
    filled = refl;
  },
  record {
    drawable = record {
      commands = omega arith;
      vertices = omega arith;
      indices = omega arith;
      colours = tt;
    };
    filled = refl;
  },
)

first-IsSendable : IsSendable first
first-IsSendable = record {
  cursor = omega arith;
  vtx_count = omega arith;
  idx_count = omega arith;
  lists = (row-IsShowable.0, tt);
  room = omega arith;
}

second-IsSendable : IsSendable second
second-IsSendable = record {
  cursor = omega arith;
  vtx_count = omega arith;
  idx_count = omega arith;
  lists = (row-IsShowable.0, (row-IsShowable.1, tt));
  room = omega arith;
}

small : All IsSmall (first ∷ second ∷ [])
unfolding lists_size list_size
small = (omega arith, (omega arith, tt))

memory : List ℕ
memory = replicate 0x10_0000 0

length-memory : length memory ≡ inbox_capacity
unfolding memory
length-memory = length-replicate 0x10_0000 zero_word

abbrev blank : Inbox
blank = record {
  buffer = memory;
  buffer_size = 0;
  next_packet_size = 0;
  next_packet_type = no_packet;
}

abbrev viewer : Viewer (List ℕ)
viewer = record {
  link = record { socket = wire packets; state = connecting };
  has_sent_hello = true;
  inbox = blank;
  last_alive = 0;
  last_input = 0;
  seen = record {
    size = record { x = 1; y = 1 };
    cursor = record { x = 0; y = 0 };
    clipboard_hash = 0;
  };
  display = unit;
  prev = none;
  effects = [];
  dead = false;
}

abbrev env : Env (List ℕ)
env = record {
  now = 0;
  open_socket = λ k. opened k;
  window = none;
  closing = false;
  polled = [];
  iconified = false;
  recv = λ n k. (would_block, k);
}

abbrev write : List ℕ → List ℕ → Bool × List ℕ
write bs k = (true, k)

rounds : List ℕ
rounds = replicate 92 7

enough : length (wire packets) + 2 ≤ length rounds
unfolding rounds wire encode header put_u32
enough = omega arith

sevens : (n : ℕ) → All (λ k. 0 < k) (replicate n 7)
sevens zero = tt
sevens (suc n) = (omega arith, sevens n)

rounds-positive : All (λ k. 0 < k) rounds
unfolding rounds
rounds-positive = sevens 92

nonzero : (hash_draw_list counts row ≢ 0) × (hash_draw_list counts longer_row ≢ 0)
unfolding hash_draw_list
nonzero = (omega arith, omega arith)

blank-IsOrderly : IsOrderly blank
blank-IsOrderly = record {
  capacity = length-memory;
  within = omega arith;
  framed = inl (refl, refl);
}

film_delivered_example :
    (u : Viewer (List ℕ)) × (run whole ◌==◌ length write
        (map (arriving whole ◌==◌ length write env) rounds)
        viewer
      ≡ some u)
    × (u.effects ≡ shows whole unit unit (first ∷ second ∷ []))
    × (u.link.socket ≡ [])
    × (waiting u.inbox ≡ [])
film_delivered_example =
    film_delivered whole ◌==◌ length write env counts unit unit refl
      (record { unpolled = refl; stays = refl }) rounds (first ∷ second ∷ []) [] reset packets
      viewer (record { long = length-blank_hashes; hashed = blank_hashes-zero; has = tt })
      (first-IsSendable, (nonzero.0, tt), (second-IsSendable, ((λ e. refl), (nonzero.1, tt)), tt))
      small refl film_packed
      (record { living = refl; greeted = refl; alive_later = refl; input_later = refl }) refl
      blank-IsOrderly refl rounds-positive enough
