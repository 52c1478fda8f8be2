-- ===== src/Viewer/Run/Buffer.antt =====
-- The viewer's receive buffer: what each part of a round does to it.
use nxdb.Common.{
  ℕ, Bool, ◌==◌, ◌+◌, ◌-◌, ◌≤◌, ◌≡◌, refl, sym, ap, ◌∙◌, ◌⊎◌, inl, inr, List, ◌++◌, arith, leb,
  Bool-cases, length, take, get_u32, write_at, ◌&&◌,
}
use nxdb.Wire.{no_packet, of_code, is_no_packet}
use nxdb.Server.Buffer.{
  get_u32-append, get_u32-take, take-write_at, length-write_at, length-move_down, length-front,
}
use nxdb.Viewer.Run.{Inbox, inbox_capacity, read_inbox_header, inbox_whole, take_out}

-- The bytes that have come in and that no packet has used yet.
abbrev pub waiting : Inbox → List ℕ
waiting b = take b.buffer_size b.buffer

-- The buffer has its size, and the header fields are blank or those of the bytes that wait.
pub record IsOrderly (b : Inbox) : Type 0 where
  pub capacity : length b.buffer ≡ inbox_capacity
  pub within : b.buffer_size ≤ inbox_capacity
  pub framed :
      ((b.next_packet_type ≡ no_packet) × (b.next_packet_size ≡ 0))
      ⊎ ((8 ≤ b.buffer_size)
          × (b.next_packet_size ≡ get_u32 (waiting b) 0)
          × (b.next_packet_type ≡ of_code (get_u32 (waiting b) 4)))

module _ (b : Inbox) (v : IsOrderly b) where
  pub length-waiting : length (waiting b) ≡ b.buffer_size
  length-waiting = length-front b.buffer b.buffer_size (omega arith)

  abbrev header_waits : Bool
  header_waits = is_no_packet b.next_packet_type && b.next_packet_size == 0 && leb 8 b.buffer_size

  pub read_inbox_header-IsOrderly :
      IsOrderly (read_inbox_header b)
      × ((read_inbox_header b).buffer ≡ b.buffer)
      × ((read_inbox_header b).buffer_size ≡ b.buffer_size)
  unfolding read_inbox_header
  read_inbox_header-IsOrderly = elim (Bool-cases header_waits) [
    | inl there ↦
        let long : 8 ≤ b.buffer_size = ground arith in
        let first = get_u32-take b.buffer b.buffer_size 0 (omega arith) (omega arith) in
        let second = get_u32-take b.buffer b.buffer_size 4 (omega arith) (omega arith) in
        rw there (
          record {
            capacity = v.capacity;
            within = v.within;
            framed = inr (long, first, ap of_code second);
          },
          refl,
          refl,
        )
    | inr absent ↦ rw absent (v, refl, refl)
  ]

  pub take_out-IsOrderly : inbox_whole b ≤ b.buffer_size → IsOrderly (take_out b)
  unfolding take_out
  take_out-IsOrderly h = record {
    capacity =
        length-move_down b.buffer b.buffer_size (omega arith) (inbox_whole b)
          (b.buffer_size - inbox_whole b) (omega arith)
        ∙ v.capacity;
    within = omega arith;
    framed = inl (refl, refl);
  }

  module _ (bs : List ℕ) (fits : b.buffer_size + length bs ≤ inbox_capacity) where
    abbrev filled : Inbox
    filled = record b {
      buffer = write_at b.buffer b.buffer_size bs;
      buffer_size = b.buffer_size + length bs;
    }

    pub waiting-filled : waiting filled ≡ waiting b ++ bs
    waiting-filled = take-write_at b.buffer b.buffer_size (omega arith) bs

    pub filled-IsOrderly : IsOrderly filled
    filled-IsOrderly = record {
      capacity = length-write_at b.buffer b.buffer_size (omega arith) bs (omega arith) ∙ v.capacity;
      within = fits;
      framed = elim v.framed [
        | inl blank ↦ inl blank
        | inr (full, size, kind) ↦
            let first = get_u32-append (waiting b) bs 0 (omega (arith, length-waiting)) in
            let second = get_u32-append (waiting b) bs 4 (omega (arith, length-waiting)) in
            inr (
              omega arith,
              size ∙ sym (ap (λ m. get_u32 m 0) waiting-filled ∙ first),
              kind ∙ sym (ap (λ m. of_code (get_u32 m 4)) waiting-filled ∙ ap of_code second),
            )
      ];
    }
