-- ===== src/Drivers/Ps2mouse/Packet.antt =====
-- modules/ps2mouse/ps2mouse.c: the interrupt handler, which puts packets together and decodes them,
-- and the read of /dev/mouse0.
use shit_os.Prelude.{
  ℕ, ◌+◌, ◌%◌, ◌^◌, Bool, true, false, not, ◌&&◌, ◌||◌, List, Option, none, some, ltb, ◌==◌, bit,
  if◌then◌else◌, get_or, set,
}
use shit_os.Prelude.Int.{ℤ, pos, pos_part, neg_part, ◌-ℤ◌}
use shit_os.Drivers.Ring.{Ring, is_empty, push, drain}
use shit_os.Drivers.Kernel.{KernelApi}

abbrev pub event_capacity : ℕ
event_capacity = 128

-- `struct mouse_event`, without its reserved field, which is 0
pub record MouseEvent : Type 0 where
  pub dx : ℤ
  pub dy : ℤ
  pub dz : ℤ
  pub buttons : ℕ

abbrev pub no_event : MouseEvent
no_event = record { dx = pos 0; dy = pos 0; dz = pos 0; buttons = 0 }

-- `struct Ps2Mouse`: `events`, `head`, `tail` and `events_dropped` are the ring.
pub record Mouse : Type 0 where
  pub readers : ℕ
  pub events : Ring MouseEvent
  pub packet : List ℕ
  pub packet_length : ℕ
  pub packet_size : ℕ
  pub has_wheel : Bool
  pub packets_seen : ℕ
  pub resynchronisations : ℕ

-- a byte with `dx |= (i16)0xFF00` if the sign flag is set: 256 less
unfoldable pub sign_extend : Bool → ℕ → ℤ
unfolding ◌-ℤ◌
sign_extend negative byte = if negative then pos byte -ℤ pos 256 else pos byte

-- the signed scroll in the low nibble
unfoldable pub scroll : ℕ → ℤ
unfolding ◌-ℤ◌
scroll byte = if ltb 7 (byte % 16) then pos (byte % 16) -ℤ pos 16 else pos (byte % 16)

-- the event of a whole packet
unfoldable pub decode : Bool → List ℕ → MouseEvent
unfolding sign_extend scroll
decode has_wheel packet =
    let flags = get_or packet 0 0 in
    let overflow = bit 6 flags || bit 7 flags in
    record {
      dx = if overflow then pos 0 else sign_extend (bit 4 flags) (get_or packet 1 0);
      dy = if overflow then pos 0 else sign_extend (bit 5 flags) (get_or packet 2 0);
      dz = if has_wheel then scroll (get_or packet 3 0) else pos 0;
      buttons = flags % 8;
    }

abbrev pub is_zero : ℤ → Bool
is_zero z = (pos_part z == 0) && (neg_part z == 0)

-- whether there is anything to say: a move, a scroll, a button, or a reader still behind
unfoldable pub worth_sending : Mouse → MouseEvent → Bool
worth_sending m event =
    not (is_zero event.dx)
    || (not (is_zero event.dy)
        || (not (is_zero event.dz) || (not (event.buttons == 0) || not (is_empty m.events))))

module _ (kernel : KernelApi) where
  open kernel use {World, inb, waitqueue_wake_all}

  -- the handler from the reset of `packet_length` on
  unfoldable pub finish_packet : Mouse → World → Mouse × World
  finish_packet m w =
      let m1 = record m { packet_length = 0; packets_seen = (m.packets_seen + 1) % 2 ^ 64 } in
      let event = decode m.has_wheel m.packet in
      if worth_sending m event
      then (
        record m1 { events = push event_capacity m.events event },
        waitqueue_wake_all m.readers w,
      )
      else (m1, w)

  -- one byte from the mouse
  unfoldable pub take_byte : Mouse → ℕ → World → Mouse × World
  unfolding finish_packet
  take_byte m byte w =
      let m1 = record m {
        packet = set m.packet m.packet_length byte;
        packet_length = m.packet_length + 1;
      } in
      if (m.packet_length == 0) && not (bit 3 byte)
      then (record m { resynchronisations = (m.resynchronisations + 1) % 2 ^ 64 }, w)
      else if ltb (m.packet_length + 1) m.packet_size
      then (m1, w)
      else finish_packet m1 w

  -- A byte of the keyboard's, and no byte at all, are left to others.
  unfoldable pub mouse_irq : Mouse → World → Bool × Mouse × World
  mouse_irq m w =
      let (status, w1) = inb 0x64 w in
      let (byte, w2) = inb 0x60 w1 in
      let (m', w') = take_byte m byte w2 in
      if not (bit 0 status)
      then (false, m, w1)
      else if not (bit 5 status)
      then (false, m, w1)
      else (true, m', w')

unfoldable pub mouse_poll_readable : Mouse → Bool
mouse_poll_readable m = not (is_empty m.events)

-- sizeof(struct mouse_event)
abbrev pub event_size : ℕ
event_size = 8

-- `mouse_read` once there is an event: what it copies out, `none` for EINVAL
unfoldable pub mouse_read : Mouse → ℕ → Option (List MouseEvent × Mouse)
mouse_read m length =
    let (out, r) = drain event_capacity no_event event_size (length + 1) length 0 m.events in
    if ltb length event_size then none else some (out, record m { events = r })
