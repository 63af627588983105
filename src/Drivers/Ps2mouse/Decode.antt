-- ===== src/Drivers/Ps2mouse/Decode.antt =====
-- Packets of the PS/2 mouse (modules/ps2mouse/ps2mouse.c): the decoder against the format, and how
-- bytes become events.
use shit_os.Prelude.{
  ℕ, ◌+◌, ◌-◌, ◌<◌, ◌≡◌, refl, ◌%◌, ◌⊎◌, List, [], ◌∷◌, Bool, true, false, bit, if◌then◌else◌,
  arith, length, set, length-set,
}
use shit_os.Prelude.Int.{ℤ, pos, negsuc, ◌≤ℤ◌}
use shit_os.Drivers.Ring.Refine
use shit_os.Drivers.Ring.Refine.{IsCapacity, push-IsValid}
use shit_os.Drivers.Kernel.{KernelApi}
use shit_os.Drivers.Ps2mouse.Packet.{
  Mouse, MouseEvent, event_capacity, sign_extend, scroll, decode, take_byte,
}

-- Nine-bit two's complement: the sign and the byte.
abbrev pub sign_of : ℤ → Bool
sign_of (pos n) = false
sign_of (negsuc n) = true

abbrev pub byte_of : ℤ → ℕ
byte_of (pos n) = n
byte_of (negsuc n) = 255 - n

-- four-bit two's complement
abbrev pub nibble_of : ℤ → ℕ
nibble_of (pos n) = n
nibble_of (negsuc n) = 15 - n

-- what a mouse sends for an event: bit 3 of the first byte is set, the overflow bits are not
abbrev pub encode : MouseEvent → List ℕ
encode e =
    (e.buttons + 8 + (if sign_of e.dx then 16 else 0) + (if sign_of e.dy then 32 else 0))
    ∷ byte_of e.dx
    ∷ byte_of e.dy
    ∷ nibble_of e.dz
    ∷ []

pub record IsReportable (e : MouseEvent) : Type 0 where
  pub dx_in : (negsuc 255 ≤ℤ e.dx) × (e.dx ≤ℤ pos 255)
  pub dy_in : (negsuc 255 ≤ℤ e.dy) × (e.dy ≤ℤ pos 255)
  pub dz_in : (negsuc 7 ≤ℤ e.dz) × (e.dz ≤ℤ pos 7)
  pub buttons_in : e.buttons < 8

delta_lem : (z : ℤ) → negsuc 255 ≤ℤ z → z ≤ℤ pos 255 → sign_extend (sign_of z) (byte_of z) ≡ z
unfolding sign_extend
delta_lem (pos n) lo hi = refl
delta_lem (negsuc n) lo hi = ground arith

scroll_lem : (z : ℤ) → negsuc 7 ≤ℤ z → z ≤ℤ pos 7 → scroll (nibble_of z) ≡ z
unfolding scroll
scroll_lem (pos n) lo hi = ground arith
scroll_lem (negsuc n) lo hi = ground arith

flag_lem :
    (buttons : ℕ) (sx sy : Bool)
    → buttons < 8
    → let flags = buttons + 8 + (if sx then 16 else 0) + (if sy then 32 else 0) in
      (bit 3 flags ≡ true)
      × (bit 4 flags ≡ sx)
      × (bit 5 flags ≡ sy)
      × (bit 6 flags ≡ false)
      × (bit 7 flags ≡ false)
      × (flags % 8 ≡ buttons)
flag_lem buttons sx sy h = ground arith

-- With a wheel, decoding what the format gives for an event gives the event: any move from -256 to
-- 255, any scroll from -8 to 7 and any buttons.
pub decode-encode : (e : MouseEvent) → IsReportable e → decode true (encode e) ≡ e
unfolding decode
decode-encode e v = ground (
  arith,
  flag_lem e.buttons (sign_of e.dx) (sign_of e.dy) v.buttons_in,
  delta_lem e.dx v.dx_in.0 v.dx_in.1,
  delta_lem e.dy v.dy_in.0 v.dy_in.1,
  scroll_lem e.dz v.dz_in.0 v.dz_in.1,
)

-- The packet buffer is in range, and a packet is never whole between two interrupts.
pub record IsValid (m : Mouse) : Type 0 where
  pub buffer : length m.packet ≡ 4
  pub size_in : (m.packet_size ≡ 3) ⊎ (m.packet_size ≡ 4)
  pub begun : m.packet_length < m.packet_size
  pub events_valid : Refine.IsValid event_capacity m.events

event_capacity-IsCapacity : IsCapacity event_capacity
event_capacity-IsCapacity = omega arith

module _ (kernel : KernelApi) where
  open kernel use {World}

  -- A byte keeps the invariant, whatever the byte.
  pub take_byte-IsValid :
      (m : Mouse) (byte : ℕ) (w : World) → IsValid m → IsValid (take_byte kernel m byte w).0
  unfolding take_byte
  take_byte-IsValid m byte w v = ground (
    arith,
    length-set m.packet m.packet_length byte,
    push-IsValid v.events_valid (decode m.has_wheel (set m.packet m.packet_length byte))
        event_capacity-IsCapacity,
  )
