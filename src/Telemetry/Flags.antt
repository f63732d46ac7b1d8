-- ===== src/Telemetry/Flags.antt =====
-- The flag bytes of src/v3xctrl_telemetry/dataclasses.py.
use v3xctrl.Base.{
  ℕ, ◌+◌, ◌*◌, ◌/◌, ◌%◌, ◌^◌, ◌<◌, ◌≡◌, Bool, false, nat_eq, ◌==◌, if◌then◌else◌, arith,
}

-- `bool(byte & (1 << k))`
abbrev pub test_bit : ℕ → ℕ → Bool
test_bit k byte = byte / 2 ^ k % 2 == 1

-- `byte | (1 << k)`
abbrev pub set_bit : ℕ → ℕ → ℕ
set_bit k byte = if test_bit k byte then byte else byte + 2 ^ k

-- `if flag: byte |= 1 << k`
abbrev pub add_flag : ℕ → Bool → ℕ → ℕ
add_flag k flag byte = if flag then set_bit k byte else byte

pub record GstFlags : Type 0 where
  pub recording : Bool
  pub udp_overrun : Bool

pub record ServiceFlags : Type 0 where
  pub video : Bool
  pub reverse_shell : Bool
  pub debug : Bool

pub record ThrottleFlags : Type 0 where
  pub undervolt : Bool
  pub freq_capped : Bool
  pub throttled : Bool
  pub soft_temp_limit : Bool

pub record VideoCoreFlags : Type 0 where
  pub current : ThrottleFlags
  pub history : ThrottleFlags

-- The defaults of the four classes.
abbrev pub no_gst_flags : GstFlags
no_gst_flags = record { recording = false; udp_overrun = false }

abbrev pub no_service_flags : ServiceFlags
no_service_flags = record { video = false; reverse_shell = false; debug = false }

abbrev pub no_throttle_flags : ThrottleFlags
no_throttle_flags = record {
  undervolt = false;
  freq_capped = false;
  throttled = false;
  soft_temp_limit = false;
}

abbrev pub no_video_core_flags : VideoCoreFlags
no_video_core_flags = record { current = no_throttle_flags; history = no_throttle_flags }

unfoldable pub gst_to_byte : GstFlags → ℕ
gst_to_byte f = add_flag 1 f.udp_overrun (add_flag 0 f.recording 0)

unfoldable pub gst_from_byte : ℕ → GstFlags
gst_from_byte byte = record { recording = test_bit 0 byte; udp_overrun = test_bit 1 byte }

unfoldable pub service_to_byte : ServiceFlags → ℕ
service_to_byte f = add_flag 2 f.debug (add_flag 1 f.reverse_shell (add_flag 0 f.video 0))

unfoldable pub service_from_byte : ℕ → ServiceFlags
service_from_byte byte = record {
  video = test_bit 0 byte;
  reverse_shell = test_bit 1 byte;
  debug = test_bit 2 byte;
}

unfoldable pub to_nibble : ThrottleFlags → ℕ
to_nibble f =
    add_flag 3 f.soft_temp_limit
      (add_flag 2 f.throttled (add_flag 1 f.freq_capped (add_flag 0 f.undervolt 0)))

unfoldable pub from_nibble : ℕ → ThrottleFlags
from_nibble nibble = record {
  undervolt = test_bit 0 nibble;
  freq_capped = test_bit 1 nibble;
  throttled = test_bit 2 nibble;
  soft_temp_limit = test_bit 3 nibble;
}

-- `(c & 0x0F) | ((h & 0x0F) << 4)`: the two parts have no bit in common.
unfoldable pub video_core_to_byte : VideoCoreFlags → ℕ
unfolding to_nibble
video_core_to_byte f = to_nibble f.current % 16 + to_nibble f.history % 16 * 16

unfoldable pub video_core_from_byte : ℕ → VideoCoreFlags
unfolding from_nibble
video_core_from_byte byte = record {
  current = from_nibble (byte % 16);
  history = from_nibble (byte / 16 % 16);
}

pub gst_from_byte-to_byte : (f : GstFlags) → gst_from_byte (gst_to_byte f) ≡ f
unfolding gst_to_byte gst_from_byte
gst_from_byte-to_byte f = ground arith

pub service_from_byte-to_byte : (f : ServiceFlags) → service_from_byte (service_to_byte f) ≡ f
unfolding service_to_byte service_from_byte
service_from_byte-to_byte f = ground arith

pub to_nibble_lem :
    (f : ThrottleFlags)
    → to_nibble f
      ≡ (if f.undervolt then 1 else 0)
        + (if f.freq_capped then 2 else 0)
        + (if f.throttled then 4 else 0)
        + (if f.soft_temp_limit then 8 else 0)
unfolding to_nibble
to_nibble_lem f = ground arith

pub to_nibble-lt : (f : ThrottleFlags) → to_nibble f < 16
to_nibble-lt f = ground (arith, to_nibble_lem f)

pub from_nibble-to_nibble : (f : ThrottleFlags) → from_nibble (to_nibble f) ≡ f
unfolding from_nibble
from_nibble-to_nibble f = ground (arith, to_nibble_lem f)

pub to_nibble-from_nibble : (n : ℕ) → to_nibble (from_nibble n) ≡ n % 16
unfolding from_nibble
to_nibble-from_nibble n = ground (arith, to_nibble_lem (from_nibble n))

pub service_to_byte-from_byte : (n : ℕ) → service_to_byte (service_from_byte n) ≡ n % 8
unfolding service_to_byte service_from_byte
service_to_byte-from_byte n = ground arith
