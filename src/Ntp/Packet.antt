-- ===== src/Ntp/Packet.antt =====
-- ntp/protocol/packet.go: the 48 bytes of an NTP packet. An `int8` field is its bit pattern, 0 to 255.
pub mod Laws
use ntp.Prelude.{
  ℕ, ◌+◌, ◌*◌, ◌/◌, ◌%◌, ◌<◌, ◌≡◌, Bool, true, false, ◌&&◌, ◌||◌, List, [], ◌∷◌, ◌++◌, Option, none,
  some, Error, Result, ok, err, panic, ◌>>=◌, ltb, leb, ◌==◌, if◌then◌else◌, length,
}
use ntp.Wire.Struct.{encode, binary_read}

abbrev pub packet_size_bytes : ℕ
packet_size_bytes = 48

pub record Packet : Type 0 where
  pub settings : ℕ  -- uint8: leap indicator, version, mode
  pub stratum : ℕ  -- uint8
  pub poll : ℕ  -- int8
  pub precision : ℕ  -- int8
  pub root_delay : ℕ  -- uint32, like all below
  pub root_dispersion : ℕ
  pub reference_id : ℕ
  pub ref_time_sec : ℕ
  pub ref_time_frac : ℕ
  pub orig_time_sec : ℕ
  pub orig_time_frac : ℕ
  pub rx_time_sec : ℕ
  pub rx_time_frac : ℕ
  pub tx_time_sec : ℕ
  pub tx_time_frac : ℕ

-- Every field fits its Go type.
pub record IsPacket (p : Packet) : Type 0 where
  pub settings_fits : p.settings < 256
  pub stratum_fits : p.stratum < 256
  pub poll_fits : p.poll < 256
  pub precision_fits : p.precision < 256
  pub root_delay_fits : p.root_delay < 4294967296
  pub root_dispersion_fits : p.root_dispersion < 4294967296
  pub reference_id_fits : p.reference_id < 4294967296
  pub ref_time_sec_fits : p.ref_time_sec < 4294967296
  pub ref_time_frac_fits : p.ref_time_frac < 4294967296
  pub orig_time_sec_fits : p.orig_time_sec < 4294967296
  pub orig_time_frac_fits : p.orig_time_frac < 4294967296
  pub rx_time_sec_fits : p.rx_time_sec < 4294967296
  pub rx_time_frac_fits : p.rx_time_frac < 4294967296
  pub tx_time_sec_fits : p.tx_time_sec < 4294967296
  pub tx_time_frac_fits : p.tx_time_frac < 4294967296

-- `&Packet{}`.
abbrev pub empty_packet : Packet
empty_packet = record {
  settings = 0;
  stratum = 0;
  poll = 0;
  precision = 0;
  root_delay = 0;
  root_dispersion = 0;
  reference_id = 0;
  ref_time_sec = 0;
  ref_time_frac = 0;
  orig_time_sec = 0;
  orig_time_frac = 0;
  rx_time_sec = 0;
  rx_time_frac = 0;
  tx_time_sec = 0;
  tx_time_frac = 0;
}

abbrev pub li_no_warning : ℕ
li_no_warning = 0

abbrev pub li_alarm_condition : ℕ
li_alarm_condition = 3

abbrev pub vn_first : ℕ
vn_first = 1

abbrev pub vn_last : ℕ
vn_last = 4

abbrev pub mode_client : ℕ
mode_client = 3

-- `ValidSettingsFormat`. A left shift of a `uint8` wraps.
unfoldable pub valid_settings_format : Packet → Bool
valid_settings_format p =
    let l = p.settings / 64 in
    let v = p.settings * 4 % 256 / 32 in
    let m = p.settings * 32 % 256 / 32 in
    if (l == li_no_warning) || (l == li_alarm_condition)
    then (if leb vn_first v && leb v vn_last
        then (if m == mode_client then true else false)
        else false)
    else false

-- The widths of the fields, in the order of the struct: 48 bytes.
abbrev pub layout : List ℕ
layout = 1 ∷ 1 ∷ 1 ∷ 1 ∷ 4 ∷ 4 ∷ 4 ∷ 4 ∷ 4 ∷ 4 ∷ 4 ∷ 4 ∷ 4 ∷ 4 ∷ 4 ∷ []

abbrev pub values : Packet → List ℕ
values p =
    p.settings ∷ p.stratum ∷ p.poll ∷ p.precision ∷ p.root_delay ∷ p.root_dispersion
    ∷ p.reference_id ∷ p.ref_time_sec ∷ p.ref_time_frac ∷ p.orig_time_sec ∷ p.orig_time_frac
    ∷ p.rx_time_sec ∷ p.rx_time_frac ∷ p.tx_time_sec ∷ p.tx_time_frac ∷ []

-- The struct with these field values; a decoded list always has one value for each field.
unfoldable pub of_values : List ℕ → Result Packet
of_values (a ∷ s ∷ p ∷ q ∷ rd ∷ rs ∷ id ∷ fs ∷ ff ∷ os ∷ of ∷ xs ∷ xf ∷ ts ∷ tf ∷ []) = ok (record {
  settings = a;
  stratum = s;
  poll = p;
  precision = q;
  root_delay = rd;
  root_dispersion = rs;
  reference_id = id;
  ref_time_sec = fs;
  ref_time_frac = ff;
  orig_time_sec = os;
  orig_time_frac = of;
  rx_time_sec = xs;
  rx_time_frac = xf;
  tx_time_sec = ts;
  tx_time_frac = tf;
})
of_values _ = panic

-- `Bytes`: `binary.Write` of the struct.
unfoldable pub bytes : Packet → List ℕ
bytes p = encode layout (values p)

-- `BytesToPacket`: `binary.Read` of the struct.
unfoldable pub bytes_to_packet : List ℕ → Result Packet
bytes_to_packet b = binary_read layout b >>= of_values
