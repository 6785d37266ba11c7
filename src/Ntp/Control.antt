-- ===== src/Ntp/Control.antt =====
-- ntp/control/packet.go: the packed words of the NTP control protocol. A uint8 and a uint16 are
-- numbers; a shift drops what does not fit.
pub mod Words
pub mod Messages
pub mod Fragments
pub mod Associations
mod Examples
use ntp.Prelude.{
  ℕ, ◌+◌, ◌*◌, ◌/◌, ◌%◌, ◌^◌, ◌<◌, Bool, true, false, not, bit_and, bit_or, ◌==◌, if◌then◌else◌,
}

-- `SystemStatusWord`.
pub record SystemStatusWord : Type 0 where
  pub li : ℕ
  pub clock_source : ℕ
  pub system_event_counter : ℕ
  pub system_event_code : ℕ

-- `SystemStatusWord.Word`.
unfoldable pub system_word : SystemStatusWord → ℕ
system_word w =
    let out = bit_or 0 (w.li * 2 ^ 14 % 65536) in
    let out' = bit_or out (w.clock_source * 2 ^ 8 % 65536) in
    let out'' = bit_or out' (w.system_event_counter * 2 ^ 4 % 65536) in
    bit_or out'' w.system_event_code

-- `ReadSystemStatusWord`.
unfoldable pub read_system_status_word : ℕ → SystemStatusWord
read_system_status_word b = record {
  li = bit_and b 0xc000 / 2 ^ 14 % 256;
  clock_source = bit_and b 0x3f00 / 2 ^ 8 % 256;
  system_event_counter = bit_and b 0xf0 / 2 ^ 4 % 256;
  system_event_code = bit_and b 0xf % 256;
}

-- `PeerStatus`.
pub record PeerStatus : Type 0 where
  pub broadcast : Bool
  pub reachable : Bool
  pub auth_enabled : Bool
  pub auth_ok : Bool
  pub configured : Bool

abbrev flag : Bool → ℕ → ℕ → ℕ
flag set mask out = if set then bit_or out mask else out

-- `PeerStatus.Byte`.
unfoldable pub byte : PeerStatus → ℕ
byte s =
    flag s.broadcast 0x1 (
      flag s.reachable 0x2
        (flag s.auth_enabled 0x4 (flag s.auth_ok 0x8 (flag s.configured 0x10 0))))

-- `ReadPeerStatus`.
unfoldable pub read_peer_status : ℕ → PeerStatus
read_peer_status b = record {
  broadcast = not (bit_and b 0x1 == 0);
  reachable = not (bit_and b 0x2 == 0);
  auth_enabled = not (bit_and b 0x4 == 0);
  auth_ok = not (bit_and b 0x8 == 0);
  configured = not (bit_and b 0x10 == 0);
}

-- `PeerStatusWord`.
pub record PeerStatusWord : Type 0 where
  pub peer_status : PeerStatus
  pub peer_selection : ℕ
  pub peer_event_counter : ℕ
  pub peer_event_code : ℕ

-- `PeerStatusWord.Word`.
unfoldable pub peer_word : PeerStatusWord → ℕ
unfolding byte
peer_word w =
    let out = bit_or 0 (byte w.peer_status * 2 ^ 11 % 65536) in
    let out' = bit_or out (w.peer_selection * 2 ^ 8 % 65536) in
    let out'' = bit_or out' (w.peer_event_counter * 2 ^ 4 % 65536) in bit_or out'' w.peer_event_code

-- `ReadPeerStatusWord`.
unfoldable pub read_peer_status_word : ℕ → PeerStatusWord
unfolding read_peer_status
read_peer_status_word b = record {
  peer_status = read_peer_status (bit_and b 0xf800 / 2 ^ 11 % 256);
  peer_selection = bit_and b 0x700 / 2 ^ 8 % 256;
  peer_event_counter = bit_and b 0xf0 / 2 ^ 4 % 256;
  peer_event_code = bit_and b 0xf % 256;
}

-- `MakeVnMode`, `GetVersion` and `GetMode`.
unfoldable pub make_vn_mode : ℕ → ℕ → ℕ
make_vn_mode version mode =
    let out = bit_or 0 (version % 256 * 2 ^ 3 % 256) in bit_or out (mode % 256)

unfoldable pub get_version : ℕ → ℕ
get_version vn_mode = bit_and vn_mode 0x38 / 2 ^ 3

unfoldable pub get_mode : ℕ → ℕ
get_mode vn_mode = bit_and vn_mode 0x7
