-- ===== src/Ptp/MessageType.antt =====
-- The message types of ptp/protocol/types.go.
use ntp.Prelude.{ℕ}

abbrev pub sync : ℕ
sync = 0x0

abbrev pub delay_req : ℕ
delay_req = 0x1

abbrev pub pdelay_req : ℕ
pdelay_req = 0x2

abbrev pub pdelay_resp : ℕ
pdelay_resp = 0x3

abbrev pub follow_up : ℕ
follow_up = 0x8

abbrev pub delay_resp : ℕ
delay_resp = 0x9

abbrev pub pdelay_resp_follow_up : ℕ
pdelay_resp_follow_up = 0xa

abbrev pub announce : ℕ
announce = 0xb

abbrev pub signaling : ℕ
signaling = 0xc

abbrev pub management : ℕ
management = 0xd
