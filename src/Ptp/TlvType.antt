-- ===== src/Ptp/TlvType.antt =====
-- The TLV types of ptp/protocol/types.go that the unicast messages use.
use ntp.Prelude.{ℕ}

abbrev pub request_unicast_transmission : ℕ
request_unicast_transmission = 0x0004

abbrev pub grant_unicast_transmission : ℕ
grant_unicast_transmission = 0x0005

abbrev pub cancel_unicast_transmission : ℕ
cancel_unicast_transmission = 0x0006

abbrev pub acknowledge_cancel_unicast_transmission : ℕ
acknowledge_cancel_unicast_transmission = 0x0007
