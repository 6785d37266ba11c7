-- ===== src/Ntp/Chrony/Examples.antt =====
-- The replies and the numbers of chronyd at values of the repository's tests.
use ntp.Prelude.{
  ℕ, ◌+◌, ◌-◌, ◌*◌, ◌^◌, ◌≡◌, refl, List, [], ◌∷◌, ◌++◌, ok, err, Error, inr, replicate, arith,
}
use ntp.Prelude.Int.{pos, negsuc, ◌+ℤ◌, ◌≤ℤ◌}
use ntp.Prelude.Word.{low_bits}
use ntp.Wire.Fields.{put_fields}
use ntp.Ntp.Chrony.Helpers.{new_ip_addr, to_net_ip, to_float}
use ntp.Ntp.Chrony.Replies.{
  ReplyHead, head_layout, head_fields, TrackingContent, tracking_layout, tracking_fields,
}
use ntp.Ntp.Chrony.Packets.{Response, decode_packet, rpy_server_stats, rpy_tracking}
use ntp.Ntp.Chrony.Decoding.{tracking, IsUsable, decode_packet-IsUsable}
use ntp.Ntp.Chrony.Refusals.{server_stats, decode_packet_refuses}
use ntp.Ntp.Chrony.Numbers.{to_float_bits, to_net_ip-new_ip_addr_mapped}

abbrev head : ℕ → ℕ → ReplyHead
head reply status = record {
  version = 6;
  pkt_type = 2;
  res1 = 0;
  res2 = 0;
  command = 33;
  reply = reply;
  status = status;
  pad1 = 0;
  pad2 = 0;
  pad3 = 0;
  sequence = 2;
  pad4 = 0;
  pad5 = 0;
}

-- A time source at 192.168.0.10, synchronised.
abbrev tracked : TrackingContent
tracked = record {
  ref_id = 0xc0a8000a;
  ip_addr = record { ip = 0xc0a8000a * 2 ^ 96; family = 1; pad = 0 };
  stratum = 3;
  leap_status = 0;
  ref_time = record { sec_high = 0; sec_low = 1587738257; nsec = 10 };
  current_correction = 0xf0fb3d1f;
  last_offset = 0xf3b6b5a0;
  rms_offset = 0xf0c79c2f;
  freq_ppm = 0x0a6d8e9d;
  resid_freq_ppm = 0x1;
  skew_ppm = 0x2;
  root_delay = 0x3;
  root_dispersion = 0x4;
  last_update_interval = 0x5;
}

decode_packet-IsUsable_example :
    (r : Response) × (decode_packet (
        put_fields head_layout (head_fields (head rpy_tracking 0))
        ++ (put_fields tracking_layout (tracking_fields tracked) ++ []))
      ≡ ok r)
    × IsUsable (head rpy_tracking 0) (tracking tracked) r
decode_packet-IsUsable_example =
    decode_packet-IsUsable (head rpy_tracking 0) (tracking tracked) [] (omega arith) refl refl
      (omega arith)

-- Four bytes of statistics, and a packet of two bytes.
decode_packet_refuses_example :
    ((e : Error) × (decode_packet
          (put_fields head_layout (head_fields (head rpy_server_stats 0)) ++ (0 ∷ 0 ∷ 0 ∷ 1 ∷ []))
        ≡ err e))
    × ((e : Error) × (decode_packet (6 ∷ 2 ∷ []) ≡ err e))
decode_packet_refuses_example =
    decode_packet_refuses (head rpy_server_stats 0) (0 ∷ 0 ∷ 0 ∷ 1 ∷ []) (6 ∷ 2 ∷ []) (omega arith)
      (inr (server_stats, (refl, omega arith))) (omega arith)

to_float_bits_example :
    let f = to_float 0xf0fb3d1f in
    (negsuc (2 ^ 24 - 1) ≤ℤ f.coef)
    × (f.coef ≤ℤ pos (2 ^ 24 - 1))
    × (negsuc 88 ≤ℤ f.exp)
    × (f.exp ≤ℤ pos 38)
    × (low_bits 7 (f.exp +ℤ pos 25) * 2 ^ 25 + low_bits 25 f.coef ≡ 0xf0fb3d1f)
to_float_bits_example = to_float_bits 0xf0fb3d1f (omega arith)

abbrev loopback : List ℕ
loopback = 127 ∷ 0 ∷ 0 ∷ 1 ∷ []

to_net_ip-new_ip_addr_mapped_example :
    to_net_ip (new_ip_addr (replicate 10 0 ++ (255 ∷ 255 ∷ loopback))) ≡ replicate 4 0
to_net_ip-new_ip_addr_mapped_example =
    to_net_ip-new_ip_addr_mapped (replicate 10 0 ++ (255 ∷ 255 ∷ loopback)) (omega arith) refl
