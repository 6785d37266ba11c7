-- ===== src/Ntp/Chrony/Meaning.antt =====
-- What the replies in their usable form have to be, in terms of what is on the wire, and that they are.
use ntp.Prelude.{
  ℕ, ◌+◌, ◌-◌, ◌*◌, ◌%◌, ◌^◌, ◌<◌, ◌≡◌, ◌≢◌, refl, Bool-cases, ◌⊎◌, inl, inr, List, ◌++◌, ◌==◌,
  length, drop, take-append-drop, length-take, arith,
}
use ntp.Prelude.Int.{ℤ, pos, negsuc, ◌+ℤ◌, ◌*ℤ◌, ◌≤ℤ◌}
use ntp.Prelude.Word.{low_bits, signed64}
use ntp.Prelude.Bits.{bit_or-shifted}
use ntp.Wire.{put_be}
use ntp.Wire.Laws.{length-put_be}
use ntp.Wire.Fields.{FieldsFit}
use ntp.Ntp.Chrony.Helpers.{
  IpAddr, TimeSpec, Float, to_net_ip, to_time, to_float, ip_addr_inet4, no_high_sec,
}
use ntp.Ntp.Chrony.Numbers.{to_float_bits, to_time-low}
use ntp.Ntp.Chrony.Replies.{
  SourceDataContent, source_data_layout, source_data_fields, TrackingContent, tracking_layout,
  tracking_fields, SourceStatsContent, source_stats_layout, source_stats_fields, NtpDataContent,
  ntp_data_layout, ntp_data_fields,
}
use ntp.Ntp.Chrony.Usable.{
  SourceData, new_source_data, Tracking, new_tracking, SourceStats, new_source_stats, NtpData,
  new_ntp_data,
}

-- A float is the one whose bits are on the wire: its coefficient is signed and has 25 bits, its
-- exponent is signed and has 7, less 25.
pub record IsFloat (bits : ℕ) (f : Float) : Type 0 where
  pub coef_low : negsuc (2 ^ 24 - 1) ≤ℤ f.coef
  pub coef_high : f.coef ≤ℤ pos (2 ^ 24 - 1)
  pub exp_low : negsuc 88 ≤ℤ f.exp
  pub exp_high : f.exp ≤ℤ pos 38
  pub of_bits : low_bits 7 (f.exp +ℤ pos 25) * 2 ^ 25 + low_bits 25 f.coef ≡ bits

-- A time in nanoseconds, whose seconds are the int64 that the two words make, or the low word alone
-- under the mark of a 32-bit time.
abbrev IsTime : TimeSpec → ℤ → Type 0
IsTime t z =
    ((t.sec_high ≡ no_high_sec) × (z ≡ pos (t.sec_low * 1000000000 + t.nsec)))
    ⊎ ((t.sec_high ≢ no_high_sec)
        × (z ≡ signed64 (t.sec_high * 2 ^ 32 + t.sec_low) *ℤ pos 1000000000 +ℤ pos t.nsec))

-- An address: the first four bytes in the family of IPv4, and else all sixteen.
abbrev IsAddress : IpAddr → List ℕ → Type 0
IsAddress a ip =
    ((a.family ≡ ip_addr_inet4) × (length ip ≡ 4) × (rest : List ℕ) × (ip ++ rest ≡ put_be 16 a.ip))
    ⊎ ((a.family ≢ ip_addr_inet4) × (ip ≡ put_be 16 a.ip))

to_float-IsFloat : (x : ℕ) → x < 2 ^ 32 → IsFloat x (to_float x)
to_float-IsFloat x h =
    let (a, b, c, d, e) = to_float_bits x h in
    record { coef_low = a; coef_high = b; exp_low = c; exp_high = d; of_bits = e }

pub record IsSourceData (c : SourceDataContent) (d : SourceData) : Type 0 where
  pub ip_addr_is : IsAddress c.ip_addr d.ip_addr
  pub poll_is : d.poll ≡ c.poll
  pub stratum_is : d.stratum ≡ c.stratum
  pub state_is : d.state ≡ c.state
  pub mode_is : d.mode ≡ c.mode
  pub flags_is : d.flags ≡ c.flags
  pub reachability_is : d.reachability ≡ c.reachability
  pub since_sample_is : d.since_sample ≡ c.since_sample
  pub orig_latest_meas_is : IsFloat c.orig_latest_meas d.orig_latest_meas
  pub latest_meas_is : IsFloat c.latest_meas d.latest_meas
  pub latest_meas_err_is : IsFloat c.latest_meas_err d.latest_meas_err

pub record IsTracking (c : TrackingContent) (d : Tracking) : Type 0 where
  pub ref_id_is : d.ref_id ≡ c.ref_id
  pub ip_addr_is : IsAddress c.ip_addr d.ip_addr
  pub stratum_is : d.stratum ≡ c.stratum
  pub leap_status_is : d.leap_status ≡ c.leap_status
  pub ref_time_is : IsTime c.ref_time d.ref_time
  pub current_correction_is : IsFloat c.current_correction d.current_correction
  pub last_offset_is : IsFloat c.last_offset d.last_offset
  pub rms_offset_is : IsFloat c.rms_offset d.rms_offset
  pub freq_ppm_is : IsFloat c.freq_ppm d.freq_ppm
  pub resid_freq_ppm_is : IsFloat c.resid_freq_ppm d.resid_freq_ppm
  pub skew_ppm_is : IsFloat c.skew_ppm d.skew_ppm
  pub root_delay_is : IsFloat c.root_delay d.root_delay
  pub root_dispersion_is : IsFloat c.root_dispersion d.root_dispersion
  pub last_update_interval_is : IsFloat c.last_update_interval d.last_update_interval

pub record IsSourceStats (c : SourceStatsContent) (d : SourceStats) : Type 0 where
  pub ref_id_is : d.ref_id ≡ c.ref_id
  pub ip_addr_is : IsAddress c.ip_addr d.ip_addr
  pub n_samples_is : d.n_samples ≡ c.n_samples
  pub n_runs_is : d.n_runs ≡ c.n_runs
  pub span_seconds_is : d.span_seconds ≡ c.span_seconds
  pub standard_deviation_is : IsFloat c.standard_deviation d.standard_deviation
  pub resid_freq_ppm_is : IsFloat c.resid_freq_ppm d.resid_freq_ppm
  pub skew_ppm_is : IsFloat c.skew_ppm d.skew_ppm
  pub estimated_offset_is : IsFloat c.estimated_offset d.estimated_offset
  pub estimated_offset_err_is : IsFloat c.estimated_offset_err d.estimated_offset_err

pub record IsNtpData (c : NtpDataContent) (d : NtpData) : Type 0 where
  pub remote_addr_is : IsAddress c.remote_addr d.remote_addr
  pub local_addr_is : IsAddress c.local_addr d.local_addr
  pub remote_port_is : d.remote_port ≡ c.remote_port
  pub leap_is : d.leap ≡ c.leap
  pub version_is : d.version ≡ c.version
  pub mode_is : d.mode ≡ c.mode
  pub stratum_is : d.stratum ≡ c.stratum
  pub poll_is : d.poll ≡ c.poll
  pub precision_is : d.precision ≡ c.precision
  pub root_delay_is : IsFloat c.root_delay d.root_delay
  pub root_dispersion_is : IsFloat c.root_dispersion d.root_dispersion
  pub ref_id_is : d.ref_id ≡ c.ref_id
  pub ref_time_is : IsTime c.ref_time d.ref_time
  pub offset_is : IsFloat c.offset d.offset
  pub peer_delay_is : IsFloat c.peer_delay d.peer_delay
  pub peer_dispersion_is : IsFloat c.peer_dispersion d.peer_dispersion
  pub response_time_is : IsFloat c.response_time d.response_time
  pub jitter_asymmetry_is : IsFloat c.jitter_asymmetry d.jitter_asymmetry
  pub flags_is : d.flags ≡ c.flags
  pub tx_tss_char_is : d.tx_tss_char ≡ c.tx_tss_char
  pub rx_tss_char_is : d.rx_tss_char ≡ c.rx_tss_char
  pub total_tx_count_is : d.total_tx_count ≡ c.total_tx_count
  pub total_rx_count_is : d.total_rx_count ≡ c.total_rx_count
  pub total_valid_count_is : d.total_valid_count ≡ c.total_valid_count

to_net_ip-IsAddress : (a : IpAddr) → IsAddress a (to_net_ip a)
unfolding to_net_ip
to_net_ip-IsAddress a =
    let bytes : List ℕ = put_be 16 a.ip in
    elim (Bool-cases (a.family == ip_addr_inet4)) [
      | inl v4 ↦ inl (
        grind (arith, v4),
        rw v4 (omega (arith, length-take 4 bytes, length-put_be 16 a.ip)),
        drop 4 bytes,
        rw v4 (take-append-drop 4 bytes),
      )
      | inr v6 ↦ inr (grind (arith, v6), rw v6 refl)
    ]

to_time-IsTime : (t : TimeSpec) → t.sec_high < 2 ^ 32 → t.sec_low < 2 ^ 32 → IsTime t (to_time t)
unfolding to_time
to_time-IsTime t h l = elim (Bool-cases (t.sec_high == no_high_sec)) [
  | inl mark ↦
      (let is : t.sec_high ≡ no_high_sec = grind (arith, mark) in
        inl (is, rw is (to_time-low t.sec_low t.nsec l)))
  | inr plain ↦
      (let cut : t.sec_high * 2 ^ 32 % 2 ^ 64 ≡ t.sec_high * 2 ^ 32 = omega arith in
        inr (grind (arith, plain), rw (plain, cut, bit_or-shifted 32 t.sec_high t.sec_low l) refl))
]

pub new_source_data-IsSourceData :
    (c : SourceDataContent)
    → FieldsFit source_data_layout (source_data_fields c)
    → IsSourceData c (new_source_data c)
unfolding new_source_data
new_source_data-IsSourceData c fits = record {
  ip_addr_is = to_net_ip-IsAddress c.ip_addr;
  poll_is = refl;
  stratum_is = refl;
  state_is = refl;
  mode_is = refl;
  flags_is = refl;
  reachability_is = refl;
  since_sample_is = refl;
  orig_latest_meas_is = to_float-IsFloat c.orig_latest_meas (omega (arith, fits));
  latest_meas_is = to_float-IsFloat c.latest_meas (omega (arith, fits));
  latest_meas_err_is = to_float-IsFloat c.latest_meas_err (omega (arith, fits));
}

pub new_tracking-IsTracking :
    (c : TrackingContent)
    → FieldsFit tracking_layout (tracking_fields c)
    → IsTracking c (new_tracking c)
unfolding new_tracking
new_tracking-IsTracking c fits = record {
  ref_id_is = refl;
  ip_addr_is = to_net_ip-IsAddress c.ip_addr;
  stratum_is = refl;
  leap_status_is = refl;
  ref_time_is = to_time-IsTime c.ref_time (omega (arith, fits)) (omega (arith, fits));
  current_correction_is = to_float-IsFloat c.current_correction (omega (arith, fits));
  last_offset_is = to_float-IsFloat c.last_offset (omega (arith, fits));
  rms_offset_is = to_float-IsFloat c.rms_offset (omega (arith, fits));
  freq_ppm_is = to_float-IsFloat c.freq_ppm (omega (arith, fits));
  resid_freq_ppm_is = to_float-IsFloat c.resid_freq_ppm (omega (arith, fits));
  skew_ppm_is = to_float-IsFloat c.skew_ppm (omega (arith, fits));
  root_delay_is = to_float-IsFloat c.root_delay (omega (arith, fits));
  root_dispersion_is = to_float-IsFloat c.root_dispersion (omega (arith, fits));
  last_update_interval_is = to_float-IsFloat c.last_update_interval (omega (arith, fits));
}

pub new_source_stats-IsSourceStats :
    (c : SourceStatsContent)
    → FieldsFit source_stats_layout (source_stats_fields c)
    → IsSourceStats c (new_source_stats c)
unfolding new_source_stats
new_source_stats-IsSourceStats c fits = record {
  ref_id_is = refl;
  ip_addr_is = to_net_ip-IsAddress c.ip_addr;
  n_samples_is = refl;
  n_runs_is = refl;
  span_seconds_is = refl;
  standard_deviation_is = to_float-IsFloat c.standard_deviation (omega (arith, fits));
  resid_freq_ppm_is = to_float-IsFloat c.resid_freq_ppm (omega (arith, fits));
  skew_ppm_is = to_float-IsFloat c.skew_ppm (omega (arith, fits));
  estimated_offset_is = to_float-IsFloat c.estimated_offset (omega (arith, fits));
  estimated_offset_err_is = to_float-IsFloat c.estimated_offset_err (omega (arith, fits));
}

pub new_ntp_data-IsNtpData :
    (c : NtpDataContent)
    → FieldsFit ntp_data_layout (ntp_data_fields c)
    → IsNtpData c (new_ntp_data c)
unfolding new_ntp_data
new_ntp_data-IsNtpData c fits = record {
  remote_addr_is = to_net_ip-IsAddress c.remote_addr;
  local_addr_is = to_net_ip-IsAddress c.local_addr;
  remote_port_is = refl;
  leap_is = refl;
  version_is = refl;
  mode_is = refl;
  stratum_is = refl;
  poll_is = refl;
  precision_is = refl;
  root_delay_is = to_float-IsFloat c.root_delay (omega (arith, fits));
  root_dispersion_is = to_float-IsFloat c.root_dispersion (omega (arith, fits));
  ref_id_is = refl;
  ref_time_is = to_time-IsTime c.ref_time (omega (arith, fits)) (omega (arith, fits));
  offset_is = to_float-IsFloat c.offset (omega (arith, fits));
  peer_delay_is = to_float-IsFloat c.peer_delay (omega (arith, fits));
  peer_dispersion_is = to_float-IsFloat c.peer_dispersion (omega (arith, fits));
  response_time_is = to_float-IsFloat c.response_time (omega (arith, fits));
  jitter_asymmetry_is = to_float-IsFloat c.jitter_asymmetry (omega (arith, fits));
  flags_is = refl;
  tx_tss_char_is = refl;
  rx_tss_char_is = refl;
  total_tx_count_is = refl;
  total_rx_count_is = refl;
  total_valid_count_is = refl;
}
