-- ===== src/Ntp/Chrony/Usable.antt =====
-- ntp/chrony/packet.go: the replies in their usable form.
use ntp.Prelude.{ℕ, List}
use ntp.Prelude.Int.{ℤ}
use ntp.Ntp.Chrony.Helpers.{Float, to_net_ip, to_time, to_float}
use ntp.Ntp.Chrony.Replies.{SourceDataContent, TrackingContent, SourceStatsContent, NtpDataContent}

-- `SourceData`.
pub record SourceData : Type 0 where
  pub ip_addr : List ℕ
  pub poll : ℕ
  pub stratum : ℕ
  pub state : ℕ
  pub mode : ℕ
  pub flags : ℕ
  pub reachability : ℕ
  pub since_sample : ℕ
  pub orig_latest_meas : Float
  pub latest_meas : Float
  pub latest_meas_err : Float

-- `newSourceData`.
unfoldable pub new_source_data : SourceDataContent → SourceData
unfolding to_net_ip to_float
new_source_data r = record {
  ip_addr = to_net_ip r.ip_addr;
  poll = r.poll;
  stratum = r.stratum;
  state = r.state;
  mode = r.mode;
  flags = r.flags;
  reachability = r.reachability;
  since_sample = r.since_sample;
  orig_latest_meas = to_float r.orig_latest_meas;
  latest_meas = to_float r.latest_meas;
  latest_meas_err = to_float r.latest_meas_err;
}

-- `Tracking`.
pub record Tracking : Type 0 where
  pub ref_id : ℕ
  pub ip_addr : List ℕ
  pub stratum : ℕ
  pub leap_status : ℕ
  pub ref_time : ℤ
  pub current_correction : Float
  pub last_offset : Float
  pub rms_offset : Float
  pub freq_ppm : Float
  pub resid_freq_ppm : Float
  pub skew_ppm : Float
  pub root_delay : Float
  pub root_dispersion : Float
  pub last_update_interval : Float

-- `newTracking`.
unfoldable pub new_tracking : TrackingContent → Tracking
unfolding to_net_ip to_time to_float
new_tracking r = record {
  ref_id = r.ref_id;
  ip_addr = to_net_ip r.ip_addr;
  stratum = r.stratum;
  leap_status = r.leap_status;
  ref_time = to_time r.ref_time;
  current_correction = to_float r.current_correction;
  last_offset = to_float r.last_offset;
  rms_offset = to_float r.rms_offset;
  freq_ppm = to_float r.freq_ppm;
  resid_freq_ppm = to_float r.resid_freq_ppm;
  skew_ppm = to_float r.skew_ppm;
  root_delay = to_float r.root_delay;
  root_dispersion = to_float r.root_dispersion;
  last_update_interval = to_float r.last_update_interval;
}

-- `SourceStats`.
pub record SourceStats : Type 0 where
  pub ref_id : ℕ
  pub ip_addr : List ℕ
  pub n_samples : ℕ
  pub n_runs : ℕ
  pub span_seconds : ℕ
  pub standard_deviation : Float
  pub resid_freq_ppm : Float
  pub skew_ppm : Float
  pub estimated_offset : Float
  pub estimated_offset_err : Float

-- `newSourceStats`.
unfoldable pub new_source_stats : SourceStatsContent → SourceStats
unfolding to_net_ip to_float
new_source_stats r = record {
  ref_id = r.ref_id;
  ip_addr = to_net_ip r.ip_addr;
  n_samples = r.n_samples;
  n_runs = r.n_runs;
  span_seconds = r.span_seconds;
  standard_deviation = to_float r.standard_deviation;
  resid_freq_ppm = to_float r.resid_freq_ppm;
  skew_ppm = to_float r.skew_ppm;
  estimated_offset = to_float r.estimated_offset;
  estimated_offset_err = to_float r.estimated_offset_err;
}

-- `NTPData`.
pub record NtpData : Type 0 where
  pub remote_addr : List ℕ
  pub local_addr : List ℕ
  pub remote_port : ℕ
  pub leap : ℕ
  pub version : ℕ
  pub mode : ℕ
  pub stratum : ℕ
  pub poll : ℕ
  pub precision : ℕ
  pub root_delay : Float
  pub root_dispersion : Float
  pub ref_id : ℕ
  pub ref_time : ℤ
  pub offset : Float
  pub peer_delay : Float
  pub peer_dispersion : Float
  pub response_time : Float
  pub jitter_asymmetry : Float
  pub flags : ℕ
  pub tx_tss_char : ℕ
  pub rx_tss_char : ℕ
  pub total_tx_count : ℕ
  pub total_rx_count : ℕ
  pub total_valid_count : ℕ

-- `newNTPData`.
unfoldable pub new_ntp_data : NtpDataContent → NtpData
unfolding to_net_ip to_time to_float
new_ntp_data r = record {
  remote_addr = to_net_ip r.remote_addr;
  local_addr = to_net_ip r.local_addr;
  remote_port = r.remote_port;
  leap = r.leap;
  version = r.version;
  mode = r.mode;
  stratum = r.stratum;
  poll = r.poll;
  precision = r.precision;
  root_delay = to_float r.root_delay;
  root_dispersion = to_float r.root_dispersion;
  ref_id = r.ref_id;
  ref_time = to_time r.ref_time;
  offset = to_float r.offset;
  peer_delay = to_float r.peer_delay;
  peer_dispersion = to_float r.peer_dispersion;
  response_time = to_float r.response_time;
  jitter_asymmetry = to_float r.jitter_asymmetry;
  flags = r.flags;
  tx_tss_char = r.tx_tss_char;
  rx_tss_char = r.rx_tss_char;
  total_tx_count = r.total_tx_count;
  total_rx_count = r.total_rx_count;
  total_valid_count = r.total_valid_count;
}
