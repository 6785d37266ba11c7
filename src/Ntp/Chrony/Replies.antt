-- ===== src/Ntp/Chrony/Replies.antt =====
-- ntp/chrony/packet.go: the replies of chronyd as they are on the wire. An array is the number that
-- its bytes make, highest first; a signed field, and a chronyFloat, is its bits.
use ntp.Prelude.{ℕ, List, [], ◌∷◌}
use ntp.Wire.Fields.{Fields}
use ntp.Ntp.Chrony.Helpers.{IpAddr, TimeSpec}

-- `ReplyHead`.
pub record ReplyHead : Type 0 where
  pub version : ℕ
  pub pkt_type : ℕ
  pub res1 : ℕ
  pub res2 : ℕ
  pub command : ℕ
  pub reply : ℕ
  pub status : ℕ
  pub pad1 : ℕ
  pub pad2 : ℕ
  pub pad3 : ℕ
  pub sequence : ℕ
  pub pad4 : ℕ
  pub pad5 : ℕ

abbrev pub head_layout : List ℕ
head_layout = 1 ∷ 1 ∷ 1 ∷ 1 ∷ 2 ∷ 2 ∷ 2 ∷ 2 ∷ 2 ∷ 2 ∷ 4 ∷ 4 ∷ 4 ∷ []

abbrev pub head_fields : ReplyHead → Fields head_layout
head_fields x = (
  x.version,
  (
    x.pkt_type,
    (
      x.res1,
      (
        x.res2,
        (
          x.command,
          (x.reply, (x.status, (x.pad1, (x.pad2, (x.pad3, (x.sequence, (x.pad4, (x.pad5, tt)))))))),
        ),
      ),
    ),
  ),
)

abbrev pub head_of_fields : Fields head_layout → ReplyHead
head_of_fields
      (
        version,
        (
          pkt_type,
          (
            res1,
            (
              res2,
              (command, (reply, (status, (pad1, (pad2, (pad3, (sequence, (pad4, (pad5, tt))))))))),
            ),
          ),
        ),
      ) =
    record {
      version = version;
      pkt_type = pkt_type;
      res1 = res1;
      res2 = res2;
      command = command;
      reply = reply;
      status = status;
      pad1 = pad1;
      pad2 = pad2;
      pad3 = pad3;
      sequence = sequence;
      pad4 = pad4;
      pad5 = pad5;
    }

-- `replySourcesContent`.
pub record SourcesContent : Type 0 where
  pub n_sources : ℕ

abbrev pub sources_layout : List ℕ
sources_layout = 4 ∷ []

abbrev pub sources_fields : SourcesContent → Fields sources_layout
sources_fields x = (x.n_sources, tt)

abbrev pub sources_of_fields : Fields sources_layout → SourcesContent
sources_of_fields (n_sources, tt) = record { n_sources = n_sources }

-- `ServerStats`.
pub record ServerStats : Type 0 where
  pub ntp_hits : ℕ
  pub cmd_hits : ℕ
  pub ntp_drops : ℕ
  pub cmd_drops : ℕ
  pub log_drops : ℕ

abbrev pub server_stats_layout : List ℕ
server_stats_layout = 4 ∷ 4 ∷ 4 ∷ 4 ∷ 4 ∷ []

abbrev pub server_stats_fields : ServerStats → Fields server_stats_layout
server_stats_fields x = (x.ntp_hits, (x.cmd_hits, (x.ntp_drops, (x.cmd_drops, (x.log_drops, tt)))))

abbrev pub server_stats_of_fields : Fields server_stats_layout → ServerStats
server_stats_of_fields (ntp_hits, (cmd_hits, (ntp_drops, (cmd_drops, (log_drops, tt))))) = record {
  ntp_hits = ntp_hits;
  cmd_hits = cmd_hits;
  ntp_drops = ntp_drops;
  cmd_drops = cmd_drops;
  log_drops = log_drops;
}

-- `ServerStats2`.
pub record ServerStats2 : Type 0 where
  pub ntp_hits : ℕ
  pub nke_hits : ℕ
  pub cmd_hits : ℕ
  pub ntp_drops : ℕ
  pub nke_drops : ℕ
  pub cmd_drops : ℕ
  pub log_drops : ℕ
  pub ntp_auth_hits : ℕ

abbrev pub server_stats2_layout : List ℕ
server_stats2_layout = 4 ∷ 4 ∷ 4 ∷ 4 ∷ 4 ∷ 4 ∷ 4 ∷ 4 ∷ []

abbrev pub server_stats2_fields : ServerStats2 → Fields server_stats2_layout
server_stats2_fields x = (
  x.ntp_hits,
  (
    x.nke_hits,
    (x.cmd_hits, (x.ntp_drops, (x.nke_drops, (x.cmd_drops, (x.log_drops, (x.ntp_auth_hits, tt)))))),
  ),
)

abbrev pub server_stats2_of_fields : Fields server_stats2_layout → ServerStats2
server_stats2_of_fields
      (
        ntp_hits,
        (
          nke_hits,
          (cmd_hits, (ntp_drops, (nke_drops, (cmd_drops, (log_drops, (ntp_auth_hits, tt)))))),
        ),
      ) =
    record {
      ntp_hits = ntp_hits;
      nke_hits = nke_hits;
      cmd_hits = cmd_hits;
      ntp_drops = ntp_drops;
      nke_drops = nke_drops;
      cmd_drops = cmd_drops;
      log_drops = log_drops;
      ntp_auth_hits = ntp_auth_hits;
    }

-- `replySourceDataContent`.
pub record SourceDataContent : Type 0 where
  pub ip_addr : IpAddr
  pub poll : ℕ
  pub stratum : ℕ
  pub state : ℕ
  pub mode : ℕ
  pub flags : ℕ
  pub reachability : ℕ
  pub since_sample : ℕ
  pub orig_latest_meas : ℕ
  pub latest_meas : ℕ
  pub latest_meas_err : ℕ

abbrev pub source_data_layout : List ℕ
source_data_layout = 16 ∷ 2 ∷ 2 ∷ 2 ∷ 2 ∷ 2 ∷ 2 ∷ 2 ∷ 2 ∷ 4 ∷ 4 ∷ 4 ∷ 4 ∷ []

abbrev pub source_data_fields : SourceDataContent → Fields source_data_layout
source_data_fields x = (
  x.ip_addr.ip,
  (
    x.ip_addr.family,
    (
      x.ip_addr.pad,
      (
        x.poll,
        (
          x.stratum,
          (
            x.state,
            (
              x.mode,
              (
                x.flags,
                (
                  x.reachability,
                  (x.since_sample, (x.orig_latest_meas, (x.latest_meas, (x.latest_meas_err, tt)))),
                ),
              ),
            ),
          ),
        ),
      ),
    ),
  ),
)

abbrev pub source_data_of_fields : Fields source_data_layout → SourceDataContent
source_data_of_fields
      (
        ip_addr_ip,
        (
          ip_addr_family,
          (
            ip_addr_pad,
            (
              poll,
              (
                stratum,
                (
                  state,
                  (
                    mode,
                    (
                      flags,
                      (
                        reachability,
                        (since_sample, (orig_latest_meas, (latest_meas, (latest_meas_err, tt)))),
                      ),
                    ),
                  ),
                ),
              ),
            ),
          ),
        ),
      ) =
    record {
      ip_addr = record { ip = ip_addr_ip; family = ip_addr_family; pad = ip_addr_pad };
      poll = poll;
      stratum = stratum;
      state = state;
      mode = mode;
      flags = flags;
      reachability = reachability;
      since_sample = since_sample;
      orig_latest_meas = orig_latest_meas;
      latest_meas = latest_meas;
      latest_meas_err = latest_meas_err;
    }

-- `replyTrackingContent`.
pub record TrackingContent : Type 0 where
  pub ref_id : ℕ
  pub ip_addr : IpAddr
  pub stratum : ℕ
  pub leap_status : ℕ
  pub ref_time : TimeSpec
  pub current_correction : ℕ
  pub last_offset : ℕ
  pub rms_offset : ℕ
  pub freq_ppm : ℕ
  pub resid_freq_ppm : ℕ
  pub skew_ppm : ℕ
  pub root_delay : ℕ
  pub root_dispersion : ℕ
  pub last_update_interval : ℕ

abbrev pub tracking_layout : List ℕ
tracking_layout = 4 ∷ 16 ∷ 2 ∷ 2 ∷ 2 ∷ 2 ∷ 4 ∷ 4 ∷ 4 ∷ 4 ∷ 4 ∷ 4 ∷ 4 ∷ 4 ∷ 4 ∷ 4 ∷ 4 ∷ 4 ∷ []

abbrev pub tracking_fields : TrackingContent → Fields tracking_layout
tracking_fields x = (
  x.ref_id,
  (
    x.ip_addr.ip,
    (
      x.ip_addr.family,
      (
        x.ip_addr.pad,
        (
          x.stratum,
          (
            x.leap_status,
            (
              x.ref_time.sec_high,
              (
                x.ref_time.sec_low,
                (
                  x.ref_time.nsec,
                  (
                    x.current_correction,
                    (
                      x.last_offset,
                      (
                        x.rms_offset,
                        (
                          x.freq_ppm,
                          (
                            x.resid_freq_ppm,
                            (
                              x.skew_ppm,
                              (x.root_delay, (x.root_dispersion, (x.last_update_interval, tt))),
                            ),
                          ),
                        ),
                      ),
                    ),
                  ),
                ),
              ),
            ),
          ),
        ),
      ),
    ),
  ),
)

abbrev pub tracking_of_fields : Fields tracking_layout → TrackingContent
tracking_of_fields
      (
        ref_id,
        (
          ip_addr_ip,
          (
            ip_addr_family,
            (
              ip_addr_pad,
              (
                stratum,
                (
                  leap_status,
                  (
                    ref_time_high,
                    (
                      ref_time_low,
                      (
                        ref_time_nsec,
                        (
                          current_correction,
                          (
                            last_offset,
                            (
                              rms_offset,
                              (
                                freq_ppm,
                                (
                                  resid_freq_ppm,
                                  (
                                    skew_ppm,
                                    (root_delay, (root_dispersion, (last_update_interval, tt))),
                                  ),
                                ),
                              ),
                            ),
                          ),
                        ),
                      ),
                    ),
                  ),
                ),
              ),
            ),
          ),
        ),
      ) =
    record {
      ref_id = ref_id;
      ip_addr = record { ip = ip_addr_ip; family = ip_addr_family; pad = ip_addr_pad };
      stratum = stratum;
      leap_status = leap_status;
      ref_time = record { sec_high = ref_time_high; sec_low = ref_time_low; nsec = ref_time_nsec };
      current_correction = current_correction;
      last_offset = last_offset;
      rms_offset = rms_offset;
      freq_ppm = freq_ppm;
      resid_freq_ppm = resid_freq_ppm;
      skew_ppm = skew_ppm;
      root_delay = root_delay;
      root_dispersion = root_dispersion;
      last_update_interval = last_update_interval;
    }

-- `replySourceStatsContent`.
pub record SourceStatsContent : Type 0 where
  pub ref_id : ℕ
  pub ip_addr : IpAddr
  pub n_samples : ℕ
  pub n_runs : ℕ
  pub span_seconds : ℕ
  pub standard_deviation : ℕ
  pub resid_freq_ppm : ℕ
  pub skew_ppm : ℕ
  pub estimated_offset : ℕ
  pub estimated_offset_err : ℕ

abbrev pub source_stats_layout : List ℕ
source_stats_layout = 4 ∷ 16 ∷ 2 ∷ 2 ∷ 4 ∷ 4 ∷ 4 ∷ 4 ∷ 4 ∷ 4 ∷ 4 ∷ 4 ∷ []

abbrev pub source_stats_fields : SourceStatsContent → Fields source_stats_layout
source_stats_fields x = (
  x.ref_id,
  (
    x.ip_addr.ip,
    (
      x.ip_addr.family,
      (
        x.ip_addr.pad,
        (
          x.n_samples,
          (
            x.n_runs,
            (
              x.span_seconds,
              (
                x.standard_deviation,
                (
                  x.resid_freq_ppm,
                  (x.skew_ppm, (x.estimated_offset, (x.estimated_offset_err, tt))),
                ),
              ),
            ),
          ),
        ),
      ),
    ),
  ),
)

abbrev pub source_stats_of_fields : Fields source_stats_layout → SourceStatsContent
source_stats_of_fields
      (
        ref_id,
        (
          ip_addr_ip,
          (
            ip_addr_family,
            (
              ip_addr_pad,
              (
                n_samples,
                (
                  n_runs,
                  (
                    span_seconds,
                    (
                      standard_deviation,
                      (resid_freq_ppm, (skew_ppm, (estimated_offset, (estimated_offset_err, tt)))),
                    ),
                  ),
                ),
              ),
            ),
          ),
        ),
      ) =
    record {
      ref_id = ref_id;
      ip_addr = record { ip = ip_addr_ip; family = ip_addr_family; pad = ip_addr_pad };
      n_samples = n_samples;
      n_runs = n_runs;
      span_seconds = span_seconds;
      standard_deviation = standard_deviation;
      resid_freq_ppm = resid_freq_ppm;
      skew_ppm = skew_ppm;
      estimated_offset = estimated_offset;
      estimated_offset_err = estimated_offset_err;
    }

-- `replyNTPDataContent`.
pub record NtpDataContent : Type 0 where
  pub remote_addr : IpAddr
  pub local_addr : IpAddr
  pub remote_port : ℕ
  pub leap : ℕ
  pub version : ℕ
  pub mode : ℕ
  pub stratum : ℕ
  pub poll : ℕ
  pub precision : ℕ
  pub root_delay : ℕ
  pub root_dispersion : ℕ
  pub ref_id : ℕ
  pub ref_time : TimeSpec
  pub offset : ℕ
  pub peer_delay : ℕ
  pub peer_dispersion : ℕ
  pub response_time : ℕ
  pub jitter_asymmetry : ℕ
  pub flags : ℕ
  pub tx_tss_char : ℕ
  pub rx_tss_char : ℕ
  pub total_tx_count : ℕ
  pub total_rx_count : ℕ
  pub total_valid_count : ℕ
  pub reserved : ℕ

abbrev pub ntp_data_layout : List ℕ
ntp_data_layout =
    16 ∷ 2 ∷ 2 ∷ 16 ∷ 2 ∷ 2 ∷ 2 ∷ 1 ∷ 1 ∷ 1 ∷ 1 ∷ 1 ∷ 1 ∷ 4 ∷ 4 ∷ 4 ∷ 4 ∷ 4 ∷ 4 ∷ 4 ∷ 4 ∷ 4 ∷ 4 ∷ 4
    ∷ 2 ∷ 1 ∷ 1 ∷ 4 ∷ 4 ∷ 4 ∷ 16 ∷ []

abbrev pub ntp_data_fields : NtpDataContent → Fields ntp_data_layout
ntp_data_fields x = (
  x.remote_addr.ip,
  (
    x.remote_addr.family,
    (
      x.remote_addr.pad,
      (
        x.local_addr.ip,
        (
          x.local_addr.family,
          (
            x.local_addr.pad,
            (
              x.remote_port,
              (
                x.leap,
                (
                  x.version,
                  (
                    x.mode,
                    (
                      x.stratum,
                      (
                        x.poll,
                        (
                          x.precision,
                          (
                            x.root_delay,
                            (
                              x.root_dispersion,
                              (
                                x.ref_id,
                                (
                                  x.ref_time.sec_high,
                                  (
                                    x.ref_time.sec_low,
                                    (
                                      x.ref_time.nsec,
                                      (
                                        x.offset,
                                        (
                                          x.peer_delay,
                                          (
                                            x.peer_dispersion,
                                            (
                                              x.response_time,
                                              (
                                                x.jitter_asymmetry,
                                                (
                                                  x.flags,
                                                  (
                                                    x.tx_tss_char,
                                                    (
                                                      x.rx_tss_char,
                                                      (
                                                        x.total_tx_count,
                                                        (
                                                          x.total_rx_count,
                                                          (x.total_valid_count, (x.reserved, tt)),
                                                        ),
                                                      ),
                                                    ),
                                                  ),
                                                ),
                                              ),
                                            ),
                                          ),
                                        ),
                                      ),
                                    ),
                                  ),
                                ),
                              ),
                            ),
                          ),
                        ),
                      ),
                    ),
                  ),
                ),
              ),
            ),
          ),
        ),
      ),
    ),
  ),
)

abbrev pub ntp_data_of_fields : Fields ntp_data_layout → NtpDataContent
ntp_data_of_fields
      (
        remote_addr_ip,
        (
          remote_addr_family,
          (
            remote_addr_pad,
            (
              local_addr_ip,
              (
                local_addr_family,
                (
                  local_addr_pad,
                  (
                    remote_port,
                    (
                      leap,
                      (
                        version,
                        (
                          mode,
                          (
                            stratum,
                            (
                              poll,
                              (
                                precision,
                                (
                                  root_delay,
                                  (
                                    root_dispersion,
                                    (
                                      ref_id,
                                      (
                                        ref_time_high,
                                        (
                                          ref_time_low,
                                          (
                                            ref_time_nsec,
                                            (
                                              offset,
                                              (
                                                peer_delay,
                                                (
                                                  peer_dispersion,
                                                  (
                                                    response_time,
                                                    (
                                                      jitter_asymmetry,
                                                      (
                                                        flags,
                                                        (
                                                          tx_tss_char,
                                                          (
                                                            rx_tss_char,
                                                            (
                                                            total_tx_count,
                                                            (
                                                            total_rx_count,
                                                            (total_valid_count, (reserved, tt)),
                                                            ),
                                                            ),
                                                          ),
                                                        ),
                                                      ),
                                                    ),
                                                  ),
                                                ),
                                              ),
                                            ),
                                          ),
                                        ),
                                      ),
                                    ),
                                  ),
                                ),
                              ),
                            ),
                          ),
                        ),
                      ),
                    ),
                  ),
                ),
              ),
            ),
          ),
        ),
      ) =
    record {
      remote_addr = record {
        ip = remote_addr_ip;
        family = remote_addr_family;
        pad = remote_addr_pad;
      };
      local_addr = record { ip = local_addr_ip; family = local_addr_family; pad = local_addr_pad };
      remote_port = remote_port;
      leap = leap;
      version = version;
      mode = mode;
      stratum = stratum;
      poll = poll;
      precision = precision;
      root_delay = root_delay;
      root_dispersion = root_dispersion;
      ref_id = ref_id;
      ref_time = record { sec_high = ref_time_high; sec_low = ref_time_low; nsec = ref_time_nsec };
      offset = offset;
      peer_delay = peer_delay;
      peer_dispersion = peer_dispersion;
      response_time = response_time;
      jitter_asymmetry = jitter_asymmetry;
      flags = flags;
      tx_tss_char = tx_tss_char;
      rx_tss_char = rx_tss_char;
      total_tx_count = total_tx_count;
      total_rx_count = total_rx_count;
      total_valid_count = total_valid_count;
      reserved = reserved;
    }
