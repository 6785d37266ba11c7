-- ===== src/Ptp/Management/Structs.antt =====
-- ptp/protocol/management.go, management_tlvs.go and ptp4l.go: the structs of the management
-- messages as `binary.Read` and `binary.Write` see them. A signed field is its bits.
use ntp.Prelude.{ℕ, List, [], ◌∷◌}
use ntp.Wire.Fields.{Fields}
use ntp.Ptp.Types.{PortIdentity}
use ntp.Ptp.Announce.{ClockQuality}
use ntp.Ptp.Header.{Header}

-- `ManagementTLVHead`, with the `TLVHead` in it.
pub record TlvHead : Type 0 where
  pub tlv_type : ℕ
  pub length_field : ℕ
  pub management_id : ℕ

abbrev pub tlv_head_layout : List ℕ
tlv_head_layout = 2 ∷ 2 ∷ 2 ∷ []

abbrev pub tlv_head_fields : TlvHead → Fields tlv_head_layout
tlv_head_fields x = (x.tlv_type, (x.length_field, (x.management_id, tt)))

abbrev pub tlv_head_of_fields : Fields tlv_head_layout → TlvHead
tlv_head_of_fields (f0, (f1, (f2, tt))) = record {
  tlv_type = f0;
  length_field = f1;
  management_id = f2;
}

-- `ManagementMsgHead`.
pub record MsgHead : Type 0 where
  pub header : Header
  pub target_port_identity : PortIdentity
  pub starting_boundary_hops : ℕ
  pub boundary_hops : ℕ
  pub action_field : ℕ
  pub reserved : ℕ

abbrev pub msg_head_layout : List ℕ
msg_head_layout = 1 ∷ 1 ∷ 2 ∷ 1 ∷ 1 ∷ 2 ∷ 8 ∷ 4 ∷ 8 ∷ 2 ∷ 2 ∷ 1 ∷ 1 ∷ 8 ∷ 2 ∷ 1 ∷ 1 ∷ 1 ∷ 1 ∷ []

abbrev pub msg_head_fields : MsgHead → Fields msg_head_layout
msg_head_fields x = (
  x.header.sdo_id_and_msg_type,
  (
    x.header.version,
    (
      x.header.message_length,
      (
        x.header.domain_number,
        (
          x.header.minor_sdo_id,
          (
            x.header.flag_field,
            (
              x.header.correction_field,
              (
                x.header.message_type_specific,
                (
                  x.header.source_port_identity.clock_identity,
                  (
                    x.header.source_port_identity.port_number,
                    (
                      x.header.sequence_id,
                      (
                        x.header.control_field,
                        (
                          x.header.log_message_interval,
                          (
                            x.target_port_identity.clock_identity,
                            (
                              x.target_port_identity.port_number,
                              (
                                x.starting_boundary_hops,
                                (x.boundary_hops, (x.action_field, (x.reserved, tt))),
                              ),
                            ),
                          ),
                        ),
                      ),
                    ),
                  ),
                ),
              ),
            ),
          ),
        ),
      ),
    ),
  ),
)

abbrev pub msg_head_of_fields : Fields msg_head_layout → MsgHead
msg_head_of_fields
      (
        f0,
        (
          f1,
          (
            f2,
            (
              f3,
              (
                f4,
                (
                  f5,
                  (
                    f6,
                    (
                      f7,
                      (f8, (f9, (f10, (f11, (f12, (f13, (f14, (f15, (f16, (f17, (f18, tt))))))))))),
                    ),
                  ),
                ),
              ),
            ),
          ),
        ),
      ) =
    record {
      header = record {
        sdo_id_and_msg_type = f0;
        version = f1;
        message_length = f2;
        domain_number = f3;
        minor_sdo_id = f4;
        flag_field = f5;
        correction_field = f6;
        message_type_specific = f7;
        source_port_identity = record { clock_identity = f8; port_number = f9 };
        sequence_id = f10;
        control_field = f11;
        log_message_interval = f12;
      };
      target_port_identity = record { clock_identity = f13; port_number = f14 };
      starting_boundary_hops = f15;
      boundary_hops = f16;
      action_field = f17;
      reserved = f18;
    }

-- `CurrentDataSetTLV`.
pub record CurrentDataSet : Type 0 where
  pub head : TlvHead
  pub steps_removed : ℕ
  pub offset_from_master : ℕ
  pub mean_path_delay : ℕ

abbrev pub current_data_set_layout : List ℕ
current_data_set_layout = 2 ∷ 2 ∷ 2 ∷ 2 ∷ 8 ∷ 8 ∷ []

abbrev pub current_data_set_fields : CurrentDataSet → Fields current_data_set_layout
current_data_set_fields x = (
  x.head.tlv_type,
  (
    x.head.length_field,
    (x.head.management_id, (x.steps_removed, (x.offset_from_master, (x.mean_path_delay, tt)))),
  ),
)

abbrev pub current_data_set_of_fields : Fields current_data_set_layout → CurrentDataSet
current_data_set_of_fields (f0, (f1, (f2, (f3, (f4, (f5, tt)))))) = record {
  head = record { tlv_type = f0; length_field = f1; management_id = f2 };
  steps_removed = f3;
  offset_from_master = f4;
  mean_path_delay = f5;
}

-- `DefaultDataSetTLV`.
pub record DefaultDataSet : Type 0 where
  pub head : TlvHead
  pub so_tsc : ℕ
  pub reserved0 : ℕ
  pub number_ports : ℕ
  pub priority1 : ℕ
  pub clock_quality : ClockQuality
  pub priority2 : ℕ
  pub clock_identity : ℕ
  pub domain_number : ℕ
  pub reserved1 : ℕ

abbrev pub default_data_set_layout : List ℕ
default_data_set_layout = 2 ∷ 2 ∷ 2 ∷ 1 ∷ 1 ∷ 2 ∷ 1 ∷ 1 ∷ 1 ∷ 2 ∷ 1 ∷ 8 ∷ 1 ∷ 1 ∷ []

abbrev pub default_data_set_fields : DefaultDataSet → Fields default_data_set_layout
default_data_set_fields x = (
  x.head.tlv_type,
  (
    x.head.length_field,
    (
      x.head.management_id,
      (
        x.so_tsc,
        (
          x.reserved0,
          (
            x.number_ports,
            (
              x.priority1,
              (
                x.clock_quality.clock_class,
                (
                  x.clock_quality.clock_accuracy,
                  (
                    x.clock_quality.offset_scaled_log_variance,
                    (x.priority2, (x.clock_identity, (x.domain_number, (x.reserved1, tt)))),
                  ),
                ),
              ),
            ),
          ),
        ),
      ),
    ),
  ),
)

abbrev pub default_data_set_of_fields : Fields default_data_set_layout → DefaultDataSet
default_data_set_of_fields
      (f0, (f1, (f2, (f3, (f4, (f5, (f6, (f7, (f8, (f9, (f10, (f11, (f12, (f13, tt)))))))))))))) =
    record {
      head = record { tlv_type = f0; length_field = f1; management_id = f2 };
      so_tsc = f3;
      reserved0 = f4;
      number_ports = f5;
      priority1 = f6;
      clock_quality = record {
        clock_class = f7;
        clock_accuracy = f8;
        offset_scaled_log_variance = f9;
      };
      priority2 = f10;
      clock_identity = f11;
      domain_number = f12;
      reserved1 = f13;
    }

-- `ParentDataSetTLV`.
pub record ParentDataSet : Type 0 where
  pub head : TlvHead
  pub parent_port_identity : PortIdentity
  pub ps : ℕ
  pub reserved : ℕ
  pub observed_parent_offset_scaled_log_variance : ℕ
  pub observed_parent_clock_phase_change_rate : ℕ
  pub grandmaster_priority1 : ℕ
  pub grandmaster_clock_quality : ClockQuality
  pub grandmaster_priority2 : ℕ
  pub grandmaster_identity : ℕ

abbrev pub parent_data_set_layout : List ℕ
parent_data_set_layout = 2 ∷ 2 ∷ 2 ∷ 8 ∷ 2 ∷ 1 ∷ 1 ∷ 2 ∷ 4 ∷ 1 ∷ 1 ∷ 1 ∷ 2 ∷ 1 ∷ 8 ∷ []

abbrev pub parent_data_set_fields : ParentDataSet → Fields parent_data_set_layout
parent_data_set_fields x = (
  x.head.tlv_type,
  (
    x.head.length_field,
    (
      x.head.management_id,
      (
        x.parent_port_identity.clock_identity,
        (
          x.parent_port_identity.port_number,
          (
            x.ps,
            (
              x.reserved,
              (
                x.observed_parent_offset_scaled_log_variance,
                (
                  x.observed_parent_clock_phase_change_rate,
                  (
                    x.grandmaster_priority1,
                    (
                      x.grandmaster_clock_quality.clock_class,
                      (
                        x.grandmaster_clock_quality.clock_accuracy,
                        (
                          x.grandmaster_clock_quality.offset_scaled_log_variance,
                          (x.grandmaster_priority2, (x.grandmaster_identity, tt)),
                        ),
                      ),
                    ),
                  ),
                ),
              ),
            ),
          ),
        ),
      ),
    ),
  ),
)

abbrev pub parent_data_set_of_fields : Fields parent_data_set_layout → ParentDataSet
parent_data_set_of_fields
      (
        f0,
        (f1, (f2, (f3, (f4, (f5, (f6, (f7, (f8, (f9, (f10, (f11, (f12, (f13, (f14, tt)))))))))))))),
      ) =
    record {
      head = record { tlv_type = f0; length_field = f1; management_id = f2 };
      parent_port_identity = record { clock_identity = f3; port_number = f4 };
      ps = f5;
      reserved = f6;
      observed_parent_offset_scaled_log_variance = f7;
      observed_parent_clock_phase_change_rate = f8;
      grandmaster_priority1 = f9;
      grandmaster_clock_quality = record {
        clock_class = f10;
        clock_accuracy = f11;
        offset_scaled_log_variance = f12;
      };
      grandmaster_priority2 = f13;
      grandmaster_identity = f14;
    }

-- `ScaledNS`.
pub record ScaledNs : Type 0 where
  pub nanoseconds_msb : ℕ
  pub nanoseconds_lsb : ℕ
  pub fractional_nanoseconds : ℕ

-- `TimeStatusNPTLV`.
pub record TimeStatusNp : Type 0 where
  pub head : TlvHead
  pub master_offset_ns : ℕ
  pub ingress_time_ns : ℕ
  pub cumulative_scaled_rate_offset : ℕ
  pub scaled_last_gm_phase_change : ℕ
  pub gm_time_base_indicator : ℕ
  pub last_gm_phase_change : ScaledNs
  pub gm_present : ℕ
  pub gm_identity : ℕ

abbrev pub time_status_np_layout : List ℕ
time_status_np_layout = 2 ∷ 2 ∷ 2 ∷ 8 ∷ 8 ∷ 4 ∷ 4 ∷ 2 ∷ 2 ∷ 8 ∷ 2 ∷ 4 ∷ 8 ∷ []

abbrev pub time_status_np_fields : TimeStatusNp → Fields time_status_np_layout
time_status_np_fields x = (
  x.head.tlv_type,
  (
    x.head.length_field,
    (
      x.head.management_id,
      (
        x.master_offset_ns,
        (
          x.ingress_time_ns,
          (
            x.cumulative_scaled_rate_offset,
            (
              x.scaled_last_gm_phase_change,
              (
                x.gm_time_base_indicator,
                (
                  x.last_gm_phase_change.nanoseconds_msb,
                  (
                    x.last_gm_phase_change.nanoseconds_lsb,
                    (
                      x.last_gm_phase_change.fractional_nanoseconds,
                      (x.gm_present, (x.gm_identity, tt)),
                    ),
                  ),
                ),
              ),
            ),
          ),
        ),
      ),
    ),
  ),
)

abbrev pub time_status_np_of_fields : Fields time_status_np_layout → TimeStatusNp
time_status_np_of_fields
      (f0, (f1, (f2, (f3, (f4, (f5, (f6, (f7, (f8, (f9, (f10, (f11, (f12, tt))))))))))))) =
    record {
      head = record { tlv_type = f0; length_field = f1; management_id = f2 };
      master_offset_ns = f3;
      ingress_time_ns = f4;
      cumulative_scaled_rate_offset = f5;
      scaled_last_gm_phase_change = f6;
      gm_time_base_indicator = f7;
      last_gm_phase_change = record {
        nanoseconds_msb = f8;
        nanoseconds_lsb = f9;
        fractional_nanoseconds = f10;
      };
      gm_present = f11;
      gm_identity = f12;
    }
