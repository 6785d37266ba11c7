-- ===== src/Ptp/Management/Client/Questions.antt =====
-- The five questions of the management client, each with the answers that are TLVs of any type.
use ntp.Prelude.{
  ℕ, ◌+◌, ◌%◌, ◌<◌, ◌≡◌, refl, List, [], ◌∷◌, ◌++◌, Option, some, ap, ◌∙◌, ◌>>=◌, Result, ok, err,
  wrong_message, length, drop, arith,
}
use ntp.Wire.{put_be}
use ntp.Wire.Fields.{FieldsFit, put_fields, read_struct, read_struct-put_fields}
use ntp.Ptp.Management.Structs.{
  msg_head_layout, msg_head_fields, tlv_head_layout, DefaultDataSet, CurrentDataSet, ParentDataSet,
  TimeStatusNp,
}
use ntp.Ptp.Management.{
  Management, MgmtTlv, PortStatsNp, request, default_data_set, current_data_set, parent_data_set,
  port_stats_np, time_status_np, mgmt_tlv_bytes, management_marshal_binary,
  management_unmarshal_binary,
}
use ntp.Ptp.Management.RoundTrip.{IsDataSet}
use ntp.Ptp.Management.Requests.{
  request_head, np_request, current_data_set_request, default_data_set_request,
  parent_data_set_request, port_stats_np_request, time_status_np_request,
}
use ntp.Ptp.Management.Client.{
  MgmtClient, default_data_set_of, current_data_set_of, parent_data_set_of, port_stats_np_of,
  time_status_np_of, send_packet, communicate, asserted, ask, ask_default_data_set,
  ask_current_data_set, ask_parent_data_set, ask_port_stats_np, ask_time_status_np,
}
use ntp.Ptp.Management.Client.Asking.{ask_answered, received_message}

-- What the questions return when a TLV comes back: the TLV to the question of its type, and an error to
-- the other four.
pub record Outcomes : Type 0 where
  pub default : Result DefaultDataSet
  pub current : Result CurrentDataSet
  pub parent : Result ParentDataSet
  pub port_stats : Result PortStatsNp
  pub time_status : Result TimeStatusNp

abbrev refused : Outcomes
refused = record {
  default = err wrong_message;
  current = err wrong_message;
  parent = err wrong_message;
  port_stats = err wrong_message;
  time_status = err wrong_message;
}

abbrev pub outcomes : MgmtTlv → Outcomes
outcomes (request t) = refused
outcomes (default_data_set t) = record refused { default = ok t }
outcomes (current_data_set t) = record refused { current = ok t }
outcomes (parent_data_set t) = record refused { parent = ok t }
outcomes (port_stats_np t) = record refused { port_stats = ok t }
outcomes (time_status_np t) = record refused { time_status = ok t }

-- A packet under a number.
abbrev pub numbered : ℕ → Management → Management
numbered n q = record q {
  head = record q.head { header = record q.head.header { sequence_id = n } };
}

module _ {ℓ} {A : Type ℓ} where
  -- After a question: one packet more is written, under the number behind the last (modulo 2^16), which
  -- is read back as the question.
  abbrev pub Asked : MgmtClient → Management → Result A → MgmtClient × Result A → Type ℓ
  Asked c q result after =
      (b : List ℕ) × (after
        ≡ (record { sequence = (c.sequence + 1) % 65536; written = c.written ++ b ∷ [] }, result))
      × (management_unmarshal_binary b ≡ ok (numbered ((c.sequence + 1) % 65536) q))

  -- The same for a question that is a head and the head of a TLV: six bytes that name the id.
  abbrev pub AskedById : MgmtClient → Management → ℕ → Result A → MgmtClient × Result A → Type ℓ
  AskedById c q id result after =
      (b : List ℕ) × (after
        ≡ (record { sequence = (c.sequence + 1) % 65536; written = c.written ++ b ∷ [] }, result))
      × (read_struct msg_head_layout b
          ≡ ok (msg_head_fields (numbered ((c.sequence + 1) % 65536) q).head))
      × (read_struct tlv_head_layout (drop 48 b) ≡ ok (1, (2, (id, tt))))
      × (length b ≡ 54)

  np_answered :
      (of : MgmtTlv → Option A) (result : Result A) (c : MgmtClient) (pid id : ℕ) (p : Management)
      → pid < 65536
      → id < 65536
      → FieldsFit msg_head_layout (msg_head_fields p.head)
      → IsDataSet p.tlv
      → asserted (of p.tlv) ≡ result
      → AskedById c
          (np_request pid id)
          id
          result
          (ask of c (np_request pid id) (some (management_marshal_binary p)))
  unfolding ask communicate send_packet np_request request_head management_marshal_binary
      mgmt_tlv_bytes put_fields put_be
  np_answered of result c pid id p small known fits set is =
      let n : ℕ = (c.sequence + 1) % 65536 in
      let q : Management = numbered n (np_request pid id) in
      let tlv : List ℕ = put_fields tlv_head_layout (1, (2, (id, tt))) in
      let q_fits : FieldsFit msg_head_layout (msg_head_fields q.head) = omega arith in
      (
        management_marshal_binary q,
        ap
              (λ (r : Result Management).
                (send_packet c (np_request pid id), r >>= λ p. asserted (of p.tlv)))
              (received_message p fits set)
            ∙ ap (λ (r : Result A). (send_packet c (np_request pid id), r)) is,
        read_struct-put_fields msg_head_layout (msg_head_fields q.head) tlv q_fits (omega arith),
        read_struct-put_fields tlv_head_layout (1, (2, (id, tt))) [] (omega arith) (omega arith),
        refl,
      )

default_outcome : (t : MgmtTlv) → asserted (default_data_set_of t) ≡ (outcomes t).default
default_outcome (request t) = refl
default_outcome (default_data_set t) = refl
default_outcome (current_data_set t) = refl
default_outcome (parent_data_set t) = refl
default_outcome (port_stats_np t) = refl
default_outcome (time_status_np t) = refl

current_outcome : (t : MgmtTlv) → asserted (current_data_set_of t) ≡ (outcomes t).current
current_outcome (request t) = refl
current_outcome (default_data_set t) = refl
current_outcome (current_data_set t) = refl
current_outcome (parent_data_set t) = refl
current_outcome (port_stats_np t) = refl
current_outcome (time_status_np t) = refl

parent_outcome : (t : MgmtTlv) → asserted (parent_data_set_of t) ≡ (outcomes t).parent
parent_outcome (request t) = refl
parent_outcome (default_data_set t) = refl
parent_outcome (current_data_set t) = refl
parent_outcome (parent_data_set t) = refl
parent_outcome (port_stats_np t) = refl
parent_outcome (time_status_np t) = refl

port_stats_outcome : (t : MgmtTlv) → asserted (port_stats_np_of t) ≡ (outcomes t).port_stats
port_stats_outcome (request t) = refl
port_stats_outcome (default_data_set t) = refl
port_stats_outcome (current_data_set t) = refl
port_stats_outcome (parent_data_set t) = refl
port_stats_outcome (port_stats_np t) = refl
port_stats_outcome (time_status_np t) = refl

time_status_outcome : (t : MgmtTlv) → asserted (time_status_np_of t) ≡ (outcomes t).time_status
time_status_outcome (request t) = refl
time_status_outcome (default_data_set t) = refl
time_status_outcome (current_data_set t) = refl
time_status_outcome (parent_data_set t) = refl
time_status_outcome (port_stats_np t) = refl
time_status_outcome (time_status_np t) = refl

module _ {ℓ} {A : Type ℓ} where
  data_set_answered :
      (of : MgmtTlv → Option A) (result : Result A) (c : MgmtClient) (q p : Management)
      → FieldsFit msg_head_layout (msg_head_fields q.head)
      → IsDataSet q.tlv
      → FieldsFit msg_head_layout (msg_head_fields p.head)
      → IsDataSet p.tlv
      → asserted (of p.tlv) ≡ result
      → Asked c q result (ask of c q (some (management_marshal_binary p)))
  data_set_answered of result c q p q_fits q_set fits set is =
      let (b, run, back) = ask_answered of c q p q_fits q_set fits set in
      (
        b,
        run
            ∙ ap
                (λ (r : Result A). (
                  record { sequence = (c.sequence + 1) % 65536; written = c.written ++ b ∷ [] },
                  r,
                ))
                is,
        back,
      )

-- A client whose process id has sixteen bits asks one of its five questions, and the read brings a
-- well-formed default, current or parent data set or time status: the client writes one packet, under
-- the number behind its last (modulo 2^16), which is read back as the question (for the two questions
-- of ptp4l as its head and the id asked for); and the question returns the TLV if it asked for one of
-- its type, and an error if it did not.
pub questions_answered :
    (pid : ℕ) (c : MgmtClient) (p : Management)
    → pid < 65536
    → FieldsFit msg_head_layout (msg_head_fields p.head)
    → IsDataSet p.tlv
    → let read = some (management_marshal_binary p) in
      Asked c
        (default_data_set_request pid)
        (outcomes p.tlv).default
        (ask_default_data_set pid c read)
      × Asked c
          (current_data_set_request pid)
          (outcomes p.tlv).current
          (ask_current_data_set pid c read)
      × Asked c
          (parent_data_set_request pid)
          (outcomes p.tlv).parent
          (ask_parent_data_set pid c read)
      × AskedById c
          (port_stats_np_request pid)
          0xc005
          (outcomes p.tlv).port_stats
          (ask_port_stats_np pid c read)
      × AskedById c
          (time_status_np_request pid)
          0xc000
          (outcomes p.tlv).time_status
          (ask_time_status_np pid c read)
unfolding ask_default_data_set ask_current_data_set ask_parent_data_set ask_port_stats_np
    ask_time_status_np port_stats_np_request time_status_np_request current_data_set_request
    default_data_set_request parent_data_set_request request_head
questions_answered pid c p small fits set = (
  data_set_answered default_data_set_of _ c (default_data_set_request pid) p (omega arith)
      (omega arith) fits set (default_outcome p.tlv),
  data_set_answered current_data_set_of _ c (current_data_set_request pid) p (omega arith)
      (omega arith) fits set (current_outcome p.tlv),
  data_set_answered parent_data_set_of _ c (parent_data_set_request pid) p (omega arith)
      (omega arith) fits set (parent_outcome p.tlv),
  np_answered port_stats_np_of _ c pid 0xc005 p small (omega arith) fits set
      (port_stats_outcome p.tlv),
  np_answered time_status_np_of _ c pid 0xc000 p small (omega arith) fits set
      (time_status_outcome p.tlv),
)
