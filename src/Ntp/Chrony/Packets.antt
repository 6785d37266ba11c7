-- ===== src/Ntp/Chrony/Packets.antt =====
-- ntp/chrony/packet.go and client.go: the requests, the decoding of a reply, and the client.
use ntp.Prelude.{
  ℕ, ◌+◌, ◌%◌, ◌^◌, Option, none, some, List, [], ◌∷◌, ◌++◌, Result, ok, err, io, unsupported_type,
  denied, ◌>>=◌, ◌==◌, if◌then◌else◌, drop, take, replicate,
}
use ntp.Wire.Fields.{Fields, put_fields, read_struct}
use ntp.Ntp.Chrony.Helpers.{IpAddr, new_ip_addr}
use ntp.Ntp.Chrony.Replies.{
  ReplyHead, head_layout, head_of_fields, sources_layout, sources_of_fields, source_data_layout,
  source_data_of_fields, tracking_layout, tracking_of_fields, source_stats_layout,
  source_stats_of_fields, ServerStats, server_stats_layout, server_stats_of_fields, ntp_data_layout,
  ntp_data_of_fields, ServerStats2, server_stats2_layout, server_stats2_of_fields,
}
use ntp.Ntp.Chrony.Usable.{
  SourceData, Tracking, SourceStats, NtpData, new_source_data, new_tracking, new_source_stats,
  new_ntp_data,
}

-- `RequestHead`.
pub record RequestHead : Type 0 where
  pub version : ℕ
  pub pkt_type : ℕ
  pub res1 : ℕ
  pub res2 : ℕ
  pub command : ℕ
  pub attempt : ℕ
  pub sequence : ℕ
  pub pad1 : ℕ
  pub pad2 : ℕ

abbrev pub request_layout : List ℕ
request_layout = 1 ∷ 1 ∷ 1 ∷ 1 ∷ 2 ∷ 2 ∷ 4 ∷ 4 ∷ 4 ∷ []

abbrev pub request_fields : RequestHead → Fields request_layout
request_fields r = (
  r.version,
  (r.pkt_type, (r.res1, (r.res2, (r.command, (r.attempt, (r.sequence, (r.pad1, (r.pad2, tt)))))))),
)

abbrev pub proto_version_number : ℕ
proto_version_number = 6

abbrev pub pkt_type_cmd_request : ℕ
pkt_type_cmd_request = 1

abbrev pub max_data_len : ℕ
max_data_len = 396

abbrev pub req_n_sources : ℕ
req_n_sources = 14

abbrev pub req_source_data : ℕ
req_source_data = 15

abbrev pub req_tracking : ℕ
req_tracking = 33

abbrev pub req_source_stats : ℕ
req_source_stats = 34

abbrev pub req_server_stats : ℕ
req_server_stats = 54

abbrev pub req_ntp_data : ℕ
req_ntp_data = 57

-- The three shapes of a request: no content; the index of a source (the bits of an int32); an address.
pub data Request : Type 0 where
  plain : RequestHead → Request
  indexed : RequestHead → ℕ → Request
  addressed : RequestHead → IpAddr → Request

abbrev pub request_head : ℕ → RequestHead
request_head command = record {
  version = proto_version_number;
  pkt_type = pkt_type_cmd_request;
  res1 = 0;
  res2 = 0;
  command = command;
  attempt = 0;
  sequence = 0;
  pad1 = 0;
  pad2 = 0;
}

unfoldable pub new_sources_packet : Request
new_sources_packet = plain (request_head req_n_sources)

unfoldable pub new_tracking_packet : Request
new_tracking_packet = plain (request_head req_tracking)

unfoldable pub new_server_stats_packet : Request
new_server_stats_packet = plain (request_head req_server_stats)

unfoldable pub new_source_stats_packet : ℕ → Request
new_source_stats_packet index = indexed (request_head req_source_stats) index

unfoldable pub new_source_data_packet : ℕ → Request
new_source_data_packet index = indexed (request_head req_source_data) index

unfoldable pub new_ntp_data_packet : List ℕ → Request
unfolding new_ip_addr
new_ntp_data_packet ip = addressed (request_head req_ntp_data) (new_ip_addr ip)

-- `GetCommand` and `SetSequence`.
abbrev pub get_head : Request → RequestHead
get_head (plain h) = h
get_head (indexed h index) = h
get_head (addressed h ip) = h

unfoldable pub get_command : Request → ℕ
get_command r = (get_head r).command

unfoldable pub set_sequence : ℕ → Request → Request
set_sequence n (plain h) = plain (record h { sequence = n })
set_sequence n (indexed h index) = indexed (record h { sequence = n }) index
set_sequence n (addressed h ip) = addressed (record h { sequence = n }) ip

-- `binary.Write` of a request: the head, the content with the end of its list, and the padding.
abbrev pub address_layout : List ℕ
address_layout = 16 ∷ 2 ∷ 2 ∷ []

unfoldable pub request_bytes : Request → List ℕ
unfolding put_fields
request_bytes (plain h) = put_fields request_layout (request_fields h) ++ replicate max_data_len 0
request_bytes (indexed h index) =
    put_fields request_layout (request_fields h)
    ++ (put_fields (4 ∷ 4 ∷ []) (index, (0, tt)) ++ replicate 392 0)
request_bytes (addressed h a) =
    put_fields request_layout (request_fields h)
    ++ (put_fields address_layout (a.ip, (a.family, (a.pad, tt)))
        ++ (put_fields (4 ∷ []) (0, tt) ++ replicate 380 0))

-- The replies.
pub data Response : Type 0 where
  reply_sources : ReplyHead → ℕ → Response
  reply_source_data : ReplyHead → SourceData → Response
  reply_tracking : ReplyHead → Tracking → Response
  reply_source_stats : ReplyHead → SourceStats → Response
  reply_server_stats : ReplyHead → ServerStats → Response
  reply_ntp_data : ReplyHead → NtpData → Response
  reply_server_stats2 : ReplyHead → ServerStats2 → Response

abbrev pub stt_success : ℕ
stt_success = 0

abbrev pub rpy_n_sources : ℕ
rpy_n_sources = 2

abbrev pub rpy_source_data : ℕ
rpy_source_data = 3

abbrev pub rpy_tracking : ℕ
rpy_tracking = 5

abbrev pub rpy_source_stats : ℕ
rpy_source_stats = 6

abbrev pub rpy_server_stats : ℕ
rpy_server_stats = 14

abbrev pub rpy_ntp_data : ℕ
rpy_ntp_data = 16

abbrev pub rpy_server_stats2 : ℕ
rpy_server_stats2 = 22

-- The switch of `decodePacket` on the type of the reply, on what is behind the head.
unfoldable pub decode_content : ReplyHead → List ℕ → Result Response
unfolding read_struct new_source_data new_tracking new_source_stats new_ntp_data
decode_content h b =
    if h.reply == rpy_n_sources
    then (read_struct sources_layout b >>= λ f.
        ok (reply_sources h (sources_of_fields f).n_sources))
    else (if h.reply == rpy_source_data
        then (read_struct source_data_layout b >>= λ f.
            ok (reply_source_data h (new_source_data (source_data_of_fields f))))
        else (if h.reply == rpy_tracking
            then (read_struct tracking_layout b >>= λ f.
                ok (reply_tracking h (new_tracking (tracking_of_fields f))))
            else (if h.reply == rpy_source_stats
                then (read_struct source_stats_layout b >>= λ f.
                    ok (reply_source_stats h (new_source_stats (source_stats_of_fields f))))
                else (if h.reply == rpy_server_stats
                    then (read_struct server_stats_layout b >>= λ f.
                        ok (reply_server_stats h (server_stats_of_fields f)))
                    else (if h.reply == rpy_ntp_data
                        then (read_struct ntp_data_layout b >>= λ f.
                            ok (reply_ntp_data h (new_ntp_data (ntp_data_of_fields f))))
                        else (if h.reply == rpy_server_stats2
                            then (read_struct server_stats2_layout b >>= λ f.
                                ok (reply_server_stats2 h (server_stats2_of_fields f)))
                            else err unsupported_type))))))

-- `decodePacket`.
unfoldable pub decode_packet : List ℕ → Result Response
unfolding read_struct decode_content
decode_packet b = read_struct head_layout b >>= λ f.
    let h = head_of_fields f in
    if h.status == stt_success then decode_content h (drop 28 b) else err denied

-- `Client`, with what was written, oldest first.
pub record Client : Type 0 where
  pub sequence : ℕ
  pub written : List (List ℕ)

-- What the response to a read decodes to: none is a read that fails, and 1024 bytes are read at most.
unfoldable pub received : Option (List ℕ) → Result Response
unfolding decode_packet
received none = err io
received (some b) = decode_packet (take 1024 b)

-- `Communicate`, on a connection that takes what is written to it.
unfoldable pub communicate : Client → Request → Option (List ℕ) → Client × Result Response
unfolding set_sequence request_bytes received
communicate n packet read =
    let sequence = (n.sequence + 1) % 2 ^ 32 in
    (
      record {
        sequence = sequence;
        written = n.written ++ request_bytes (set_sequence sequence packet) ∷ [];
      },
      received read,
    )
