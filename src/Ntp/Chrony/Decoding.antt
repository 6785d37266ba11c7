-- ===== src/Ntp/Chrony/Decoding.antt =====
-- `decodePacket` of ntp/chrony/packet.go on the replies of chronyd.
use ntp.Prelude.{
  ℕ, ◌≡◌, refl, ap, ◌∙◌, List, ◌++◌, Result, ok, err, denied, ◌>>=◌, ◌==◌, if◌then◌else◌, drop,
  arith,
}
use ntp.Wire.{put_be}
use ntp.Wire.Fields.{Fields, FieldsFit, put_fields, read_struct-put_fields}
use ntp.Ntp.Chrony.Replies.{
  ReplyHead, head_layout, head_fields, head_of_fields, SourcesContent, sources_layout,
  sources_fields, SourceDataContent, source_data_layout, source_data_fields, TrackingContent,
  tracking_layout, tracking_fields, SourceStatsContent, source_stats_layout, source_stats_fields,
  ServerStats, server_stats_layout, server_stats_fields, NtpDataContent, ntp_data_layout,
  ntp_data_fields, ServerStats2, server_stats2_layout, server_stats2_fields,
}
use ntp.Ntp.Chrony.Usable.{
  SourceData, Tracking, SourceStats, NtpData, new_source_data, new_tracking, new_source_stats,
  new_ntp_data,
}
use ntp.Ntp.Chrony.Meaning.{
  IsSourceData, IsTracking, IsSourceStats, IsNtpData, new_source_data-IsSourceData,
  new_tracking-IsTracking, new_source_stats-IsSourceStats, new_ntp_data-IsNtpData,
}
use ntp.Ntp.Chrony.Packets.{
  Response, reply_sources, reply_source_data, reply_tracking, reply_source_stats,
  reply_server_stats, reply_ntp_data, reply_server_stats2, decode_content, decode_packet,
  rpy_n_sources, rpy_source_data, rpy_tracking, rpy_source_stats, rpy_server_stats, rpy_ntp_data,
  rpy_server_stats2, stt_success,
}

-- What chronyd puts behind the head of a reply.
pub data Content : Type 0 where
  sources : SourcesContent → Content
  source_data : SourceDataContent → Content
  tracking : TrackingContent → Content
  source_stats : SourceStatsContent → Content
  server_stats : ServerStats → Content
  ntp_data : NtpDataContent → Content
  server_stats2 : ServerStats2 → Content

abbrev pub content_layout : Content → List ℕ
content_layout (sources c) = sources_layout
content_layout (source_data c) = source_data_layout
content_layout (tracking c) = tracking_layout
content_layout (source_stats c) = source_stats_layout
content_layout (server_stats c) = server_stats_layout
content_layout (ntp_data c) = ntp_data_layout
content_layout (server_stats2 c) = server_stats2_layout

abbrev pub content_fields : (c : Content) → Fields (content_layout c)
content_fields (sources c) = sources_fields c
content_fields (source_data c) = source_data_fields c
content_fields (tracking c) = tracking_fields c
content_fields (source_stats c) = source_stats_fields c
content_fields (server_stats c) = server_stats_fields c
content_fields (ntp_data c) = ntp_data_fields c
content_fields (server_stats2 c) = server_stats2_fields c

-- The type that announces a content, and the reply that the caller gets.
abbrev pub reply_type : Content → ℕ
reply_type (sources c) = rpy_n_sources
reply_type (source_data c) = rpy_source_data
reply_type (tracking c) = rpy_tracking
reply_type (source_stats c) = rpy_source_stats
reply_type (server_stats c) = rpy_server_stats
reply_type (ntp_data c) = rpy_ntp_data
reply_type (server_stats2 c) = rpy_server_stats2

abbrev pub usable : ReplyHead → Content → Response
usable h (sources c) = reply_sources h c.n_sources
usable h (source_data c) = reply_source_data h (new_source_data c)
usable h (tracking c) = reply_tracking h (new_tracking c)
usable h (source_stats c) = reply_source_stats h (new_source_stats c)
usable h (server_stats c) = reply_server_stats h c
usable h (ntp_data c) = reply_ntp_data h (new_ntp_data c)
usable h (server_stats2 c) = reply_server_stats2 h c

content_read :
    (h : ReplyHead) (c : Content) (rest : List ℕ)
    → h.reply ≡ reply_type c
    → FieldsFit (content_layout c) (content_fields c)
    → decode_content h (put_fields (content_layout c) (content_fields c) ++ rest) ≡ ok (usable h c)
unfolding decode_content
content_read h (sources c) rest e fits =
    rw (e, read_struct-put_fields sources_layout (sources_fields c) rest fits (omega arith)) refl
content_read h (source_data c) rest e fits =
    rw (e, read_struct-put_fields source_data_layout (source_data_fields c) rest fits (omega arith))
      refl
content_read h (tracking c) rest e fits =
    rw (e, read_struct-put_fields tracking_layout (tracking_fields c) rest fits (omega arith)) refl
content_read h (source_stats c) rest e fits =
    rw
      (
        e,
        read_struct-put_fields source_stats_layout (source_stats_fields c) rest fits (omega arith),
      )
      refl
content_read h (server_stats c) rest e fits =
    rw
      (
        e,
        read_struct-put_fields server_stats_layout (server_stats_fields c) rest fits (omega arith),
      )
      refl
content_read h (ntp_data c) rest e fits =
    rw (e, read_struct-put_fields ntp_data_layout (ntp_data_fields c) rest fits (omega arith)) refl
content_read h (server_stats2 c) rest e fits =
    rw
      (
        e,
        read_struct-put_fields server_stats2_layout (server_stats2_fields c) rest fits
            (omega arith),
      )
      refl

pub behind_head :
    (h : ReplyHead) (rest : List ℕ)
    → drop 28 (put_fields head_layout (head_fields h) ++ rest) ≡ rest
unfolding put_fields put_be
behind_head h rest = refl

decode_packet-put_fields :
    (h : ReplyHead) (c : Content) (rest : List ℕ)
    → FieldsFit head_layout (head_fields h)
    → h.status ≡ stt_success
    → h.reply ≡ reply_type c
    → FieldsFit (content_layout c) (content_fields c)
    → decode_packet (
        put_fields head_layout (head_fields h)
        ++ (put_fields (content_layout c) (content_fields c) ++ rest))
      ≡ ok (usable h c)
unfolding decode_packet
decode_packet-put_fields h c rest head_fits success kind fits =
    let body : List ℕ = put_fields (content_layout c) (content_fields c) ++ rest in
    let b : List ℕ = put_fields head_layout (head_fields h) ++ body in
    ap
      (λ (r : Result (Fields head_layout)). r >>= λ f.
        if (head_of_fields f).status == stt_success
        then decode_content (head_of_fields f) (drop 28 b)
        else err denied)
      (read_struct-put_fields head_layout (head_fields h) body head_fits (omega arith))
    ∙ ap (λ (s : ℕ). if s == stt_success then decode_content h (drop 28 b) else err denied) success
    ∙ ap (decode_content h) (behind_head h body)
    ∙ content_read h c rest kind fits

-- What the caller has to get for a content: the head, and each field under its name, its addresses,
-- times and floats as they are meant.
abbrev pub IsUsable : ReplyHead → Content → Response → Type 0
IsUsable h (sources c) r = r ≡ reply_sources h c.n_sources
IsUsable h (source_data c) r = (d : SourceData) × (r ≡ reply_source_data h d) × IsSourceData c d
IsUsable h (tracking c) r = (d : Tracking) × (r ≡ reply_tracking h d) × IsTracking c d
IsUsable h (source_stats c) r = (d : SourceStats) × (r ≡ reply_source_stats h d) × IsSourceStats c d
IsUsable h (server_stats c) r = r ≡ reply_server_stats h c
IsUsable h (ntp_data c) r = (d : NtpData) × (r ≡ reply_ntp_data h d) × IsNtpData c d
IsUsable h (server_stats2 c) r = r ≡ reply_server_stats2 h c

usable-IsUsable :
    (h : ReplyHead) (c : Content)
    → FieldsFit (content_layout c) (content_fields c)
    → IsUsable h c (usable h c)
usable-IsUsable h (sources c) fits = refl
usable-IsUsable h (source_data c) fits =
    (new_source_data c, refl, new_source_data-IsSourceData c fits)
usable-IsUsable h (tracking c) fits = (new_tracking c, refl, new_tracking-IsTracking c fits)
usable-IsUsable h (source_stats c) fits =
    (new_source_stats c, refl, new_source_stats-IsSourceStats c fits)
usable-IsUsable h (server_stats c) fits = refl
usable-IsUsable h (ntp_data c) fits = (new_ntp_data c, refl, new_ntp_data-IsNtpData c fits)
usable-IsUsable h (server_stats2 c) fits = refl

-- A successful reply of any of the seven kinds, its head and its content with fields that fit, and
-- anything behind it: the caller gets that head, and each field of the content under its name: numbers
-- as they are, floats with the bits on the wire, times in nanoseconds, and addresses as their bytes,
-- four or sixteen by the family.
pub decode_packet-IsUsable :
    (h : ReplyHead) (c : Content) (rest : List ℕ)
    → FieldsFit head_layout (head_fields h)
    → h.status ≡ stt_success
    → h.reply ≡ reply_type c
    → FieldsFit (content_layout c) (content_fields c)
    → (r : Response) × (decode_packet (
          put_fields head_layout (head_fields h)
          ++ (put_fields (content_layout c) (content_fields c) ++ rest))
        ≡ ok r)
      × IsUsable h c r
decode_packet-IsUsable h c rest head_fits success kind fits = (
  usable h c,
  decode_packet-put_fields h c rest head_fits success kind fits,
  usable-IsUsable h c fits,
)
