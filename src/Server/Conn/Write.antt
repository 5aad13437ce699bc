-- ===== src/Server/Conn/Write.antt =====
-- `Handler::write_streams` and `Handler::on_write`: the packets that ngtcp2 writes are gathered in a
-- buffer and sent together with UDP_SEGMENT, or one by one.
use quicsy.Prelude.{
  ℕ, zero, suc, ◌+◌, ◌*◌, ◌&&◌, ◌||◌, Bool, true, false, not, Bytes, Option, none, some, [], ◌∷◌,
  ◌++◌, ltb, ◌==◌, if◌then◌else◌, length,
}
use quicsy.Prelude.Assoc.{same}
use quicsy.Server.Conn.{
  Quic, Conn, Outcome, returns, aborts, overruns, exhausted, ok, send_blocked, failed, fatal,
  close_wait, retry, StreamChunk, NetworkPath, Wrote, packet, data_blocked, shut_wr, write_more,
  write_error, send_packet, update_path, endpoint_is_there, quic_err_transport, quic_err_app,
  reset_idle_timer, schedule_retransmit, handle_error,
}

abbrev pub max_pktcnt : ℕ
max_pktcnt = 10

-- The loop's variables: what stands in `buf` up to `bufpos`, and `pktcnt`.
pub record Loop (S : Type 0) : Type 0 where
  pub conn : Conn S
  pub gathered : Bytes
  pub pktcnt : ℕ

-- A round goes on or returns.
pub data Round (S : Type 0) : Type 0 where
  goes_on : Loop S → Round S
  stops : Outcome S → Round S

-- No stream, no data.
abbrev pub no_chunk : StreamChunk
no_chunk = record { stream_id = none; fin = false; contents = [] }

-- `gso` is NGTCP2_ENABLE_UDP_GSO, `max_pktlen` is `max_pktlen_`, and `bufsize` the size that the packets
-- of `buf` are reckoned with, the larger one of NGTCP2_MAX_PKTLEN_IPV4 and NGTCP2_MAX_PKTLEN_IPV6.
module _ (q : Quic) (gso : Bool) (max_pktlen bufsize now : ℕ) where
  open q use {State, max_data_left, has_http, http_writev, writev, block_stream, add_write_offset}

  -- `last_error_ = …; return handle_error();`
  abbrev pub app_error : ℕ → Loop State → Round State
  app_error e l =
      stops (handle_error q max_pktlen now (record l.conn { last_error = quic_err_app q e }))

  -- `if (bufpos - buf.data()) { send_packet(…); reset_idle_timer(); } return 0;`
  abbrev pub flush_gathered : Bytes → Conn State → Round State
  flush_gathered [] c = stops (returns ok c)
  flush_gathered (b ∷ s) c =
      stops (returns ok (reset_idle_timer q now (send_packet (b ∷ s) max_pktlen c)))

  abbrev pub flush : Loop State → Round State
  flush l = flush_gathered l.gathered l.conn

  abbrev pub continue_unless : Option ℕ × State → Loop State → Round State
  continue_unless (none, s) l = goes_on (record l { conn = record l.conn { quic = s } })
  continue_unless (some e, s) l = app_error e (record l { conn = record l.conn { quic = s } })

  -- Where a stream cannot take data; `blocked` for NGTCP2_ERR_STREAM_DATA_BLOCKED.
  abbrev pub stream_stuck : Bool → StreamChunk → Loop State → Round State
  stream_stuck blocked chunk l =
      if blocked && (max_data_left l.conn.quic == 0)
      then flush l
      else continue_unless (block_stream chunk.stream_id l.conn.quic) l

  -- NGTCP2_ERR_WRITE_STREAM_MORE, with its assertion.
  abbrev pub more_data : ℕ → StreamChunk → Loop State → Round State
  more_data ndatalen chunk l =
      if ltb 0 ndatalen
      then continue_unless (add_write_offset chunk.stream_id ndatalen l.conn.quic) l
      else stops aborts

  -- `ev_io_start(loop_, &wev_); return 0;` behind a call of `send_packet` and `reset_idle_timer`.
  abbrev pub stop_writing : Conn State → Round State
  stop_writing c = stops (returns ok (record (reset_idle_timer q now c) { writing = true }))

  -- Behind `++pktcnt` with UDP_SEGMENT.
  abbrev pub full_or_next : Bytes → Loop State → Round State
  full_or_next pkt l =
      if (l.pktcnt == max_pktcnt) || ltb (length pkt) max_pktlen
      then stop_writing (send_packet l.gathered max_pktlen l.conn)
      else goes_on l

  -- `update_remote_addr`, which leaves the endpoint.
  abbrev pub update_remote : NetworkPath → Conn State → Conn State
  update_remote path c = record c { path = record c.path { remote = path.remote } }

  -- With UDP_SEGMENT: a packet for another address is sent by itself, behind those gathered.
  abbrev pub gather : Bytes → NetworkPath → Loop State → Round State
  gather pkt path l =
      if l.pktcnt == 0
      then (if endpoint_is_there path
          then full_or_next pkt
              (record { conn = update_path path l.conn; gathered = l.gathered ++ pkt; pktcnt = 1 })
          else stops aborts)
      else if not (same l.conn.path.remote path.remote)
      then stop_writing (
          send_packet pkt max_pktlen
            (update_remote path (send_packet l.gathered max_pktlen l.conn)))
      else full_or_next pkt
          (record { conn = l.conn; gathered = l.gathered ++ pkt; pktcnt = l.pktcnt + 1 })

  -- Without UDP_SEGMENT each packet is sent at once.
  abbrev pub send_at_once : Bytes → NetworkPath → Loop State → Round State
  send_at_once pkt path l =
      let c =
        send_packet (l.gathered ++ pkt) 0 (reset_idle_timer q now (update_path path l.conn)) in
      if l.pktcnt + 1 == max_pktcnt
      then stops (returns ok (record c { writing = true }))
      else goes_on (record { conn = c; gathered = []; pktcnt = l.pktcnt + 1 })

  abbrev pub send_each : Bytes → NetworkPath → Loop State → Round State
  send_each pkt path l = if endpoint_is_there path then send_at_once pkt path l else stops aborts

  abbrev pub take_packet : Bytes → NetworkPath → Loop State → Round State
  take_packet pkt path l = if gso then gather pkt path l else send_each pkt path l

  -- Behind `nghttp3_conn_add_write_offset` for a packet with stream data.
  abbrev pub offset_then_take : Bytes → NetworkPath → Option ℕ × State → Loop State → Round State
  offset_then_take pkt path (none, s) l =
      take_packet pkt path (record l { conn = record l.conn { quic = s } })
  offset_then_take pkt path (some e, s) l =
      app_error e (record l { conn = record l.conn { quic = s } })

  -- `if (ndatalen >= 0)`.
  abbrev pub with_offset : Bytes → Option ℕ → NetworkPath → StreamChunk → Loop State → Round State
  with_offset pkt none path chunk l = take_packet pkt path l
  with_offset pkt (some n) path chunk l =
      offset_then_take pkt path (add_write_offset chunk.stream_id n l.conn.quic) l

  -- Behind `ngtcp2_conn_writev_stream`.
  abbrev pub after_writev : Wrote → StreamChunk → Loop State → Round State
  after_writev (packet [] ndatalen path) chunk l = flush l
  after_writev (packet (b ∷ s) ndatalen path) chunk l = with_offset (b ∷ s) ndatalen path chunk l
  after_writev data_blocked chunk l = stream_stuck true chunk l
  after_writev shut_wr chunk l = stream_stuck false chunk l
  after_writev (write_more ndatalen) chunk l = more_data ndatalen chunk l
  after_writev (write_error e) chunk l =
      stops (handle_error q max_pktlen now (record l.conn { last_error = quic_err_transport q e }))

  -- The call of `ngtcp2_conn_writev_stream`, which may write `max_pktlen` bytes at `bufpos`.
  abbrev pub write_chunk : StreamChunk → Loop State → Round State
  write_chunk chunk l =
      if ltb (bufsize * max_pktcnt) (length l.gathered + max_pktlen)
      then stops overruns
      else (let r = writev chunk now l.conn.quic in
          after_writev r.0 chunk (record l { conn = record l.conn { quic = r.1 } }))

  -- Behind `nghttp3_conn_writev_stream`.
  abbrev pub after_http : Option ℕ × StreamChunk × State → Loop State → Round State
  after_http (none, chunk, s) l = write_chunk chunk (record l { conn = record l.conn { quic = s } })
  after_http (some e, chunk, s) l = app_error e (record l { conn = record l.conn { quic = s } })

  -- One round of the loop.
  unfoldable pub write_round : Loop State → Round State
  write_round l =
      if has_http l.conn.quic && not (max_data_left l.conn.quic == 0)
      then after_http (http_writev l.conn.quic) l
      else write_chunk no_chunk l

  abbrev pub proceed : (Loop State → Outcome State) → Round State → Outcome State
  proceed next (goes_on l) = next l
  proceed next (stops r) = r

  unfoldable pub write_loop : ℕ → Loop State → Outcome State
  unfolding write_round
  write_loop zero l = exhausted
  write_loop (suc fuel) l = proceed (write_loop fuel) (write_round l)

  unfoldable pub write_streams : ℕ → Conn State → Outcome State
  unfolding write_loop
  write_streams fuel c = write_loop fuel (record { conn = c; gathered = []; pktcnt = 0 })

  -- The end of `on_write`.
  abbrev pub rescheduled : Outcome State → Outcome State
  rescheduled (returns ok c) = returns ok (schedule_retransmit q now c)
  rescheduled (returns send_blocked c) = returns send_blocked (schedule_retransmit q now c)
  rescheduled (returns failed c) = returns failed c
  rescheduled (returns fatal c) = returns fatal c
  rescheduled (returns close_wait c) = returns close_wait c
  rescheduled (returns retry c) = returns retry c
  rescheduled aborts = aborts
  rescheduled overruns = overruns
  rescheduled exhausted = exhausted

  unfoldable pub on_write : ℕ → Conn State → Outcome State
  unfolding write_streams
  on_write fuel c =
      if q.in_closing c.quic || q.in_draining c.quic
      then returns ok c
      else rescheduled (write_streams fuel c)
