-- ===== src/Streaming/Tests.antt =====
-- A small codec library to run the transcoder on, and the theorems at concrete inputs.
use quicsy.Prelude.{
  ℕ, ◌+◌, ◌-◌, ◌≡◌, ◌==◌, if◌then◌else◌, Bool, Bool-cases, inl, inr, refl, true, false, List, [],
  ◌∷◌, ◌++◌, none, some, codes, arith,
}
use quicsy.Prelude.Int.{ℤ, pos, negsuc}
use quicsy.Streaming.Outcome.{ok, eq_ℤ, is_neg}
use quicsy.Streaming.Av.{AvLib, Packet, Rational, MediaType, video, audio, other}
use quicsy.Streaming.Context.{StreamingContext, calloc_context}
use quicsy.Streaming.Setup.{prepare_decoder}
use quicsy.Streaming.Setup.Fill.{Decoders}
use quicsy.Streaming.Setup.Select.{FixedStreams, Selects, prepare_decoder-Selects}
use quicsy.Streaming.Main.{main_params, handle_packet, packet_loop}
use quicsy.Streaming.Main.Packets.{Copying, Copied, copies, packet_loop-Copied}
use quicsy.Streaming.Transcode.{no_more, encode_video, encode_audio}
use quicsy.Streaming.Transcode.Drain.{FifoEncoder}
use quicsy.Streaming.Transcode.Encode.{
  VideoStreams, Encoded, encode_video-Encoded, AudioStreams, encode_audio-Encoded, audio_packet,
  video_packet,
}

-- The encoder holds `queue`, the file holds `output` and takes `room` packets more; `refused` are those
-- that it did not take.
record Fake : Type 0 where
  queue : List Packet
  output : List Packet
  refused : List Packet
  live : ℕ
  room : ℕ
  opened : ℕ → Bool

abbrev receive : List Packet → Packet → Fake → (ℤ × Packet) × Fake
receive [] old w = ((negsuc 10, old), w)
receive (p ∷ ps) old w = ((pos 0, p), record w { queue = ps })

abbrev write_room : ℕ → Packet → Fake → ℤ × Fake
write_room ℕ.zero p w = (negsuc 27, record w { refused = w.refused ++ p ∷ [] })
write_room (ℕ.suc n) p w = (pos 0, record w { output = w.output ++ p ∷ []; room = n })

abbrev opened_too : ℕ → Fake → Fake
opened_too c w = record w { opened = λ n. if n == c then true else w.opened n }

abbrev kind_of : ℕ → MediaType
kind_of ℕ.zero = video
kind_of (ℕ.suc ℕ.zero) = audio
kind_of (ℕ.suc (ℕ.suc ℕ.zero)) = audio
kind_of (ℕ.suc (ℕ.suc (ℕ.suc n))) = other

abbrev blank : Packet
blank = record { stream_index = 0; duration = 0; pts = 0; dts = 0; content = 0 }

abbrev ratio : ℕ → ℕ → Rational
ratio a b = record { num = a; den = b }

abbrev fake : AvLib
fake = record {
  World = Fake;
  Format = ℕ;
  Codec = ℕ;
  Context = ℕ;
  Stream = ℕ;
  Params = ℕ;
  Frame = ℕ;
  again = negsuc 10;
  eof = negsuc 541478724;
  alloc_format = λ w. (some 0, w);
  open_input = λ f name w. (pos 0, w);
  find_stream_info = λ f w. (pos 0, w);
  nb_streams = λ f w. 4;
  stream_at = λ f i w. i;
  codec_type = λ s w. kind_of s;
  codecpar = λ s w. s;
  find_decoder = λ p w. some p;
  alloc_context = λ c w. (some c, w);
  parameters_to_context = λ c p w. (pos 0, w);
  open_codec = λ c d w. (pos 0, opened_too c w);
  alloc_output = λ name w. (some 1, w);
  new_stream = λ f w. (some 0, w);
  find_encoder_by_name = λ name w. some 7;
  configure = λ c s w. w;
  picture_height = λ c w. 720;
  picture_width = λ c w. 1280;
  picture_aspect = λ c w. ratio 1 1;
  picture_format = λ c w. 0;
  audio_rate = λ c w. 48000;
  pix_fmts = λ c w. none;
  sample_fmts = λ c w. some 8;
  default_channel_layout = λ n. n;
  experimental = 0;
  parameters_from_context = λ s c w. w;
  parameters_copy = λ s p w. w;
  stream_time_base = λ s w. ratio 1 90000;
  set_stream_time_base = λ s r w. w;
  avg_frame_rate = λ s w. ratio 30 1;
  guess_frame_rate = λ f s w. ratio 30 1;
  packet_alloc = λ w. (some blank, record w { live = w.live + 1 });
  packet_unref = λ p w. w;
  packet_free = λ p w. record w { live = w.live - 1 };
  frame_unref = λ f w. w;
  clear_pict_type = λ f. f;
  rescale_ts = λ p a b. p;
  send_frame = λ c f w. (pos 0, w);
  receive_packet = λ c p w. receive w.queue p w;
  send_packet = λ c p w. (pos 0, w);
  receive_frame = λ c f w. ((negsuc 10, f), w);
  interleaved_write_frame = λ f p w. write_room w.room p w;
  wants_global_header = λ f w. true;
  set_global_header = λ f w. w;
  without_file = λ f w. false;
  avio_open = λ f name w. (pos 0, w);
  write_header = λ f opts w. (pos 0, w);
  frame_alloc = λ w. (some 0, w);
  read_frame = λ f p w. receive w.queue p w;
  write_trailer = λ f w. w;
  frame_free = λ f w. w;
  close_input = λ f w. w;
  free_format = λ f w. w;
  free_context = λ c w. w;
}

write_room-ok :
    (n : ℕ) (p : Packet) (w : Fake)
    → eq_ℤ (write_room n p w).0 ok ≡ true
    → ((write_room n p w).1.output ≡ w.output ++ p ∷ [])
      × ((write_room n p w).1.refused ≡ w.refused)
write_room-ok ℕ.zero p w e = absurd (cc e)
write_room-ok (ℕ.suc n) p w e = (refl, refl)

write_room-fails :
    (n : ℕ) (p : Packet) (w : Fake)
    → eq_ℤ (write_room n p w).0 ok ≡ false
    → ((write_room n p w).1.output ≡ w.output)
      × ((write_room n p w).1.refused ≡ w.refused ++ p ∷ [])
write_room-fails ℕ.zero p w e = (refl, refl)
write_room-fails (ℕ.suc n) p w e = absurd (cc e)

write_room-keeps :
    (n : ℕ) (p : Packet) (w : Fake)
    → ((write_room n p w).1.queue ≡ w.queue) × ((write_room n p w).1.live ≡ w.live)
write_room-keeps ℕ.zero p w = (refl, refl)
write_room-keeps (ℕ.suc n) p w = (refl, refl)

fifo : FifoEncoder fake 7 1
unfolding no_more
fifo = record {
  queue = λ w. w.queue;
  output = λ w. w.output;
  refused = λ w. w.refused;
  live = λ w. w.live;
  success_goes_on = refl;
  receive_some = λ w old p ps e. rw e (refl, refl, refl, refl, refl, refl);
  receive_none = λ w old e. rw e (refl, refl, refl, refl);
  write_ok = λ w p e. write_room-ok w.room p w e;
  write_fails = λ w p e. write_room-fails w.room p w e;
  write_keeps = λ w p. write_room-keeps w.room p w;
  alloc_counts = λ w. (refl, refl, refl);
  send_keeps = λ w frame. (refl, refl, refl);
  unref_keeps = λ w p. (refl, refl, refl);
  free_gives_back = λ w p. (refl, refl, refl);
}

abbrev decoder : StreamingContext fake
decoder = record (calloc_context fake (some (codes "in.mp4"))) {
  avfc = some 0;
  video_avs = some 0;
  video_avcc = some 0;
}

abbrev encoder : StreamingContext fake
encoder = record (calloc_context fake (some (codes "out.mp4"))) {
  avfc = some 1;
  video_avs = some 0;
  video_avcc = some 7;
}

streams : VideoStreams fake decoder encoder
streams = record {
  from = 0;
  to = 0;
  from_tb = ratio 1 90000;
  to_tb = ratio 1 90000;
  rate = ratio 30 1;
  decodes = refl;
  encodes = refl;
  from_base = λ w. refl;
  to_base = λ w. refl;
  from_rate = λ w. refl;
  base_not_zero = omega arith;
  rate_not_zero = omega arith;
  duration_fits = omega arith;
}

abbrev two_packets : List Packet
two_packets = record blank { content = 5 } ∷ record blank { content = 6 } ∷ []

-- A file with room for one packet alone.
abbrev almost_full : Fake
almost_full = record {
  queue = two_packets;
  output = [];
  refused = [];
  live = 0;
  room = 1;
  opened = λ n. false;
}

encode_video-Encoded_example :
    Encoded fake fifo
      (video_packet fake streams)
      two_packets
      almost_full
      (encode_video fake 3 decoder encoder (some 0) almost_full)
unfolding fifo
encode_video-Encoded_example =
    encode_video-Encoded fake fifo streams refl refl almost_full blank (some 0) two_packets refl
      refl refl 3 (omega arith)

four_streams : FixedStreams fake 0
four_streams = record {
  count = 4;
  stream = λ i. i;
  kind = kind_of;
  counted = λ w. refl;
  at = λ i w. refl;
  typed = λ i w. refl;
}

opened_too_self : (c : ℕ) (w : Fake) → (opened_too c w).opened c ≡ true
opened_too_self c w = ground arith

opened_too_keeps : (c d : ℕ) (w : Fake) → w.opened d ≡ true → (opened_too c w).opened d ≡ true
opened_too_keeps c d w h = elim (Bool-cases (d == c)) [ inl e ↦ rw e refl | inr e ↦ rw e h ]

-- No call fails here.
decoders : Decoders fake
decoders = record {
  is_open = λ c w. w.opened c;
  failed = λ w. 0;
  allocates = λ c w. refl;
  copies = λ c p w. refl;
  opens = λ c k w. refl;
  opened = λ c k w e. opened_too_self c w;
  allocates_only = λ c d w h. h;
  copies_only = λ c p d w h. h;
  opens_only = λ c k d w h. opened_too_keeps c d w h;
}

prepare_decoder-Selects_example : Selects fake decoders four_streams 4 almost_full (
    prepare_decoder fake 5
      (record (calloc_context fake (some (codes "in.mp4"))) { avfc = some 0 })
      almost_full)
unfolding four_streams
prepare_decoder-Selects_example =
    prepare_decoder-Selects fake decoders four_streams 5 (some (codes "in.mp4")) almost_full
      (omega arith)

write_room-written :
    (n : ℕ) (p : Packet) (w : Fake)
    → is_neg (write_room n p w).0 ≡ false
    → ((write_room n p w).1.output ≡ w.output ++ p ∷ [])
      × ((write_room n p w).1.refused ≡ w.refused)
write_room-written ℕ.zero p w e = absurd (cc e)
write_room-written (ℕ.suc n) p w e = (refl, refl)

write_room-refused :
    (n : ℕ) (p : Packet) (w : Fake)
    → is_neg (write_room n p w).0 ≡ true
    → ((write_room n p w).1.output ≡ w.output)
      × ((write_room n p w).1.refused ≡ w.refused ++ p ∷ [])
write_room-refused ℕ.zero p w e = (refl, refl)
write_room-refused (ℕ.suc n) p w e = absurd (cc e)

copying : Copying fake 0 1 1 0
copying = record {
  pending = λ w. w.queue;
  written = λ w. w.output;
  refused = λ w. w.refused;
  kind = λ p. kind_of p.stream_index;
  from_tb = ratio 1 90000;
  to_tb = ratio 1 90000;
  read_some = λ w old p ps e. rw e (refl, refl, refl, refl, refl);
  read_none = λ w old e. rw e (refl, refl, refl);
  typed = λ p w. refl;
  from_base = λ w. refl;
  to_base = λ w. refl;
  write_keeps = λ w p. (write_room-keeps w.room p w).0;
  write_ok = λ w p e. write_room-written w.room p w e;
  write_fails = λ w p e. write_room-refused w.room p w e;
}

-- Two audio packets with one of subtitles between them.
abbrev subtitled : List Packet
subtitled =
    record blank { stream_index = 1; content = 5 }
    ∷ record blank { stream_index = 3 }
    ∷ record blank { stream_index = 2; content = 6 }
    ∷ []

abbrev subtitled_input : Fake
subtitled_input = record {
  queue = subtitled;
  output = [];
  refused = [];
  live = 1;
  room = 9;
  opened = λ n. false;
}

abbrev audio_decoder : StreamingContext fake
audio_decoder = record decoder { audio_avs = some 1 }

abbrev audio_encoder : StreamingContext fake
audio_encoder = record encoder { audio_avs = some 0; audio_avcc = some 7 }

packet_loop-Copied_example : Copied fake copying (copies fake copying subtitled) subtitled_input (
    packet_loop fake 0
      (λ t p. handle_packet fake t main_params 9 9 audio_decoder audio_encoder p 0)
      4
      blank
      subtitled_input)
unfolding copying
packet_loop-Copied_example =
    packet_loop-Copied fake copying main_params 9 9 audio_decoder audio_encoder 0 refl refl refl
      refl subtitled 4 subtitled_input blank refl (tt, (tt, (tt, tt))) (omega arith)

audio_streams : AudioStreams fake audio_decoder audio_encoder
audio_streams = record {
  from = 1;
  to = 0;
  from_tb = ratio 1 90000;
  to_tb = ratio 1 90000;
  decodes = refl;
  encodes = refl;
  from_base = λ w. refl;
  to_base = λ w. refl;
}

encode_audio-Encoded_example :
    Encoded fake fifo
      (audio_packet fake audio_streams)
      two_packets
      almost_full
      (encode_audio fake 3 audio_decoder audio_encoder (some 0) almost_full)
unfolding fifo
encode_audio-Encoded_example =
    encode_audio-Encoded fake fifo audio_streams refl refl almost_full blank (some 0) two_packets
      refl refl refl 3 (omega arith)
