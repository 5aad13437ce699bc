-- ===== src/Streaming/Av.antt =====
-- libavformat and libavcodec, of which the source holds no code: the calls that the transcoder makes,
-- over a state of their own that the model knows nothing of.
use quicsy.Prelude.{ℕ, Bool, List, Option, Bytes}
use quicsy.Prelude.Int.{ℤ}

-- AVRational of a time base, a frame rate or an aspect ratio, which are not negative.
pub record Rational : Type 0 where
  pub num : ℕ
  pub den : ℕ

-- The fields of an AVPacket that the program or the time stamps touch; `content` is the rest.
pub record Packet : Type 0 where
  pub stream_index : ℕ
  pub duration : ℕ
  pub pts : ℕ
  pub dts : ℕ
  pub content : ℕ

pub data MediaType : Type 0 where
  video audio other : MediaType

-- One assignment to a field of an AVCodecContext, `av_opt_set` included.
pub data Setting : Type 0 where
  option : Bytes → Bytes → Setting
  height width pix_fmt bit_rate rc_buffer_size rc_max_rate rc_min_rate : ℕ → Setting
  channels channel_layout sample_rate sample_fmt compliance : ℕ → Setting
  sample_aspect_ratio time_base : Rational → Setting

pub record AvLib : Type 1 where
  pub World : Type 0
  pub Format : Type 0
  pub Codec : Type 0
  pub Context : Type 0
  pub Stream : Type 0
  pub Params : Type 0
  pub Frame : Type 0
  -- AVERROR(EAGAIN) and AVERROR_EOF.
  pub again : ℤ
  pub eof : ℤ
  -- Opening the input.
  pub alloc_format : World → Option Format × World
  pub open_input : Format → Bytes → World → ℤ × World
  pub find_stream_info : Format → World → ℤ × World
  pub nb_streams : Format → World → ℕ
  pub stream_at : Format → ℕ → World → Stream
  pub codec_type : Stream → World → MediaType
  pub codecpar : Stream → World → Params
  pub find_decoder : Params → World → Option Codec
  pub alloc_context : Codec → World → Option Context × World
  pub parameters_to_context : Context → Params → World → ℤ × World
  pub open_codec : Context → Codec → World → ℤ × World
  -- The output and its encoders.
  pub alloc_output : Option Bytes → World → Option Format × World
  pub new_stream : Format → World → Option Stream × World
  pub find_encoder_by_name : Bytes → World → Option Codec
  pub configure : Context → Setting → World → World
  pub picture_height : Context → World → ℕ
  pub picture_width : Context → World → ℕ
  pub picture_aspect : Context → World → Rational
  pub picture_format : Context → World → ℕ
  pub audio_rate : Context → World → ℕ
  pub pix_fmts : Codec → World → Option ℕ
  pub sample_fmts : Codec → World → Option ℕ
  pub default_channel_layout : ℕ → ℕ
  pub experimental : ℕ
  pub parameters_from_context : Stream → Context → World → World
  pub parameters_copy : Stream → Params → World → World
  pub stream_time_base : Stream → World → Rational
  pub set_stream_time_base : Stream → Rational → World → World
  pub avg_frame_rate : Stream → World → Rational
  pub guess_frame_rate : Format → Stream → World → Rational
  -- Packets and frames.
  pub packet_alloc : World → Option Packet × World
  pub packet_unref : Packet → World → World
  pub packet_free : Packet → World → World
  pub frame_unref : Frame → World → World
  pub clear_pict_type : Frame → Frame
  pub rescale_ts : Packet → Rational → Rational → Packet
  pub send_frame : Context → Option Frame → World → ℤ × World
  pub receive_packet : Context → Packet → World → (ℤ × Packet) × World
  pub send_packet : Context → Packet → World → ℤ × World
  pub receive_frame : Context → Frame → World → (ℤ × Frame) × World
  pub interleaved_write_frame : Format → Packet → World → ℤ × World
  -- The rest of `main`: AVFMT_GLOBALHEADER and AVFMT_NOFILE of the output format, and the calls.
  pub wants_global_header : Format → World → Bool
  pub set_global_header : Format → World → World
  pub without_file : Format → World → Bool
  pub avio_open : Format → Option Bytes → World → ℤ × World
  pub write_header : Format → List (Bytes × Bytes) → World → ℤ × World
  pub frame_alloc : World → Option Frame × World
  pub read_frame : Format → Packet → World → (ℤ × Packet) × World
  pub write_trailer : Format → World → World
  pub frame_free : Frame → World → World
  pub close_input : Format → World → World
  pub free_format : Format → World → World
  pub free_context : Context → World → World
