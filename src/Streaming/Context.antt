-- ===== src/Streaming/Context.antt =====
-- `StreamingParams` and `StreamingContext`. A null pointer is `none`.
use quicsy.Prelude.{ℕ, Bool, Option, none, Bytes}
use quicsy.Streaming.Av.{AvLib}

pub record StreamingParams : Type 0 where
  pub copy_video : Bool
  pub copy_audio : Bool
  pub output_extension : Option Bytes
  pub muxer_opt_key : Option Bytes
  pub muxer_opt_value : Option Bytes
  pub video_codec : Bytes
  pub audio_codec : Bytes
  pub codec_priv_key : Option Bytes
  pub codec_priv_value : Option Bytes

module _ (av : AvLib) where
  open av use {Format, Codec, Stream, Context}

  pub record StreamingContext : Type 0 where
    pub avfc : Option Format
    pub video_avc : Option Codec
    pub audio_avc : Option Codec
    pub video_avs : Option Stream
    pub audio_avs : Option Stream
    pub video_avcc : Option Context
    pub audio_avcc : Option Context
    pub video_index : ℕ
    pub audio_index : ℕ
    pub filename : Option Bytes

  -- `calloc(1, sizeof(StreamingContext))`, with its file name, which may be null.
  abbrev pub calloc_context : Option Bytes → StreamingContext
  calloc_context name = record {
    avfc = none;
    video_avc = none;
    audio_avc = none;
    video_avs = none;
    audio_avs = none;
    video_avcc = none;
    audio_avcc = none;
    video_index = 0;
    audio_index = 0;
    filename = name;
  }
