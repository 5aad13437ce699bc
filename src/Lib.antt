-- ===== src/Lib.antt =====
-- quicsy: a QUIC and HTTP/3 client and server for adaptive streaming of video, with a transcoder that
-- prepares the media and helpers that read the manifests. This library models the parts of the program
-- whose logic is its own, and proves what makes them correct.
--
-- The parts, and the files that model them:
--   * Util (src/util.cc, include/quicsy/util.h): the texts that client and server share. Util.Number has
--     `format_uint`, `parse_uint_internal` and `parse_uint`; Util.Units the texts with IEC units and
--     durations; Util.Hex `format_hex` and `decode_hex`; Util.Base64 `b64encode`; Util.CaseCmp `lowcase`,
--     `CaseCmp` and `istarts_with`; Util.Duration `format_durationf`; Util.Mime `read_mime_types`.
--   * Abr (src/abr/utils.c, src/abr/mpd_parse.c): Abr.Replace is `str_replace`, which writes a value into
--     a template, and Abr.Segments the end of `parse_mpd`, which names the segments of each level.
--   * Streaming (streaming/transcoder.c; streaming/tcp_streaming/transcoder.c is the same text):
--     Streaming.Setup opens the input and selects its streams, Streaming.Encoders sets up the output,
--     Streaming.Transcode is the path of packets and frames from the decoder through the encoder into
--     the file, and Streaming.Main is `main`, which composes them. Streaming.Context has the structures.
--     Streaming.Tcp is the file transfer of streaming/tcp_streaming (tcp_server.c, tcp_client.c).
--   * Server (src/quicsy_server.cc, include/quicsy/server.h): Server.Dyn answers a request for generated
--     bytes and keeps their flow within bounds, Server.TxData keeps crypto data until it is
--     acknowledged, Server.Cids finds the connection of a packet by its identifiers, Server.Token makes
--     and checks the tokens for address validation, and Server.Path goes from the target of a request to
--     a file. Server.Http has the reason phrases of src/http.cc. Server.Response is what
--     `Stream::start_response` does before its pushes, from the request to the file and the headers;
--     Server.Streams is the map `streams_` of a connection with all that opens, answers, pushes,
--     acknowledges and closes streams; Server.Conn is the life of `Handler`: the timers, errors, the
--     closing and the draining period, the loop that writes packets (Server.Conn.Write) and the callbacks
--     of the event loop (Server.Conn.Callbacks).
--   * Client (src/quicsy_client.cc, include/quicsy/client.h): Client.Write sends packets, and
--     Client.Events has the callbacks of the event loop and what they call; Client.Params writes and
--     reads the transport parameters kept for early data; Client.Uri parses the requests of the command
--     line, Client.Requests opens a stream for each, Client.Download names the file that a response
--     is written to, and Client.Received writes it and closes streams.
--
-- Prelude has what the parts share: Boolean tests, lists over the native numbers, byte strings, buffers,
-- association lists, integers. Each part has its runs at concrete inputs in a module Tests.
--
-- How the model corresponds to the code. A C or C++ function is the function of the same name; where
-- its body branches in several steps, each step is a helper of its own. `std::string` and a byte array
-- are lists of numbers below 256, `std::map` is an association list (Prelude.Assoc), an unsigned
-- integer of w bits is a natural number whose wrap-around is written out where it can happen, and a
-- result `int` is an integer. A structure is a record; what a function writes through a pointer is part
-- of its result. An assertion that fails, a null pointer that is followed and a division by zero are
-- results of their own.
--
-- libavformat and libavcodec are the record `AvLib` of Streaming.Av: the calls that the transcoder
-- makes, over a state that the model knows nothing of. A theorem about the transcoder names the
-- behaviour of these calls that it relies on (`FixedStreams`, `Decoders`, `FifoEncoder`,
-- `VideoStreams`), with a log of what failed, so that a result of -1 is tied to a call;
-- Streaming.Tests has a small library that behaves so. The connection of ngtcp2 is likewise a
-- parameter: the step relation of Server.Cids.Steps says which identifiers it issues and answers,
-- also for a handler that is dropped on its first packet; that of Server.Streams.Steps which
-- callbacks nghttp3 makes for a request; that of Server.Dyn.Flow which bytes it acknowledges.
-- Server.Token takes encryption and the resolver, Server.Path the URL parser and `realpath`, and
-- Streaming.Tcp the system calls as parameters (`TokenCrypto`, `Os`), with their laws as hypotheses
-- (`IsAead`, `Pipe`). Server.Response keeps the calls of the system and of nghttp3 in a log, and what
-- they answer (`Outside`) may depend on the whole of it. A connection of the server or the client
-- stands on `Quic`, the calls of ngtcp2 and nghttp3 over an unknown state; what a theorem relies on
-- is `Closes` (which call begins the closing period, and that its packet fits `sendbuf_`), `Writes`
-- (what a call that writes a packet changes, and that its path carries an endpoint), `Logged` (a log
-- of the packets it wrote) or `Finite` (each write takes something of what there is to write). What
-- the server sends is the log of the calls of `sendmsg`, whether they succeed or not, and what the
-- client sends are the datagrams that `sendto` took. Client.Requests has the calls that open streams
-- as `Http`.
--
-- Loops are structural recursion where the code runs over a list or a string. The loops of `format_uint`
-- take their operand for fuel, which is enough since each round divides it by ten; `count_loop`,
-- `push_loop` and `extension_loop` take the length of their text. The loops of the transcoder and of the
-- file transfer, whose end depends on other code, take fuel as an argument, and running out of it is a
-- result: the theorems say which fuel is enough. `start_response` calls itself through the pushes; its fuel
-- is the depth of the calls, and two are enough. The loop of `write_streams` goes on as long as ngtcp2 has
-- something to write: the fuel of `write_loop` is an argument, and more than there is to write (`Finite`)
-- is enough.
--
-- Not modelled: the set-up of TLS contexts, sockets and connections of server and client, the callbacks
-- that only pass their arguments on, key updates and the change of the client's address, the simulated
-- loss of packets, the walk of `parse_mpd` over the tree of libxml2, the player window, debug output and
-- key logs, the options of the command line, the encoding scripts, and the copy of http-parser, which is
-- another project's. The rate adaptation of src/abr/adaptation.c has empty functions. Buffers are
-- measured, never shared: no theorem here depends on aliasing.
pub mod Prelude
pub mod Util
pub mod Abr
pub mod Streaming
pub mod Server
pub mod Client
