-- ===== src/Lib.antt =====
-- RoboVR: a host bridge and a Quest client that stream stereo video to a headset and poses back.
--
-- The host (host_bridge/) runs a TCP server with one client. The client (quest_client/app/src/main/cpp/)
-- connects to it, receives video packets, hands them to decoders that publish frames to the renderer, and
-- sends poses, heartbeats and acknowledgements of the frames that were published. The host paces its
-- video by these acknowledgements. Both share the wire format of proto/quest3_teleop_protocol.h.
--
-- Base holds what all parts share: Boolean tests on the native numbers, lists measured by them, integers
-- over them, association lists for `std::unordered_map`, and strings as lists of bytes.
--
-- Protocol is proto/quest3_teleop_protocol.h. Protocol.Types has the two headers, `pack_header` and its
-- kin for `packHeader` and its kin; `memcpy` of a packed struct is the fields in little-endian order.
-- Protocol.KeyValue has `findKeyValue` and the host's `parseKeyValuePayload` and `getValue`.
--
-- Socket is `readExact` and `writeExact` of quest_client/app/src/main/cpp/transport.cpp, which
-- host_bridge/src/tcp_server.cpp repeats, over `recv` and `send` as a parameter, the record `Socket` of
-- Socket.Api, whose laws are those of a connected stream socket. Link is `sendPacket` and the reception
-- of a packet, which the server and the client share but for the limit on payloads.
--
-- Server is `TcpServer` of host_bridge/src/tcp_server.cpp: the record `Server` has the fields of the
-- class and the descriptors closed so far. Its threads are modelled call by call: what other threads
-- have made of `running_` is an argument of the loop, and the callback may change the server.
--
-- Video is quest_client/app/src/main/cpp/video_decoder.cpp with the globals that it writes in
-- openxr_app.cpp. Video.Raw and Video.Color are the raw frames and the colour conversion; Video.Decoder is
-- `H264AnnexBDecoder`, with one function for each part of `decode`; Video.Router is
-- `VideoDecoderRouter::handlePayload`. MediaCodec is not part of the program: what its calls answer is an
-- argument, and the access units that the codecs got are recorded. Floating point is a parameter.
--
-- Host is host_bridge/tools/host_bridge_demo.cpp: the payloads that it makes, `loadH264TestStream` in
-- Host.AccessUnits, the packet callback with `formatPoseSummary`, `handleStatsPayload`, and a round of the
-- video thread. Client is quest_client/app/src/main/cpp/native_main.cpp: the texts that it sends, the mailbox
-- of the latest pose, the handling of video payloads, the acknowledgements, `receiveHostPackets`, and
-- `transportLoop` with `connectTcp` of transport.cpp. What `snprintf` prints for a number is a parameter.
--
-- Session is `pollEvents` and the loop of `run` in openxr_app.cpp. Renderer is what a frame does there:
-- `renderFrame` and the pose that it publishes, `renderView` with the upload of a video frame, and the
-- choice of the refresh rate. It has `createSwapchains` and `createCodecSurfaceResources` too, with the
-- parts of `cleanup` that undo them. A texture is the image last put into it. EndToEnd puts both programs
-- together, from the callback that answers a pose to the frame that the client publishes. Tests applies
-- the theorems and runs the models at concrete inputs.
--
-- Counters wrap at their width. The loops on a socket take fuel, one unit for each byte and each
-- interruption, which is enough since a successful call moves at least one byte; the loops over a text
-- take its length and one more, since each round but the last consumes a byte.
--
-- The search for start codes takes a round for each byte, and the loop over NAL units one more than that,
-- since each moves at least three bytes on. `drainOutput` is at most four rounds, as in the source.
--
-- Not modelled: the chains of calls that set up OpenXR, EGL and the shaders, and those that release them;
-- the drawing calls; the activity glue and the command line; what is only logged or printed.
-- `decode` takes the frames of `drainOutput` as an input: that path runs only without codec surfaces, and
-- then H.264 is refused. The Python tools stand beside the two programs.
pub mod Base
pub mod Protocol
pub mod Socket
pub mod Link
pub mod Server
pub mod Video
pub mod Host
pub mod Client
pub mod Session
mod Tests
pub mod Renderer
pub mod EndToEnd
