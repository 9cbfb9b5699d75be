-- ===== src/Lib.antt =====
-- A model of the Rust code of Wolf Engine: LZ4 compression, the Raft service over gRPC, the network
-- streams (TCP, websocket, UDP, TLS, RIST), the game time, the graphics device with the demo's event
-- loop, the queries of the operating system, and the build script.
--
-- The parts and where they are modelled:
--   * Lz4: wolf/src/system/compression/lz4.rs. `compress` and `de_compress` are the functions of
--     those names. The C library is the record `Native`; what LZ4 documents of it is
--     `Lz4/Laws`. The loop of ten doublings is `grow`, on the turns left; it runs in both build
--     profiles, with overflow checked (a panic) and unchecked (a wrap at 2 ^ 32).
--   * Grpc: wolf/src/stream/http/grpc.rs. `create_channel`, `create_tls_endpoint`,
--     `create_tls_channel` and `run_server`, over tonic and the file system as parameters.
--   * Raft: wolf/src/system/algorithm/raft. Raft/Messages has the messages of wolf/proto/raft.proto,
--     Raft/Converter is raft_converter.rs, Raft/Service the handlers of raft_srv.rs, Raft/Router the
--     `RaftRouter` of raft_imp.rs. Raft/Cluster joins the router of one node to the services of the
--     others over a network that delivers every call, so that its theorems go from a call of the
--     router through both conversions to the other node and back. The node of async_raft is the
--     parameter `Node`. `BASE_PORT + id` wraps at 2 ^ 64, as it does where overflow is not checked;
--     the panic where it is checked is left out.
--   * Stream: wolf/src/stream/common: the buffer, the timeouts, and the application's callbacks as
--     the parameter `App` over a state. `run` iterates a handler's loop over a list of turns; a turn
--     is what the world does in one round (what arrives, the time, how far a write gets). A list of
--     any length is a run of any length, so no fuel is chosen. Of a stream, what arrives in a turn is
--     what one read takes, at most 1024 bytes; the rest is in the next turn that reads. Stream/Buffers has the invariant of
--     the buffer, Stream/Loops the rule of invariants of a run.
--   * Tcp/Native, Tcp/WebSocket and Tcp/Server: wolf/src/stream/tcp/tcp_server.rs, in the order
--     `handle_tcp_connection`, `handle_ws_text_msg` with `handle_ws_connection`, and
--     `accept_connection` with `server_main_loop` and `server`. The channel of the shutdown signal
--     is a queue in the state of the loop. Tcp/Server/Tasks has the tasks that the loop spawns, with
--     their TLS handshakes, in any order over the state that the callbacks share.
--   * Tcp/Tls: wolf/src/stream/common/tls.rs. Tcp/Fiber: the connections of
--     wolf/src/stream/tcp/tcp_server_fiber.rs; Tcp/Fiber/Workers: its `server_main_loop` and `server`,
--     whose workers take turns in any order over one channel. Tcp/Client:
--     wolf/src/stream/tcp/tcp_client.rs.
--   * Rist: wolf/src/stream/rist.rs, with the functions of wolf/sys/stream/rist.cpp and
--     rist_data_block.cpp that it calls. Rist/Store is the C heap and the wrappers in scope, and
--     Rist/Store/Owners and Rist/Store/Sound the invariant of who owns what; Rist/Blocks is
--     `rist_data_block` and Rist/Context is `rist`. A program is a list of operations; `none` is
--     undefined behaviour.
--   * Udp: wolf/src/stream/udp.rs, both loops and `connect`.
--   * GameTime: wolf/src/system/chrono/gametime.rs. The arithmetic of f64 and the clock are the
--     parameter `Clock`; counters are u32 in both profiles of overflow. The `while` of a fixed-step
--     tick runs on fuel, and one turn more than the frames that are due is enough.
--   * Render: wolf/src/render/graphics_device.rs and scene.rs, over wgpu as the parameter `Gpu`.
--     Render/Demo: `run` and `WScene` of wolf-demo/src/main.rs; its loop is a `run` of Stream over
--     the events of winit, and each drawing ticks the time of GameTime.
--   * System: Processes is wolf/src/system/os/system.rs, Screens is screen.rs, and Scripts has
--     wolf/src/system/script and `timeout` of wolf/src/system/chrono/time.rs. In
--     Processes/Orders the table of processes is a quotient that forgets the order of a `HashMap`.
--   * Build: wolf/build.rs. Native has `build_protos`, `cmake` and `bindgens`, Link has `link`, the
--     copies and `main`; a run is the list of what it did, and whether it panicked.
--   * Ffmpeg: wolf/src/media/ffmpeg.rs, with wolf/sys/media/ffmpeg.cpp and conversion.cpp that it
--     calls, over the heap of Rist/Store. Cleanup is `cleanup` with the groups that it frees by,
--     Init, Encode and Decode the functions of those names, Calls the Rust functions, Program the
--     programs that call them. The library is what it answers at each call. The loop of
--     `w_ffmpeg_decode` runs on fuel; `looping` is a loop that is out of it; each turn that
--     takes a byte or more leaves fewer of them. What a failed conversion prints has the caller's
--     buffer as its format, which `Errors` says whether it is safe.
-- Base holds the shared names, the Boolean tests, lists over the native numbers, integers and
-- results. The modules called Examples, with Stream/Demo, evaluate the theorems on concrete inputs.
--
-- An error is a constructor or the text that the code formats; the trace texts that only name the
-- function are left out (but not of FFmpeg's errors, whose length counts), and so is logging.
-- Seconds are abstract, since the code hands them on or compares a timeout with 0; a timeout is
-- that comparison, and one above 0 is taken to be one that a `Duration` holds, since
-- `Duration::from_secs_f64` panics on any other. A panic and a write outside of memory are phases
-- of a loop. Callbacks change a state of the application and the message buffer, whose array they
-- cannot resize.
--
-- Not modelled: the wrappers that are one call of a library (runtime, signal slots, ViGEm); LZMA,
-- which is the declaration of a C++ bridge; generated bindings, and the C and C++ code behind them
-- but for that of RIST's handles and of FFmpeg's calls, which are parameters where the modelled
-- code calls them.
pub mod Base
pub mod Lz4
pub mod Grpc
pub mod Raft
pub mod Stream
pub mod Tcp
pub mod Udp
pub mod Rist
pub mod GameTime
pub mod Render
pub mod System
pub mod Build
pub mod Ffmpeg
