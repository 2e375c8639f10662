-- ===== src/Lib.antt =====
-- The daemon's control path and its lock-free audio plumbing.
--
-- The program is a daemon that spatialises 7.1 audio, and a GUI that controls it over a Unix socket.
-- A client encodes a request (common/src/protocol.cpp); the daemon's `ControlServer` collects bytes
-- until a whole message is there, decodes it, and hands the command to `AudioEngine`, which changes its
-- state, calls the DSP stages, saves the settings, and answers with an encoded response. The audio
-- thread renders through crossfading slots, which the control threads publish into, and a ring buffer
-- passes its samples on to the hardware output.
--
-- Files:
-- Base, Base/*: Boolean tests on the native numbers, and lists measured by them.
-- Protocol/Types, Protocol/Bytes: the structures of common/include/ramkolfx/protocol.hpp and their
-- bytes. A float is its 32-bit pattern, a string the list of its bytes, and a pointer into a message
-- the list of the bytes from there on, with the payload's length apart, as in the code.
-- Protocol/Requests, Decode, Responses, Replies: the encoders and decoders of common/src/protocol.cpp,
-- each under its own name in snake case; Protocol/Request is one type for all requests.
-- Protocol/PlainRequests, AppRequests, *RoundTrip, ReadBounds, Accepts, Framing: their proofs.
-- Protocol/SocketPath: `DefaultControlSocketPath` of the same file.
-- Server: `ControlServer::HandleClient` of daemon/src/control/control_server.cpp for one client, over
-- the chunks that `recv` returns. The inner loop is on fuel: the buffer's length, which is enough since
-- a message takes three bytes at least. Server/Loop and Server/Streams are its proofs.
-- Engine: `HandleControlCommand`, `PersistCurrentSettings` and `RebuildHrtfCatalog` of
-- daemon/src/audio_engine.cpp, and `HardwareOutput::SetTargetNode`. Calls that leave the modelled code
-- are entries of a log. Engine/Sync, Told, Answer and Catalog are its proofs.
-- Layout, Floats: `SpeakerLayout` of daemon/src/dsp/speaker_layout.cpp, with `std::clamp` on patterns.
-- Devices: `DeviceRegistry` of daemon/src/device_registry.cpp, and the choice of the output device.
-- Ring: `RingBuffer` of common/include/ramkolfx/ring_buffer.hpp; Ring/Threads has its two threads
-- interleaved between the loads and stores that the other thread sees.
-- Slot: `CrossfadingSlot` of daemon/src/dsp/crossfading_slot.hpp.
-- Client: `ControlClient` of gui/src/control_client.cpp over one socket; Client/Receive, Answered and
-- Daemon are its proofs. `RecvExact` is on fuel: the bytes asked for, since each call gives one at least
-- or ends the loop.
-- Settings: `SettingsStore` of daemon/src/settings_store.cpp, the file as its bytes. Reading and printing
-- a float and reading an integer are the parameter `Numbers`. Settings/Keys, Lines, Fields, RoundTrip and
-- Saved are its proofs.
-- Startup: `AudioEngine::Run` from the loaded settings on, and the HRTF sources it finds in
-- Startup/Sources. Startup/Invariant, FirstSource, FirstRun and Choice are its proofs.
-- Mixer: the audio callbacks of daemon/src/audio_engine.cpp over any type of samples, each run whole;
-- Mixer/Frames and Stereo are its proofs.
-- Convolver: daemon/src/dsp/partitioned_convolver.cpp, KissFFT being a parameter. Its
-- loop is on fuel: the frames and one more, since each turn takes one frame at least. Convolver/Blocks,
-- Reference and Lost are its proofs.
-- Deck: daemon/src/dsp/hrtf_deck.cpp and the near-field toggle of daemon/src/dsp/binaural_stage.cpp;
-- Deck/Toggle and Stale are its proofs.
-- Biquad, Filters: biquad, graphic_eq_filter, bass_enhancer_filter and passthrough_stage of
-- daemon/src/dsp over a record of float operations; Filters/Blocks and Cascade are their proofs.
-- Stages: daemon/src/dsp/hw_eq_stage.cpp and bass_enhancer_stage.cpp, the filters behind a crossfading slot
-- with the samples it mixes; Stages/Handover is their proof.
-- Tests/*: each theorem at a concrete input.
--
-- Not modelled: the signal processing of the spatial stages (binaural, ambisonics, near field,
-- synthetic HRTF), which is floating-point arithmetic throughout; PipeWire, libmysofa, KissFFT,
-- sockets, files and threads, whose results are arguments where the modelled code uses them; the
-- instance lock and `Teardown`; the drawing and windows of the GUI. A command of the engine runs
-- whole: its mutexes and relaxed atomics are not modelled. So does an audio callback: one that runs
-- during another is not modelled, and can find half a stereo frame in the ring. The ring buffer's
-- atomics are sequentially consistent in Ring/Threads.
pub mod Base
pub mod Protocol
pub mod Server
pub mod Floats
pub mod Layout
pub mod Ring
pub mod Engine
pub mod Slot
pub mod Devices
pub mod Tests
pub mod Client
pub mod Settings
pub mod Startup
pub mod Mixer
pub mod Biquad
pub mod Stages
pub mod Filters
pub mod Convolver
pub mod Deck
