-- ===== src/Lib.antt =====
-- A client library for cameras that speak PTP over TCP/IP, written in Rust. It sends commands as
-- packets over a TCP stream, waits for the packets that answer them, and parses the answers. This
-- library models the parts that carry the protocol, and proves what they do.
--
-- The parts, from the bottom up, with the files that model them:
--   src/error.rs      Error.antt: the error type, its text and its conversions.
--   src/types.rs      Types.antt: configuration, operation codes, packets and descriptions.
--   src/utils.rs      Utils.antt: numbers in big-endian order, checksum, hex dump, chunks.
--   src/transport.rs  Transport/Header.antt: `PtpIpHeader`; Transport/Send.antt: `send_packet` and
--                     `send_packet_with_retry`; Transport/Receive.antt: `recv_packet` and
--                     `recv_packet_filtered`; Transport/Strings.antt and Transport/Infos.antt:
--                     `extract_string`, `parse_device_info` and `parse_storage_info`.
--   src/commands.rs   Commands/Request.antt: `send_command`; Commands/Response.antt: `get_response`
--                     and `receive_data_block`; Commands/Parsing.antt: handles, objects, events;
--                     Commands/Listener.antt: the thread that waits for events;
--                     Commands/Client.antt: `CameraClient`; Commands/Download.antt:
--                     `get_partial_object` and `download_with_retry`; Commands/Resume.antt:
--                     `check_resume_state` and the paths of a download; Commands/Transfer.antt:
--                     `download_object_with_resume` and `download_photo`. The whole of
--                     `CameraClient::connect` is in Commands/Client/Dialing.antt.
--   src/discovery.rs  Discovery/Answers.antt: the request and `parse_discovery_response`;
--                     Discovery.antt: `discover_cameras`.
--   src/session.rs    Session.antt: `Session`, its heartbeat and its queries; Session/Handshake.antt:
--                     opening and closing; Session/Parsing.antt: its own parser of storages;
--                     Session/Dialing.antt: the whole of `Session::connect`.
-- The functions for C callers, of src/utils.rs, src/discovery.rs and src/session.rs, are in Foreign:
-- Foreign/Strings.antt, Foreign/Cameras.antt and Foreign/Sessions.antt.
-- A function has the name that it has in the source, but the two functions `connect` are called
-- `connect_to` where they open the connection, and `connect` from the open stream on. The files below
-- a part have the theorems on it.
--
-- The connection is a state, `Wire` of Net.antt: what the peer and the network do next, the bytes
-- that were written, the outcomes of the coming writes, a clock in milliseconds and the number of
-- random draws. A call that may fail is a function of that state to a result and a state (`Net`), so
-- an error keeps what was done before it; a method of `Session` has the session as a further state.
-- A result is a value, an error, or `stuck`, which stands for a loop that ran out of fuel. What reads
-- a buffer is a `Reader` of Io.antt, a function from the bytes that are left.
--
-- How a connection opens is a parameter, `Tcp` of Net/Dialing.antt: which stream an address gives, if
-- it gives one, and which options are accepted. Its only law is that a read timeout of zero is
-- refused, as the standard library documents. `connect` leaves a client and a listener for events on
-- the same socket (`Connected`): a turn of the listener is a step on the `Wire` that the client reads
-- from, and the turns come before the client's call or behind it.
--
-- The memory of C callers is `Memory` of Foreign/Memory.antt: cells by their addresses, each a string,
-- an array of cameras or a session with its stream, the next free address, and how the coming calls of
-- `calloc` go. What is undefined behaviour, such as the use of a pointer after it was freed, gives no
-- result, so a call that is defined uses no cell that was freed, and frees none twice. Addresses are
-- not used again, and an output that the function has not written is empty. No
-- two calls run at once, so the lock around a session has no effect.
--
-- Downloads that are tried again are runs of a store with two states, in
-- Commands/Transfer/Attempts.antt: the object is absent, or it is stored. Between two attempts all but
-- the files may change.
--
-- A download works on a `World` of Commands/World.antt: the connection, the files, the statistics and
-- the calls of the progress callback. Files.antt has the files as a function from paths to contents,
-- with an outcome for each coming call: it succeeds, or it fails with an error, a write after some
-- bytes; `exists` says no where it fails. A path is what `set_file_name` keeps of it and the name of
-- the file. The positions at which progress is reported are computed in `f32`, and that computation
-- is a parameter. The target, the temporary file and the resume file are sound where a resume record
-- that fits the temporary file makes that a front of the object, and where a target of the object's
-- size is the object, with no temporary file beside it. The theorems on downloads are about a name
-- that is valid UTF-8, and one program that works on the three files. Those on soundness ask that the
-- first call, whether the target exists, does not fail, and that the camera is honest in the requests
-- that the download makes (`IsHonest` of Commands/Transfer/Safety.antt);
-- Commands/Transfer/Honest.antt shows that a camera that serves a first download is honest to it.
--
-- The UDP socket of a search is `Air` of Discovery/Socket.antt: datagrams and errors in the order in
-- which `recv_from` meets them, the outcomes of the other calls, what was sent, and a clock in
-- nanoseconds. Behind the last datagram the read timeout runs out.
--
-- Numbers are natural numbers, and where the source computes in a machine width, the wrap-around is
-- written out. Strings are their bytes in UTF-8, and Utf8.antt decides which bytes are valid.
-- The crates `byteorder` and `rand` are parameters, records of External.antt: the first with the
-- documented order of bytes, the second as a sequence of 32-bit numbers.
--
-- Str.antt has `trim` and `parse` of `std::str`, Utf8.antt also the lossy decoding.
--
-- What arrives on a connection is a finite list, with the end of the stream behind it. Loops over
-- packets run on fuel, one more than the length of that list. Every packet that is taken uses up
-- input, so the fuel is never used up. The loops of `get_response` and `receive_data_block` have no
-- time limit of their own: over a connection on which packets come for ever they do not end, and such
-- runs are not modelled. Commands/Response/Foreign.antt shows how the wait grows with the packets.
-- Loops over retries have a round for each attempt that `max_retries` allows. The loop over
-- parameters takes four bytes in a round, and has a round for each byte. The loop over the chunks of
-- an object has a round for each byte and one more: a chunk has a byte at least, unless the chunk
-- size is 0. The loop over datagrams has a round for each of them and one more for the timeout.
--
-- Not modelled: connections on which bytes arrive for ever, listener turns in the middle of a
-- client's call, logging and the time stamps in log lines, the accessor of the event channel, calls
-- from several threads of a C program at once, and other programs that change the files of a
-- download.
pub mod Base
pub mod Io
pub mod External
pub mod Error
pub mod Utils
pub mod Utf8
pub mod Str
pub mod Files
pub mod Types
pub mod Net
pub mod Transport
pub mod Commands
pub mod Session
pub mod Discovery
pub mod Foreign
pub mod Examples
