-- ===== src/Lib.antt =====
-- LocalSend Handheld: a peer for the LocalSend file transfer protocol on handheld consoles. This library
-- models the core that all its front ends share, src/core and include/localsend.
--
-- The parts and how they interact. `AppService` (src/core/app_service.cpp) owns the settings, a
-- store of known peers, a store of transfers, the HTTP server and two background threads: one scans
-- for peers and feeds the device store, one sends files. The server (src/core/http.cpp) answers
-- peers: it tells who this device is, registers peers through a callback of the service, opens
-- upload sessions, receives their files into the inbox under names that src/core/safe_path.cpp
-- makes safe, and reports to the transfer store. The user interface reads both stores and shows
-- them (device_selection.cpp, status_format.cpp).
--
-- The files:
--   Prelude          byte strings, lists, `std::map`, integers, decimal and hexadecimal text, results,
--                    `std::filesystem::path`
--   Transfer         src/core/transfer.cpp: `TransferStore`, each method a function from store to store
--   DeviceStore      src/core/device_store.cpp: `DeviceStore` under its keys, and its sorted snapshot
--   DeviceSelection  src/core/device_selection.cpp: the choice of a peer from a snapshot
--   Json             src/core/json.cpp: values; strings (Escape), the parser (Parser), `dump` (Dump), and the proofs:
--                    reading back what was written (Digits, Exact, RoundTrip, Whole, Members), and the fuel
--                    of the parser (Left, Total)
--   Protocol         src/core/protocol.cpp: the data of the protocol and the words of its enumerations, the JSON
--                    forms (Dto), and messages from one peer to another (DtoRoundTrip, Request, Sent)
--   Discovery        src/core/discovery.cpp: announcements and scans
--   SafePath         src/core/safe_path.cpp: `sanitize_filename` and `unique_destination_path`
--   Security         src/core/security.cpp: `base64_decode` (Base64), `sha256_hex` (Sha256), the certificate in a PEM
--                    text and its fingerprint (Pem), and the identity of this device (Identity); the proofs are a
--                    reference decoder (Base64/Reference), text that was encoded (Base64/Encoded, Pem/Certificate),
--                    padding and digits (Sha256/Padded, Sha256/Hex), and the files of an identity (Identity/Kept)
--   FileBrowser      src/core/file_browser.cpp: listings, the choice of a file, `prepare_outbox`; the proofs are
--                    the order of a listing (Listed) and the choice (Chosen)
--   StatusFormat     src/core/status_format.cpp: percentages and summaries
--   Http/Url         src/core/http.cpp: percent decoding, queries, request targets
--   Http/Stream      src/core/http.cpp: a connection as segments, bodies of known length
--   Http/Chunked     src/core/http.cpp: chunked bodies, and the chunks that the client writes; the proof that
--                    the server receives those: sizes (Size), lines (Lines), bodies (RoundTrip)
--   Http/Headers     src/core/http.cpp: the first line and the headers of a request (Request) and of an answer
--                    (Response), parsed as they arrive; the proofs that each side reads what the other writes: lines
--                    (Lines, AnswerLines, Blank), a request (RoundTrip, Received), an answer (Answered)
--   Http/Server      src/core/http.cpp: `LocalSendServer`; its children are `handle_upload` (Upload),
--                    `route` and `handle_client` (Route), and the proofs: destinations (Confined), where a
--                    run writes (Inbox), which uploads are let through (Permitted), the life of a
--                    session (Sessions, Changes, Cancelled), what an upload stores (Written, Stored);
--                    connections that overlap (Overlapping), and what they may change (Kept, Revived)
--   Http/Client      src/core/http.cpp: the choice of transport and API, `send_files_http_detailed` (Offers, Send),
--                    `connect_http_stream` (Connect), `post_file_raw` (Post), and the proofs: the transfers of a send
--                    (Settled, Ended), its success (Success), the transport (Target), and what an upload
--                    writes (Post/Rounds, Post/Posted)
--   Http/Connection  src/core/http.cpp: `handle_client` from the bytes on, with the readers of JSON; a client's request
--                    from its data to the server (Offered), and a file from peer to peer (Uploaded)
--   Config           src/core/config.cpp: the settings and their defaults, and their file (Stored, Kept)
--   AppService       src/core/app_service.cpp: the operations of the service; peers entered by hand (Peers), the
--                    sends (Sending), and the proofs on each (Manual, Removal, Send) and on scans (Discover)
--   Examples         runs at concrete inputs
--
-- State and operations. A class is a record of its members, a method a function that takes the
-- state and returns the new one with its answer. A lock makes a method one step. The server's state
-- also holds the files of the file system, by path: existence, creation, emptying, writing and
-- removal act on it. The definitions keep the names of the source; `is_https` is the member
-- `https`, since that word is also a value of `ProtocolType`.
--
-- Bounds and fuel. Numbers are natural numbers; the 64-bit wraps of transfer ids and of the
-- percentage are written out. Byte counts of bodies are not wrapped, since they count bytes that
-- are in memory or in the file system. The loops that read a body have the wanted length as fuel: a
-- round that succeeds reads a byte at least. The loop that erases `..` has the length of the name,
-- each round takes two bytes. The loops of a chunked body have the number of all bytes that are
-- there, each round takes the two bytes of a line's end. The loop that receives headers has one
-- more than its limit of one MiB: a round adds a byte at least. The loop that sends a file has one
-- more than its size: each round but the last takes a byte at least. The parser of JSON has three
-- times the length of its text, and one: of three calls of its functions one at least takes a byte.
-- The zeros of a padded message are 63 at most, and each block takes 64 bytes. The size of a file
-- is shown for sizes below 2 ^ 53, where a `double` is exact. Sizes go through the signed 64-bit
-- integers of JSON, ports through those of 32 bits, with their wraps written out.
--
-- Arguments of the model, from outside the repository or from its parts that are left out: sockets
-- and TLS (the peer's address, its proved fingerprint and the segments of its bytes), the clock,
-- `random_hex`, whether a file opens and takes what is written, the readers of request bodies and
-- the parsed headers in the model of the server alone (Http/Connection fills them in), the TLS
-- identity and the port that listening gives, for the client the outcome of connecting and of the
-- handshake; for JSON, `double` with `std::stod` and its printing (record `Numbers`); for the
-- client, the answer to each call, the progress of each upload, each test of the flag that cancels
-- and the success of each write; for a scan, what each round receives; for an identity, what the
-- calls of mbedTLS return, which files open, which file a path names and how much of a text it
-- takes; for a listing, the items of the directory and
-- `std::sort`; for uploads that overlap, what the file system leaves at the path of a file that
-- several streams have open.
--
-- Not modelled: what a result of `request_raw` holds when its answer could not be read; how
-- `send_files_http_detailed` uses `post_file_raw`, since the outcome of each upload, an exception
-- included, is an argument there; the messages of `report_status`; the sockets of discovery.cpp;
-- the identity that is built in on the PS Vita and the contexts of mbedTLS that `cleanup` frees
-- (security.cpp); a test for the existence of a path that throws; the failure to start a thread on
-- the PSV; TLS (tls.cpp), which only calls mbedTLS; the user interfaces (app, platform). The PSV build answers connections one
-- after the other, the other builds start a thread for each: then uploads overlap while their
-- bodies arrive, with each other and with whole other requests, which are one step each in the
-- model. A chunk size for which `chunk_size + 2` wraps ends a body at once.
pub mod Prelude
pub mod Transfer
pub mod Protocol
pub mod DeviceStore
pub mod DeviceSelection
pub mod SafePath
pub mod Security
pub mod FileBrowser
pub mod StatusFormat
pub mod Json
pub mod Discovery
pub mod Http
pub mod Config
pub mod AppService
pub mod Examples
