-- ===== src/Lib.antt =====
-- naleystogramm-core: the logic behind a peer-to-peer messenger, in C++. The managers of calls, remote
-- shells and file transfers each keep a table or a state, take the JSON frames that the network
-- manager (src/net/network.cpp) hands to them, and send frames through it; the E2E manager, of another
-- library, encrypts what they send, and a user interface calls their methods and gets their callbacks.
-- These modules model the managers' logic as functions from a state to the next.
--
-- The files, and the code that each is about:
--   Prelude (with Tests, Lists, Order, Text, Map, Int, Scan, Decimal, Compare): std::string as its
--     bytes, std::unordered_map as an association list, std::stoi and std::to_string, int, and the
--     comparison by `|=` of `^` that the passwords go through.
--   Calls: src/calls/callmanager.cpp (CallManager). `initiate_call`, `accept_call`, `reject_call`,
--     `end_call`, `handle_signaling` and `start_media` are the methods of those names, `on_call_timeout`
--     and `on_ended` the callbacks of its timers, in Calls and Calls/Methods; `step` and `run` of
--     Calls/Events are what can happen to the manager. Calls/Shape has its invariant, Calls/Diagram its
--     states, Calls/Agreement both ends of a call.
--   Shell: src/shell/remoteshellmanager.cpp (RemoteShellManager): the sessions and the methods, and in
--     Shell/Frames the handlers of frames and the callbacks. Shell/Sessions and Shell/Invariant are
--     about the sessions, Shell/Quiet and Access about who gets a process, Shell/Input about what it is
--     given, Shell/Peers about the senders of frames, Shell/Otp about the passwords.
--   Transfer: src/transfer/filetransfer.cpp (FileTransfer): names, ids and nonces. Transfer/Receive and
--     Transfer/Frames are the receiving side (finishReceiving, handleFileChunk, handleMessage),
--     Transfer/Send the sending side (sendNextChunk, startStreaming, handleResumeRequest), and
--     Transfer/Bounds (with Writing), Names, Nonces, Consent, Resume and Delivery (with Chunks, Streaming
--     and Taking) are about them.
--   Network: src/net/network.cpp (NetworkManager). Network itself cuts the bytes of a connection into
--     frames (tryParseFrames); Network/Peers has the state, Limits the rate of frames, the bans and the
--     pauses, Queue sendFrame and its queue, Reconnect the timers and connectToPeer, Keepalive PING and
--     PONG, Wire the frames and their texts, Handshake handleFrame, Incoming how connections come and
--     go, and Relay the connection to the relay. Framing, Bounds, Guesses, Delivery, Retry, Trust,
--     Welcome, Accept and Printable are about these.
--   Session: src/storage/sessionmanager.cpp (SessionManager): the settings; Session/Values JSON, Save and
--     Load the file session.json, Methods the setters, the linked devices and generateUuid. RoundTrip,
--     Devices, Failure and Uuid are about them.
--   Groups: src/net/groupmanager.cpp (GroupManager): groups, their frames and the events of their threads,
--     and in Groups/Membership joining and leaving. Sealing and Retry are about them.
--   Storage: src/storage/storage.cpp (StorageManager): the rows of its tables; Storage/Sql the statements
--     of SQL, Contacts, Messages and Secrets (groups and the account) the methods of those names, Schema
--     migrate, Runs any sequence of calls. Order, Keys, Pages, Added, Deleted, Blocking, Sealed,
--     Upgrade, Stages and Migrated are about them. What SQLite documents of PRIMARY KEY and FOREIGN KEY,
--     and of the PRAGMA foreign_keys, is in Storage/Sql.
--   Updates: src/diag/updatechecker.cpp (UpdateChecker): isNewerVersion; Updates/Assets pickAsset, with the
--     names of Families, Listeners the listeners, Check the check, Events any sequence of calls. Agreement,
--     Choice, Silence and Tokens are about them.
--   Discovery: src/net/discoveryclient.cpp (DiscoveryClient), with its listeners in
--     Discovery/Listeners. Lookup and Replies are about it.
--   Identity: src/identity/identity.cpp, the formats of addresses.
--   Pairing: src/identity/device_pairing.cpp, the codes that link a device.
--   Version: include/naleystogramm-core/diag/versionutils.h.
-- The Examples of each part are its tests and the theorems at concrete values.
--
-- Conventions. A state is a record; a method is a function from it to the next state, and the `trace`
-- in it records, newest first, the frames sent and the callbacks fired. A handler `f` looks its entry
-- up, and `f_of` goes on with what was found. An event is one call, frame or callback that runs to its
-- end, as the managers' mutexes and the one thread of the io_context have it; a list of events is
-- any order of them. The update check calls its listeners outside its mutex, so there each such call is an
-- event of its own. What is random or comes from a timer is an argument. What stands outside the
-- repository (the E2E library, OpenSSL, asio, nlohmann::json, the file system, the media engine) is a
-- record `Env` of functions, which the theorems take as it comes but where they name a hypothesis.
--
-- Bounds and fuel. Numbers are natural numbers; a port is taken `% 2 ^ 16` where the code converts it,
-- and stoi fails outside of int. Two loops draw random bytes until one fits: they run over the list of
-- bytes drawn, and give `none` when it is too short. The loop that erases ".." from a file name has the
-- name's length as fuel, which is enough as each round shortens it (drop_dots_lem in Transfer/Names);
-- the digits of a number n have n + 1.
-- tryParseFrames has the length of the buffer, as each frame takes a newline away. What goes on until
-- something outside stops it is a number of rounds: the calls that an io_context runs (run_posted), the
-- reconnections of a peer or of a group (rounds, fail_times), the calls of sendNextChunk (stream); the
-- theorems say after how many of them the end is reached.
--
-- Not modelled: how the network manager finds its addresses, SQLite itself and the opening of its file,
-- the requests of libcurl, the binding of audio, processes, UPnP and the log, which are mostly input and
-- output, the patterns of hasForbiddenPattern, which are regular expressions, the lists of listeners of
-- the managers, the names of files that exist already, negative chunk numbers, and log lines.
pub mod Prelude
pub mod Calls
pub mod Version
pub mod Identity
pub mod Pairing
pub mod Shell
pub mod Transfer
pub mod Network
pub mod Session
pub mod Groups
pub mod Storage
pub mod Updates
pub mod Discovery
