-- ===== src/Lib.antt =====
-- p2pshare: sharing files between peers that know each other by key. A peer has an Ed25519 identity
-- (crypto_utils.py), talks in signed JSON envelopes in length-prefixed frames over TLS (protocol.py),
-- agrees on session keys by a handshake (handshake.py), keeps its contacts, its shared files and
-- the files it received on disk (storage.py), serves its peers (server.py), asks them (client.py), and
-- finds them on the local network (discovery.py). p2pshare.py has the commands.
--
-- The files, and the code that each is about:
--   Json, Json/Dumps, Json/Sorting: the values of the module `json` and `json.dumps`, as far as the
--     program uses them: separators, sorted keys, escapes to ASCII. Json/Utf8, Json/Lexer and Json/Loads:
--     `json.loads`, and that it reads back what `json.dumps` writes.
--   Runtime: what comes from the package `cryptography`, from hashlib and from the operating system,
--     as a record of functions that all definitions take as an argument. `IsLawful` states the
--     documented behaviour that theorems assume: a signature verifies under its own key,
--     any 32 bytes are a private key, Diffie-Hellman commutes, what was sealed opens, and sizes.
--   Crypto/Packing, Crypto/Primitives, Crypto/Base64, Crypto/Identity, Crypto/Session, Crypto/Chunk:
--     crypto_utils.py.
--   Node: the state of a peer. One record has the stores in memory, their files on disk, the number
--     of random draws so far, the frames that the open connection will deliver, those sent, and the
--     connections that it will get when it calls.
--   Storage/Contacts, Storage/Shares, Storage/Received: `ContactStore`, `ShareIndex` and
--     `ReceivedFileStore` of storage.py; Storage/Contacts/Loading: `ContactStore._load`;
--     Storage/Shares/Spec: the share index as a finite map; Storage/Hashing: `sha256_file`.
--   Protocol, Protocol/Envelope: `build_envelope` and `verify_envelope`; Protocol/Frame:
--     `_recv_exact`, the length prefix and the JSON text, on a stream that the network cuts at will;
--     Protocol/Frame/Messages: a sequence of messages; Protocol/Binding: what signed bytes determine.
--   Handshake: `perform_handshake_initiator` and `perform_handshake_responder` of handshake.py.
--   Server/Contacts, Server/Transfer, Server/Session, Server/Dispatch: the handlers of server.py, from
--     `_handle_connection` down; Server/Lifecycle: `start`, `stop` and `_accept_loop` as a step relation.
--   Client/Contacts, Client/Transfer, Client/Requests: `Client` of client.py: add_contact, list_files
--     and notify_key_rotation; _recv_transfer; request_file with its proxies. Client/Requests/Meeting:
--     a client and a server that meet, from `request_file` to `_dispatch`.
--   App/Keyfile: `Identity.save` and `Identity.load` of crypto_utils.py; App/Opening: `App` of
--     p2pshare.py, which opens the stores of a peer with its password; App/Commands: share, unshare,
--     verify-contact and rotate-key; App/Serving: serve and discover; App/Address: host and port in an
--     argument; App/Main: the other commands, and `main` with its exit code.
--   Discovery: `MDNSAdvertiser` and `discover_peers` of discovery.py, on the events of the browser.
-- The modules named Keeps and Quiet say which invariants the operations keep, and the modules under
-- Tests run the program on a small runtime.
--
-- Code that changes state is a function from a state to a result and a state, in the monad `Exec` of
-- Base/Effects; an exception is an `Exn` and keeps the state that was reached. A dict is the list of
-- its entries in order of insertion. A text is a list of code points, a byte string a list of
-- numbers below 256. Values from a peer are of any JSON type, and operations on them raise what Python
-- raises for a wrong type.
--
-- Bounds and fuel: `recv_loop` runs on fuel; `recv_exact` gives it n + 1, which is enough since each
-- round but the last adds a byte. `feed` reads a block of a file in each round and gets one round more
-- than the file has bytes. The parser of JSON gets one round more than its text has characters, for the
-- depth of lists and objects, for the elements of each, and for the characters of a text; every element
-- and every character takes one. The limit of a frame is 4 194 304 bytes, and a chunk index is below
-- 2^64. All other loops are over lists or counted down.
--
-- Above the frames of Protocol/Frame, a frame that arrives is a value, or the exception that reading it
-- raises; Protocol/Frame/Messages is what justifies it.
--
-- The module `json` is modelled as far as its documented grammar goes: bytes are taken to be UTF-8, the
-- text of a float is a function of the literal, and the limits of the interpreter on digits and depth
-- are left out. The digits of `int()` are the ASCII ones. share_index.json and the metadata of a received
-- file stand for the dict that they hold, not for the indented text.
--
-- Not modelled: logs, and what is printed but for the lines of serve, discover, list-contacts and
-- list-files; threads, since each connection is served to its end before the next; timeouts;
-- failures to write a file; sockets, TLS and its certificates (tls_utils.py), which are calls of
-- other packages; the sending of mDNS packets, which belongs to the package zeroconf; the parser of
-- arguments; the prompts, whose answers are arguments of the commands.
pub mod Base
pub mod Json
pub mod Runtime
pub mod Crypto
pub mod Node
pub mod Storage
pub mod Protocol
pub mod Handshake
pub mod Server
pub mod Client
pub mod App
pub mod Discovery
mod Tests
