-- ===== src/Lib.antt =====
-- steam-min-cpp, a minimal Steam client: its byte stream, its generated messages, the cryptography of
-- its channel, its TCP transport, its VDF documents, and its handlers of events and commands.
--
-- The program. A SteamClient (src/client.cpp) owns a CMClient (src/network/cmclient.cpp), which owns a
-- connection and an EncryptionManager. The connection (src/network/connection/tcp.cpp) cuts the peer's
-- bytes into frames and hands each to CMClient::consume_frame, which decrypts it, tells its kind by the
-- message number and dispatches it to a handler; requests go the other way, from a message through the
-- stream and the encryption to TCPConnection::async_send.
--
-- The parts, and the files that model them:
--   Prelude    names, Boolean tests, lists over the native numbers, bits, and the type of results:
--              a value, an exception with its text, or undefined behaviour.
--   Stream     include/steamclient/utilities/stream.hpp. `M A` is a step on a stream. Laws holds the
--              three properties that serialisers are put together from: Writes, Parses and Consumes.
--   MsgUtil    include/steamclient/utilities/msg_utils.hpp.
--   Enums      the enumerators of include/steamclient/types/generated/SteamLanguage.hpp in use, and
--              all of EMsg.
--   Internal   include/steamclient/types/generated/SteamLanguageInternal.hpp: a module per class, each
--              with its fields, constructor, `Serialize` and `Deserialize` as `serialize` and
--              `deserialize`, all instances of Serializable; Registry lists the 51 with fixed fields.
--              MsgHdrProtoBuf and MsgGcHdrProtoBuf take the generated protobuf class as a parameter.
--   Packet     include/steamclient/types/packetbase.hpp: received messages.
--   Message    include/steamclient/types/clientmsg.hpp, over any class of Internal, and its child Payload
--              for include/steamclient/types/msgbase.hpp.
--   Crypto     src/crypto/helpers.cpp, and its child Manager for src/crypto/crypto.cpp. AES, HMAC, RSA
--              and CRC32 are parameters with their documented laws, and random bytes are arguments.
--   Tcp        src/network/connection/tcp.cpp: a record for the object's fields, and a function per
--              method and completion handler. Boost.Asio is the environment: `pending` holds the
--              operations that have not completed, and a run is any sequence of calls and completions.
--   Dispatch   src/routing/events/dispatcher.cpp and the tables of include/steamclient/routing/events.
--   Multi      the frames of a message in src/routing/events/handlers/multi_handler.cpp.
--   Client     src/network/cmclient.cpp, consume_frame up to the dispatch, and src/client.cpp.
--   Vdf        src/utils/vdf/vdf_bin.cpp and include/steamclient/utilities/vdf.hpp, and its child Text
--              for src/utils/vdf/vdf_text.cpp.
--   Events     include/steamclient/events.hpp.
--   Externals  the protobuf classes with their accessors, the random numbers and Gunzip, as parameters.
--   Session    what handlers and commands change: the client, the events that it emitted, the blocks
--              of the random generator that were set aside and the counter of jobs. `Step A` changes a session and
--              ends with a value, an exception or undefined behaviour; an exception keeps the changes.
--   Handlers   src/routing/events/handlers: the handlers of single messages.
--   Receive    CMClient::consume_frame as a whole, with the registrations of the handlers and
--              handle_multi, which calls it again; src/utils/gzip/gzip_helpers.cpp.
--   Commands   src/routing/commands/handlers, and its child Router for
--              include/steamclient/routing/commands.
--   Fetcher    src/web/cmfetcher.cpp from the endpoints of the answer on.
--   Tests      runs of the code at concrete inputs, some from the directory test, and the theorems
--              applied to concrete inputs.
--
-- Integers are numbers below the power of two of their type, signed ones as their bit patterns, and
-- bytes are numbers below 256. A stream's position and sizes are size_t with its wrap-around; the
-- theorems on reading ask for inputs shorter than 2 ^ 63 bytes. A loop over a count is recursion on it;
-- the loop over the frames of a multi message has the payload's length as its bound, and the binary VDF
-- parser one more than the input's length, since each round takes a byte at least. So has the text parser,
-- whose comments are bounded by the length, and a printed number has at most the twenty digits of a
-- uint64_t. consume_frame is bounded by the depth of its nested calls, which the program's stack bounds:
-- to run out of it is undefined behaviour. Characters are numbers below 256.
--
-- Not modelled: Boost.Asio, Crypto++, protobuf, libcurl, zlib and the copies of ctljson and of the event
-- emitter under include/steamclient/external; logging; the request for the list of servers. The callbacks
-- that a user registers for events are not run: an event is recorded where it is emitted. Locks are left
-- out.
pub mod Prelude
pub mod Stream
pub mod MsgUtil
pub mod Packet
pub mod Message
pub mod Enums
pub mod Internal
pub mod Crypto
pub mod Tcp
pub mod Dispatch
pub mod Multi
pub mod Client
pub mod Vdf
pub mod Events
pub mod Externals
pub mod Session
pub mod Handlers
pub mod Receive
pub mod Commands
pub mod Fetcher
mod Tests
