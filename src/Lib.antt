-- ===== src/Lib.antt =====
-- Verification of the Warhead Discord client: a program that keeps one connection to a Discord
-- server, authenticates on it and exchanges packets.
--
-- The parts, from the bytes upwards, and the files that model them:
--   MessageBuffer.antt    src/common/Utilities/MessageBuffer.h: storage with a read and a write
--                         position, into which the socket reads and from which it writes.
--   ByteBuffer.antt       src/shared/Packet/ByteBuffer.h and ByteBuffer.cpp: the payload of a packet,
--                         with typed values, strings and packed identifiers. ByteBuffer/State has the
--                         buffer, the exceptions and the chaining of calls.
--   PacketHeader.antt     src/shared/DiscordPacketHeader.h and src/common/Utilities/ByteConverter.h:
--                         the six bytes before a payload.
--   Socket.antt           src/shared/Network/Socket.h: the read buffer, the write queue, closing.
--                         Socket/Events has the steps that a history of a socket is made of.
--   ClientSocket.antt     src/client/Client/ClientSocket.cpp: authentication, ping and the sending of
--                         packets; ClientSocket/Loop has `ReadHandler` and `Update`,
--                         ClientSocket/State the members of the class. ClientSocket/Frames describes the
--                         frames of a stream of bytes without the buffers.
--   ClientSocketMgr.antt  src/client/Client/ClientSocketMgr.cpp: the manager that owns the connection, hands
--                         it packets, and connects anew.
--   TaskScheduler.antt    src/common/Utilities/TaskScheduler.h and TaskScheduler.cpp: tasks that run when
--                         their time has come. TaskScheduler/Context has the context of a running task,
--                         TaskScheduler/Dispatch the loops of `Dispatch`.
--   Timer.antt            src/common/Utilities/Timer.h: elapsed time and countdown timers.
--   TimeString.antt       src/common/Utilities/Timer.cpp: a duration as text.
--   UpdateTime.antt       src/client/Time/UpdateTime.cpp: the table of update times.
--   PacketQueue.antt      src/common/Threading/PacketQueue.h: the queue of packets behind a lock.
--   CheckPacketQueue.antt src/common/Threading/PacketQueue.h: the queue of packets with identifiers.
--   PcQueue.antt          src/common/Threading/PCQueue.h: producers and consumers of a queue.
--   MpscQueue.antt        src/common/Threading/MPSCQueue.h: the queue without a lock, with the two steps of a
--                         producer apart.
--   IpLocation.antt       src/common/IPLocation/IPLocation.cpp: the table of address ranges:
--                         reading it (IpLocation/Loading), sorting and searching it.
--   Config.antt           src/common/Configuration/Config.cpp: the files of options, and asking for an option.
--   DiscordConfig.antt    src/client/Config/DiscordConfig.cpp: the client's own store of options.
--   StringConvert.antt    src/common/Utilities/StringConvert.h: numbers and truth values as text and back.
--   StringFormat.antt     src/common/Utilities/StringFormat.cpp: white space cut off at the ends of a text.
--   Tokenize.antt         src/common/Utilities/Tokenize.cpp: the parts of a text between separators.
--   Util.antt             src/common/Utilities/Util.cpp: bytes as hexadecimal text and back.
--   AsyncCallbackProcessor.antt src/common/Utilities/AsyncCallbackProcessor.h: callbacks that wait for an answer.
--   EnumFlag.antt         src/common/EnumUtil/EnumFlag.h: flags in one number.
--   Log.antt              src/common/Logging/Log.cpp: the loggers of the configuration and the test of a level.
--   Common.antt           lists, Boolean tests, bits and bytes that the parts share.
-- A child module is named for what it shows; the modules called Runs hold concrete runs.
--
-- How a socket and its client interact: `ClientSocket::Update` turns the packets that wait into
-- messages of the write queue (`send_packet`), and `Socket::Update` and the write handlers hand the
-- queue to the operating system. Received bytes are in the socket's read buffer, from which
-- `read_handler` fills the header buffer and the packet buffer and then dispatches on the opcode.
--
-- Names are those of the source in snake case. A byte is a number below 256. A `size_t` is a number
-- below 2 ^ 64 and its sums and differences wrap; `uint32` values wrap at 2 ^ 32; signed integers are
-- two's-complement patterns. A function that may copy past a storage returns an outcome that says so,
-- and an exception or a failed assertion is a value. The machine is little-endian, and `Socket` is
-- built without IOCP.
--
-- Loops: `drain` (the loop of `Socket::Update`) takes one unit of fuel for each queued message and one
-- more, and `read_loop` (the loop of `ReadHandler`) one for each received byte and one more; more fuel
-- changes neither. The loops of `TaskScheduler::Dispatch` take one unit for each callable and each
-- task; they end only if the tasks let them, and TaskScheduler/Ends says when. The loop of `Tokenize`
-- takes one unit for each character and one more, as does the loop over the lines of a configuration
-- file (`read_lines`) and that over the lines of the IP database (`read_records`); `decimal` takes one
-- for each bit of the type; the search by halves of IpLocation one for each record; the search for a
-- logger (`get_logger_by_type`) one for each character of the name and two more. The loops of `appendPackGUID` and `readPackGUID` run eight rounds.
--
-- Parameters: what the operating system answers to a write, the clock, what the function objects of
-- a task scheduler do, the files of a configuration with the order in which a map is gone through,
-- the sorting of the IP locations with the laws of `std::sort` (IpLocation/Sorting), what the
-- formatting library prints, what a callback of the processor does when it is asked, the loggers of
-- the logging library and whether a channel exists, and the version strings that the build
-- generates. A write handler that the operating system owes is a step of its own.
--
-- Not modelled: the channels of the log, the resolution of the server name, callbacks into
-- the manager while it updates (ClientSocket.antt counts the calls of `Disconnect` instead), the
-- destruction of a task scheduler while it runs, the calendar, cryptography over OpenSSL,
-- floating-point options, and the libraries under deps/.
pub mod Common
pub mod MessageBuffer
pub mod ByteBuffer
pub mod PacketHeader
pub mod TaskScheduler
pub mod Timer
pub mod TimeString
pub mod StringFormat
pub mod StringConvert
pub mod Config
pub mod DiscordConfig
pub mod Tokenize
pub mod Util
pub mod EnumFlag
pub mod Log
pub mod AsyncCallbackProcessor
pub mod IpLocation
pub mod UpdateTime
pub mod PacketQueue
pub mod CheckPacketQueue
pub mod PcQueue
pub mod MpscQueue
pub mod Socket
pub mod ClientSocket
pub mod ClientSocketMgr
