-- ===== src/Lib.antt =====
-- The verification library of pimc-toolkit: tools for testing PIM-SM routers.
--
-- pimc sends PIM Hello and Join/Prune messages. Its configuration names, for each multicast group,
-- the sources joined on the shortest path tree (SPT) and, for the shared tree (RPT), the rendezvous
-- point (RP) and the pruned sources. The packer (apps/pimc/pimsm/Pack.hpp) distributes the groups
-- over updates, each of which is to fit into one message; the inverse packer (InversePack.hpp) makes
-- the updates that prune what was joined when pimc says goodbye. An update is sent in a packet of
-- apps/pimc/packets, which lib/pimc/packets writes, when its turn in the event queue comes. The
-- addresses of the configuration are read by lib/pimc/parsers and held as lib/pimc/net has them.
-- mclst subscribes to a group and shows the packets received, or sends beacons that another mclst
-- recognises; it reads packets through the views of lib/pimc/packets.
--
-- Which file models which part (paths from the repository's root):
--   Common          what the modules share: Boolean tests and lists over the native numbers, signed
--                   machine integers, and the outcome of code that may throw (`raised`), reach
--                   undefined behaviour (`fault`) or run out of fuel (`stuck`)
--   Core            lib/pimc/core: Result.hpp (Core.Result with Result.Operations and Result.Compare) and
--                   Optional.hpp (Core.Optional); Core.Order has the comparisons that they build on
--   Events          lib/pimc/events/FixedEventQueue.hpp (Events.FixedEventQueue; what a round is, is in
--                   Events.Rounds)
--   Loader          lib/pimc/yaml: Structured.hpp, Structured.cpp and BuilderBase.hpp (Loader.Yaml, with the
--                   messages in Loader.Errors; Loader.Document has documents for the examples);
--                   apps/pimc/config: ConfigUtils.hpp (Loader.Addresses), MulticastConfigLoader.hpp and
--                   JPConfigLoader.hpp (Loader.GroupConfig for a group, Loader.Multicast for all),
--                   LoggingConfigLoader.hpp (Loader.Logging), PIMSMConfigLoader.hpp (Loader.Pimsm) and
--                   PIMCConfigLoader.hpp (Loader.Pimc), where the packers and their verifiers are called
--   Mclst           apps/mclst: PacketInfo.hpp (Mclst.PacketInfo), MclstBeacon.hpp with the dissection of a
--                   beacon (Mclst.Beacon), Receiver.hpp and IPRawReceiver.hpp (Mclst.Receiver; a datagram
--                   is in Receiver.Datagram), RxStats.hpp (Mclst.RxStats), Sender.hpp and Sender.cpp
--                   (Mclst.Sender), and the loop of ReceiverBase.hpp with Timer.hpp (Mclst.ReceiveLoop);
--                   Mclst.Transfer is on the way of a beacon from the sender to the receiver
--   Net             lib/pimc/net/IPv4Address.hpp (Net.Address; the mask search is in Net.Mask) ,
--                   IPv4Prefix.hpp (Net.Prefix) and IntfTable.hpp with IntfTable.cpp (Net.IntfTable);
--                   Net.Bits has lemmas on bits
--   Packets         lib/pimc/packets: PacketWriter.hpp (Packets.Writer), IPChecksum.cpp (Packets.Checksum),
--                   IPv4HdrWriter.hpp (Packets.Ipv4HdrWriter), PacketView.hpp (Packets.Views),
--                   IPv4HdrView.hpp and UDPHdrView.hpp (of the same names), PIMSMv2.hpp and PIMSMv2Utils.hpp
--                   (Packets.Pim, with the encodings in Packets.Encoding); apps/pimc/packets:
--                   IPv4PIMUpdatePacket.cpp (Packets.UpdatePacket; Packets.Bytes, Packets.Sealed,
--                   Packets.Written and Packets.Packet are on what it writes, Packets.Packed on the
--                   packets of a packed configuration, and Packets.Decode on reading them) and
--                   IPv4PIMHelloPacket.cpp (Packets.HelloPacket)
--   Parsers         lib/pimc/text/CString.hpp (Parsers.Chars), lib/pimc/parsers/NumberParsers.hpp
--                   (Parsers.Unsigned, Parsers.Signed) and IPv4Parsers.hpp (Parsers.Ipv4)
--   Pimsm           apps/pimc: pimsm/PIMSMParams.hpp (Params), config/JPConfig.hpp (Config),
--                   pimsm/Update.hpp (Update), the builders and the cursor of pimsm/Pack.hpp and
--                   pimsm/UBCursor.hpp (GroupEntryBuilder, UpdateBuilder, Cursor), the packer (Pack)
--                   and pimsm/InversePack.hpp (InversePack), and the verifiers of packed updates:
--                   pimsm/SanityCheckUtils.hpp and PackSanityCheck.hpp (SanityCheck) and
--                   InversePackSanityCheck.hpp (SanityCheck.Inverse)
--
-- State: UpdatePacker is the queue of builders with the index of the first that may have room, and a
-- cursor is an index into that queue, passed along with it. The entry builders are values, as in the
-- source, where `add` moves them into an update. An address is its 32-bit value. An iterator into a
-- text is the part of the text from its position on, and a text is the list of its character codes.
-- A function is named as its method is (maxSources is max_sources, fitGroup is fit_group); a loop is
-- a function of its own, on the variables that the loop changes.
--
-- The memory of a packet is the list of its bytes, and a store outside it is `fault`; the address of the
-- memory is a parameter, since the checksum reads words at aligned addresses. Numbers lie in memory
-- with the least significant byte first, so that htonl and htons swap bytes. The header is that of the
-- build for Linux.
--
-- Maps and sets: a std::set is the list of its elements in increasing order, and an unordered container
-- is a list too, a map in the order of its insertions; only the order of messages depends on that. A
-- message is its format with its arguments, without the text.
--
-- Parameters: a YAML node of yaml-cpp is a type with the operations that the code uses (YamlLib), and
-- nothing is assumed of them; so are the answers of getifaddrs and if_nametoindex, the file system, the
-- name of the log file and the generation id.
--
-- Machine integers: the sums of std::size_t and std::uint32_t wrap (% 2 ^ 64, % 2 ^ 32) as written in
-- the source. The native subtraction stops at 0, so a subtraction that wraps in C++ is written with the
-- modulus added first. Signed arithmetic is done in `int` where the type is narrower, and a result
-- outside the type is `fault`.
--
-- Loops around system calls take the answers of the system as a list of turns; where the list is used
-- up, the loop is still running, which is `stuck` too.
--
-- Fuel: the loops of the packers run on fuel that is counted from the work left and the builders up
-- to the end of the queue, the mask search on one step for each halving of 32, and the loop over the
-- carries of a checksum on three rounds. A run that uses up its fuel is `stuck`, which is no result of
-- the code.
--
-- Limits of the packer: the configuration loader of pimc admits at most 180 RPT-pruned sources in a
-- group, and PrunesFit is this limit (Loader.Multicast.Proper has it of every loaded configuration).
--
-- Not modelled: the handlers of the event queue, formatters, command lines, reading the configuration
-- file, sockets and logging, which are I/O for the most part; and the hash specialisations of the
-- standard library.
pub mod Common
pub mod Core
pub mod Events
pub mod Loader
pub mod Mclst
pub mod Net
pub mod Packets
pub mod Parsers
pub mod Pimsm
