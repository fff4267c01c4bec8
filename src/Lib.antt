-- ===== src/Lib.antt =====
-- Verification of the hub of widuino, the program that connects wireless sensor nodes to their
-- users: the boot server, which gives a node its address and its software, the UDP gateway, which
-- carries packets between the relay nodes on the network and the hub, the database of messages,
-- and the server of the clients' requests, with the clients' library; and the interpolation of time
-- series and some of the older programs: the gateway to MQTT, and the gadgets for UDP, for readings,
-- for ranges of time and for aggregates.
--
-- How the parts interact. A packet comes in over UDP. The gateway records which address stands for
-- the packet's RF group and acts on its type: a data packet becomes a message for the hub, with an
-- acknowledgement if one is wanted, and a boot packet is decoded and handed to the boot server,
-- whose reply goes back the same way. Messages are stored under their time and published to
-- subscribers, who first get what is stored from the time that they ask for. The boot server looks
-- up the node's software in its cache, or reads it from an Intel hex file, and answers with its
-- size and checksum or with a whitened chunk of it. When a file changes, the cache and the
-- configuration follow. In the other direction the transmitter sends messages to the address of
-- their group. The hub forwards every message to its processors, which log and store it, and
-- goroutines carry what is published to the clients, and what the clients upload to the database.
--
-- Files.
-- - Base: shared helpers. Base/Cond and Base/Lists (tests, lists), Base/Bytes (lengths of byte
--   strings), Base/Words (fixed widths), Base/Int, Base/Decimal (decimal text), Base/Outcome (results
--   with errors and panics), Base/Dict (maps), Base/Xor (laws of ^).
-- - Boot/Crc: software.Crc16 and the reference Crc16b of hub/boot_proto.go. Boot/Crc/Laws.
-- - Boot/Whitening: deWhiten of hub/boot_proto.go. Boot/Whitening/Laws.
-- - Boot/Hex: readHex of hub/boot_data.go. Boot/Hex/Text: the line scanner and hex.DecodeString.
--   Boot/Hex/Writer: a writer of hex files, the specification. Boot/Hex/TextLaws, Laws, RoundTrip
--   and Damage: proofs.
-- - Boot/Wire: the boot messages of hub/boot_proto.go and their layout. Boot/Wire/Layout: the
--   node's side.
-- - Boot/FilePath: Clean, Join and Dir of Go's package path.
-- - Boot/Server: the booter of hub/boot_data.go and hub/boot_proto.go: readHexFile is
--   read_hex_file, findSoftware is find_software, and Pair, Upgrade and Download are pair, upgrade
--   and download. Boot/Server/Reload: readBootConfig, NewBooter and watchHandler, as
--   read_boot_config, new_booter and handle_event. Boot/Server/Laws, Transfer, Bounds and Events:
--   proofs.
-- - Gears: messages of gears/chancmd.go.
-- - Database: the interfaces of LevelDB and msgpack and what LevelDB documents. Database/Store: Get,
--   Put and Iterate of hub/database/store.go. Database/Messages: hub/database/rfmessage.go, with
--   genRFKey as gen_rf_key, PutRFMessage as put_rf_message, RFIterate as rf_iterate and the loop of
--   NewProcessor as process_messages; Messages/Keys: the order of the keys; Messages/Log: the
--   abstract log; Messages/Refines and InOrder: that the store implements it; Messages/Processed:
--   that the processor keeps it; Messages/CatchUp: catchUpRFSubscribe of
--   hub/database/rf_subscribe.go; Messages/HandOver: it and the processor take turns, each mutex
--   section of the code a step; Messages/Order, Rounds, Growth, LeftOver, InStep, Turns, Settled,
--   ExactlyOnce and Twice: proofs. Database/Subscribers: its arrays of subscribers, RFPublish and
--   RFUnsubscribe. Database/Sensors: sensor_data.go, sensor_subscribe.go and sensor_info.go;
--   Sensors/CatchUp: catchUpSensorSubscribe of hub/database/sensor_subscribe.go; Sensors/Laws and
--   Sensors/HandOver: proofs.
-- - HubMain: hub/main.go: RegisterRecvProcessor, and the goroutine of main that forwards messages as
--   the relation Step. HubMain/FanOut and Finish: proofs; HubMain/EndToEnd: the way of a
--   data packet from the network to a subscriber, over the gateway, the hub and the database.
-- - Interpol8: interpol8/interpol8.go, with Raw as interpolate, and adjustEnd, lTrim, rTrim and
--   makeNaNs under their names. Interpol8/Point: the value of one interval, with the switch of Raw
--   as stretch. Interpol8/Grid, TrimLeft, TrimRight and Trim: proofs.
-- - Gateway: hub/udpgw.go: sendPacket is send_packet, a round of Transmitter is transmit, a round
--   of Receiver is receive with its switch in dispatch, GroupMap is a map with map_group_to_addr
--   and save_group_to_addr. Gateway/Receive, Groups and Boots: proofs.
-- - Rpc: hub/chansrv.go and hub/chanhandlers.go, with handleRequest as handle_request and a
--   function for each handler. Rpc/Client: gears/chancli.go, with doRequest as do_request.
--   Rpc/Connection: handleRequests of hub/chansrv.go, Dial and pinger of gears/chancli.go.
--   Rpc/Streams: the goroutines that carry a subscription from the hub to the client, one relation
--   for each (Copy, Receive), beside RFPublish (Publish). Rpc/Upload: those that carry a client's
--   values to the database (Feed, Store). Rpc/Laws, Replies, Connection/Pipelined, Streams/Order,
--   Streams/Deadlock, Streams/Delivery and Upload/Stored: proofs.
-- - MqttGateway: udp-gw/udpgw.go, with encode and decode, udpServer and mqttServer under their
--   names. MqttGateway/TxTopic: txTopicRE, as find_string_submatch. MqttGateway/Topics, Groups and
--   Subscriptions: proofs.
-- - FlowGateway: OLD/flow/gadgets/udpgw.go: Receiver and Transmitter, with what a gadget reads in a
--   slice of the buffer as see. FlowGateway/Seen, Overwritten, Replies and Answers: proofs.
-- - Readings: the gadgets of OLD/flow/gadgets/nodes.go, modules.go and decoders/owTemp.go, with one
--   function for a round of each: map_node, identify_module, map_module and decode_ow_temp.
--   Readings/Put: PutReadings and SplitReadings. Readings/Pipeline: their circuit, from
--   OLD/flow/wcc/setup.coffee.
--   Readings/Temps: proofs.
-- - RfFormat: RFFormat of gears/rfpp/rf_format.go. RfFormat/Line: proofs.
-- - TimeRange: TimeRange.Run of OLD/flow/gadgets/time_range.go, with its callback as raw_point.
--   TimeRange/Laws: proofs.
-- - Stats: Aggregator of OLD/flow/gadgets/stats/stats.go, with process and flush under their names.
--   Stats/Runs, Stats/Tags and Stats/Laws: proofs.
-- - LogWriter: LogProcessor of hub/log_writer.go. LogWriter/Laws: proofs.
-- - Boot/Tests, Boot/Server/Tests, Gateway/Tests, Database/Tests, Database/Messages/Tests,
--   Database/Sensors/Tests, Rpc/Tests, Rpc/Streams/Tests, LogWriter/Tests, HubMain/Tests,
--   HubMain/EndToEnd/Tests, Interpol8/Tests, MqttGateway/Tests, FlowGateway/Tests, Readings/Tests,
--   RfFormat/Tests, TimeRange/Tests, Stats/Tests: the theorems at small inputs.
--
-- Conventions. A byte is a natural number below 256, an array or a slice is a list, a uint16 keeps
-- its wrap-around as a remainder. A Go map is an association list. A function that changes a
-- structure takes it and returns it. An error is a value; a panic is a result of its own. A pointer
-- that may be nil is an Option. Goroutines are
-- relations on one state, with a constructor for each operation on a channel, a lock or a connection;
-- they run in any order. Where two take turns by a mutex, the turns are a list. Loops are recursion
-- on their lists; a node's transfer is recursion on the number of chunks that it asks for. The one
-- fuel counts the digits of an int64, and 19 is enough (Base/Decimal/Laws). The rounds of a catch-up
-- are a list, one for each time the lock is taken.
--
-- Parameters. The files on disk, what the random source returns, what the JSON decoder makes of the
-- configuration file and of a payload, the clock, float64 and its operations, the parser and the
-- printer of floats, the memory for a slice, the boot server as the gateway sees it, whether a
-- processor of the hub comes back from a message, the accessors of the flow library's maps, of which
-- it is assumed that they return what a map holds under the type asked for, its dispatcher, which is
-- assumed to lead a packet to the gadget that it names, the order of Go's range over a map, and
-- LevelDB and the msgpack codec, of which their documented behaviour is assumed: a sorted map from
-- keys to data, iterators that see the entries of the moment at which they are made, and that what is
-- encoded is decoded to itself. To the client the transport is a function from a request to the reply.
-- The calls of the file watcher, a third-party package, are recorded in order.
--
-- Not modelled. Log output; opening sockets and the loops around the rounds modelled here, beyond
-- the sequence of packets; the locks of GroupMap, each held for one whole operation, which is one
-- step here; accepting connections; opening and closing the database; the older programs under OLD
-- and wcc that only print, start a library or show pages; and the firmware of the nodes, which is C++
-- on hardware.
pub mod Base
pub mod Boot
pub mod Gears
pub mod FlowGateway
pub mod Gateway
pub mod Database
pub mod Readings
pub mod RfFormat
pub mod Rpc
pub mod LogWriter
pub mod MqttGateway
pub mod TimeRange
pub mod Stats
pub mod HubMain
pub mod Interpol8
