-- ===== src/Lib.antt =====
-- The time libraries for NTP and PTP: packets, the arithmetic of clocks, the two servers, and clients.
--
-- The parts and their files:
-- Wire is the part of Go's encoding/binary that the code uses: numbers stored highest byte first,
-- buffers, and, in Wire/Struct and Wire/Fields, `binary.Write` and `binary.Read` of a struct that is given by
-- the widths of its fields, its content a list or a tuple.
-- Prelude has the shared names, Go's outcomes (a value, an error, a panic) and the machine words.
-- Ntp/Packet is ntp/protocol/packet.go: `Packet`, `ValidSettingsFormat`, `Bytes`, `BytesToPacket`.
-- Ntp/Clock is ntp/protocol/ntp.go: `Time`, `Unix`, `AvgNetworkDelay`, `CurrentRealTime`,
-- `CalculateOffset`. A time is a number of nanoseconds since 1970; int64 wraps where the code computes
-- in it, and `Sub` saturates.
-- Ntp/Responder is the worker of ntp/responder/server/server.go: `fillStaticHeaders`,
-- `generateResponse`, `serve` and the loop of `startWorker`. Its state is the response packet that it
-- reuses, what it has sent, and two counters; tasks and clock readings are inputs.
-- Ntp/Control is ntp/control: the packed words (packet.go), Messages (the head of a message, the list
-- of peers, and `CommunicateWithData` of client.go), Fragments and Associations. The client's state is
-- its sequence number and what it has written; the reads of the connection are an input.
-- Ntp/Chrony is ntp/chrony: Helpers (helpers.go), Replies and Usable (the structs of packet.go on the
-- wire and in their usable form), Packets (the requests, `decodePacket`, and `Communicate` of
-- client.go), Meaning (what the usable form of each reply has to be), Decoding and Refusals (the replies
-- that are decoded and those that are not).
-- Leapsectz is leapsectz/leapsectz.go: `parseVx` and `Write`, on a file that is a list of bytes.
-- Ptp/Types, Ptp/MessageType and Ptp/TlvType are ptp/protocol/types.go; Ptp/Header, Ptp/Messages and
-- Ptp/Announce are ptp/protocol/protocol.go; Ptp/Signaling is ptp/protocol/unicast.go. Each marshaller
-- is a row of writes at offsets into a buffer, and each parser reads at the same offsets; an index or a
-- slice out of range is the outcome `panic`.
-- Ptp/Management is the management messages: Structs and the decoders (management.go, management_tlvs.go
-- and ptp4l.go of ptp/protocol), Requests, ErrorStatus, and Client (management_client.go), whose state is its
-- sequence number and what it has written; the answer to a question is an input.
-- Ptp/Server is ptp/ptp4u/server: Subscription (subscription.go), Sending (the loop of
-- `sendWorker.Start` in worker.go), Clients (the subscription maps of worker.go), and Handlers
-- (`handleGeneralMessages`, `handleEventMessages`, `findWorker` and `sendGrant` of server.go). The
-- handlers register subscriptions, which are shared by pointer with the queue of a worker: a
-- subscription is an index into a heap. Ticker is the loop of `SubscriptionClient.Start`. The worker takes a subscription from its queue and sends its
-- packets with the marshallers of Ptp.
-- Ptp/Client is ptp/simpleclient: Requests and Acknowledge (requests.go), Measurements
-- (measurements.go), whose samples are maps from sequence numbers, and Session (client.go): the
-- handlers, and the rounds of the main loop as a step relation. Ptp/Handshake joins the client to the
-- general port of the server: each reads what the other sent last.
--
-- Bounds: the loop over the TLVs of a Signaling message has the stated length as its bound, and each
-- round moves on by at least four bytes. The loop over the packets of a control response ends with the
-- reads that the connection gives. All other loops are structural.
--
-- From outside: the results of system calls (sends, timestamps, clock readings) are inputs of the
-- models; the random generator of `findWorker` and the floating point of `NewLogInterval` are
-- parameters, on which nothing is assumed; the ticks of a `time.Ticker` are a list;
-- the bytes that the runtime leaves behind the data of a control message, in the capacity of their slice,
-- are a parameter of `get_associations`.
--
-- Not modelled: sockets, goroutines, signals, logs and mutexes; waiting on a full queue; the
-- statistics, which are effects in the models that call them; the PTP peer-delay messages, and
-- management decoders that a caller registers; the connections and the timeout of the PTP client; `NormalizeData` and the tables of
-- descriptions; the command line tools and the hardware libraries.
pub mod Prelude
pub mod Wire
pub mod Ntp
pub mod Ptp
pub mod Leapsectz
