-- ===== src/Lib.antt =====
-- clove2: a network library for servers. It serialises Go values (package codec), frames packets on
-- a byte stream (package network), and runs stream connections (package tcp), fragmented datagrams
-- (package udp) and datagrams of the file system (package unix) over them, with buffers, masks and
-- ids of package base.
--
-- How the parts interact. A controller of tcp/controller.go writes what it reads from its socket to a
-- receive buffer and hands the buffer to the parser of its packet format, which the format manager of
-- network/packet.go determines from the first bytes. The parsers of network/clove.go and network/ws.go
-- take whole frames from the buffer and leave an incomplete one. The raw bytes of a packet are what
-- codec/clove.go encodes. A controller of udp/controller.go cuts a packaged packet into fragments
-- and gathers the fragments of a sender in a pipeline of udp/udp.go, which parses what it has joined.
-- A controller of unix/controller.go sends one packet in one datagram and parses each datagram by
-- itself. A server's configuration is a JSON file that codec/configuration.go reads with the codec of
-- codec/json.go, found by name in the manager of codec/codec.go, and a map reader.
--
-- Files and the code that they model:
--   Prelude        shared names, lists and tests over the native numbers, the words of encoding/binary
--                  (Bytes), masks (Bits, Xor), signed integers (Int), decimal text as strconv reads and
--                  fmt prints it (Decimal), and the outcome of a Go call (Run: a return, a panic or no
--                  fuel; recover is the deferred recovery of a handler)
--   Base/Buffer    base/buffer.go: StandardBuffer (next, peek, write, read, reset, len)
--   Base/Bit       base/bit.go: TestMask, ReadAsciiCode
--   Base/Mask      base/bit.go: MaskBytes, UnMaskBytes; below it, one after the other (RoundTrip, with
--                  the parts of a byte in Joins)
--   Base/Dict      base/map.go: the dictionary, as entries in the order of its iteration
--   Base/Abs       base/bit.go: AbsForInt64, AbsForInt32
--   Base/Id        base/id.go: CloveId, NextId, NextIdWithSeed, MachineID.GetHash; below it, ids that
--                  differ (Distinct), the order of a machine's parts (Machine), GetMachineID with
--                  parseIp (Collect) and its hash (Collect/Order)
--   Base/Pid       base/pid.go: the file of process ids; below it, its lines (Lines)
--   Base/Log       base/log.go: the levels, the rotation and the writing of the log, the stack trace;
--                  below it, what the files hold (Files) and the trace (Stack)
--   Codec/Value    the values of interface{} in codec/codec.go, with the equality of map keys
--   Codec/DataType the type codes of codec/clove.go
--   Codec/Encoder  codec/clove.go: makeHeader, makeHeaderAndLength, Encode, EncodeWithReflectValue
--   Codec/Decoder  codec/clove.go: calculateCloveTypeSize, DecoderClove.Decode; below it, what the
--                  decoder makes of each header and scalar, and that it ends
--   Codec/Canonical the value that comes back, and the values that can be sent
--   Codec/SliceReader codec/codec.go: CloveSliceReader; below it, with the codec (Transmitted)
--   Codec/MapReader codec/codec.go: CloveMapReader with TryReadValue; below it, the keys of a
--                  transmitted map (Keys), what is found (Transmitted) and read (Readers) of it
--   Codec/Json     codec/json.go: tsMap, tsSlice, Decode, Encode; below it, the keys (Members)
--   Codec/Manager  codec/codec.go: Manager with AddCodec and FindCodec, and the memory codec
--   Codec/Configuration codec/configuration.go: load and the Read methods; below it, what they
--                  give (Loading)
--   Codec/IntermediateValue codec/clove.go: the accessors of IntermediateValue
--   Codec/RoundTrip the encoder with the decoder
--   Network/Packet, Network/Format   network/packet.go: packets, formats and their manager; below it,
--                  the format that is determined (Choice)
--   Network/CloveFormat   network/clove.go: ParseFromBytes, ParseFromBuffer, TestMatchScore, Package;
--                  below it, one frame (Frame), its bounds (Bounds), a buffer of frames (Stream),
--                  a stream in reads of any size (Chunks) and the score of a frame (Score)
--   Network/WsFormat      network/ws.go: checkFinishFrame, getFrameLengths, getPayloadData,
--                  ParseFromBytes, ParseFromBuffer, Package, Farewell; below it, a frame of the server
--                  (Single) and a message in two frames (Fragmented)
--   Network/HttpFormat    network/http.go: ParseFromBytes, ParseFromBuffer, TestMatchScore, Package;
--                  below it, the fuel of the loop (Fuel) and the head and body of a
--                  response (Body, Response)
--   Network/Handshake     network/ws.go: CheckOrigin, HandshakeAck, TestMatchScore
--   Network/Formats       the formats of network/clove.go, network/text.go and network/fd.go
--   Udp/Pipeline   udp/udp.go: AddFragment, Combine; below it, what they deliver (Delivery)
--   Udp/Datagram   udp/controller.go: sendTo (Sending), read (Receiving), SendPacket with the slice
--                  that calls of sendTo share (Sharing), and the goroutines around them (Loops); below
--                  these, many datagrams (Receiving/Several), datagrams that are lost (Receiving/Lost)
--                  and the order of the callbacks (Loops/InOrder, on Loops/Ordered)
--   Unix/Controller unix/controller.go: SendPacket and what it calls, read, readMsg; below it, what is
--                  sent (Sending), a packet sent and read (Receiving), and the goroutines (Steps)
--   Tcp/Controller tcp/controller.go: the record Controller and each handler; below it, the order of
--                  the bytes sent (Sending), that they are all sent (Sending/Drained), the flags over a
--                  life (Life, Reading), the loop of a sender (Keeping), the test whether a
--                  connection is alive (Alive) and the packets between two controllers (Packets: Sent,
--                  Determined, Received, Arriving, Delivered)
--   Tcp/Pool       tcp/pool.go: StandardPool; below it, its limit (Limit) and its map (Registry)
--   Tcp/Connecting tcp/connector.go, tcp/listener.go: where connections come from; below it, that they
--                  are closed or kept (Kept)
--
-- How state is kept. A method that changes its receiver is a function to the changed record.
-- Channels between goroutines are lists in the record, and the goroutines are steps of a relation in
-- any order (Tcp.Controller.Sending.Sends, Tcp.Controller.Packets.Sent.Packs,
-- Tcp.Controller.Reading.Life, Tcp.Pool.Limit.Serves, Udp.Datagram.Loops.Runs,
-- Tcp.Controller.Sending.Drained.Drains, Tcp.Controller.Packets.Arriving.Puts,
-- Unix.Controller.Steps.Runs). A byte is a number, and a value of w bits keeps its wrap-around as %
-- 2 ^ w. int has 64 bits. A float is its bit pattern. A Go map is an association list; the entries
-- of an encoded map are in the order of the iteration. The files of the log and of the process ids
-- are their bytes.
--
-- Fuel. Decode, the loops of the three ParseFromBuffer and of the websocket frames, and sendTo recurse
-- on fuel that is the number of bytes or one more. Each round takes at least one byte (a header), so
-- this is enough. The loop of the stack trace doubles its buffer in each round, from 512 bytes, so as
-- many rounds as the trace has bytes and one more are enough. The rounds of tryAlive are as many as
-- the ages of the connection that are given to it.
--
-- Parameters. The socket's writes (WriteTo, Conn, Socket), a format's parser, packager and handshake
-- (the fields of PacketFormat), the controller that CreateController makes, the callbacks of a pool,
-- encoding/json (Json), net/http (HttpLib), crypto/sha1 with its text encodings, the tests of package
-- net on an address (IpLib), the interfaces and the processors that a machine lists, what Stat says
-- of a file and the time of a line of the log (System), the files of a configuration and the
-- conversions between floats (FloatOps) are arguments of the definitions that use them.
--
-- Not modelled: the creation of sockets and what they do beyond a write or a read; the lock of
-- SyncBuffer; IterItems of base/map.go; CombineBytes of base/byte.go, which is bytes.Join; signals
-- and daemons, which are calls of the operating system; network/network.go, which asks package net
-- for addresses; package errors, which is a copy of github.com/pkg/errors; clocks and deadlines,
-- less the ages that tryAlive compares; the packet processors, which are kept and never called. A
-- map or slice of a typed element is modelled only by its length. Values of a type that a package
-- names (time.Duration) are outside the values of the codec. The capacity of a slice, the sharing of
-- its memory with the buffer it was cut from (so that the frames that getPayloadData has unmasked in
-- place are unmasked again when a panic keeps them in the buffer), and the order that sort.Slice
-- gives equal priorities have no place in the model. strings.ToLower is that of ASCII.
pub mod Prelude
pub mod Base
pub mod Codec
pub mod Network
pub mod Udp
pub mod Unix
pub mod Tcp
