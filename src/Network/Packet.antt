-- ===== src/Network/Packet.antt =====
-- network/packet.go: the packets and the errors of the parsers and packagers.
use clove.Prelude.{ℕ, Bool, List, Option}

-- The messages of the errors, and one that a library returned.
pub data PacketError : Type 0 where
  unsupported not_ready not_match is_damage req_disconnect library_error : PacketError

pub record BinaryPacket : Type 0 where
  pub from : List ℕ
  pub encrypted : Bool
  pub compressed : Bool
  pub protocol_type : ℕ
  pub protocol_ver : ℕ
  pub compress_support : Bool
  pub raw : List ℕ

pub record TextPacket : Type 0 where
  pub from : List ℕ
  pub text : List ℕ

-- The fields that a response is made of; the `Request` of a parsed packet is a *http.Request.
pub record HttpPacket : Type 0 where
  pub response_header : List (List ℕ × List (List ℕ))
  pub body : List ℕ
  pub status_code : ℕ
  pub status_text : List ℕ
  pub http_ver : List ℕ

pub record UnixMsgPacket : Type 0 where
  pub addr : List ℕ
  pub b : List ℕ
  pub oob : List ℕ

pub data Packet : Type 0 where
  binary : BinaryPacket → Packet
  text : TextPacket → Packet
  http : HttpPacket → Packet
  ping : List ℕ → Packet
  unix_msg : UnixMsgPacket → Packet

pub data PacketType : Type 0 where
  binary text http ping unix_msg auto : PacketType

unfoldable pub get_type : Packet → PacketType
get_type (binary b) = PacketType.binary
get_type (text t) = PacketType.text
get_type (http h) = PacketType.http
get_type (ping d) = PacketType.ping
get_type (unix_msg u) = PacketType.unix_msg

unfoldable pub type_eq : PacketType → PacketType → Bool
type_eq PacketType.binary PacketType.binary = Bool.true
type_eq PacketType.text PacketType.text = Bool.true
type_eq PacketType.http PacketType.http = Bool.true
type_eq PacketType.ping PacketType.ping = Bool.true
type_eq PacketType.unix_msg PacketType.unix_msg = Bool.true
type_eq PacketType.auto PacketType.auto = Bool.true
type_eq _ _ = Bool.false

abbrev pub packet_max_length : ℕ
packet_max_length = 0xffffff

-- What `ParseFromBytes` returns: the error, the packet and the number of bytes taken.
abbrev pub Parsed : Type 0
Parsed = Option PacketError × Option Packet × ℕ

-- What `ParseFromBuffer` returns, with the buffer that it leaves.
abbrev pub ParsedAll : Type 0
ParsedAll = Option PacketError × List Packet × List ℕ

-- What `Package` returns.
abbrev pub Packaged : Type 0
Packaged = Option PacketError × List ℕ
