-- ===== src/Network/Handshake.antt =====
-- network/ws.go: the origins that are allowed, `HandshakeAck` and `TestMatchScore`, on the requests
-- of package net/http. crypto/sha1 with encoding/base64 is a parameter.
use clove.Prelude.{
  ℕ, Bool, true, false, not, ◌||◌, Option, none, some, List, [], ◌∷◌, ◌++◌, ltb, if◌then◌else◌,
}
use clove.Prelude.Int.{pos, ltb_ℤ}
use clove.Base.Buffer.{Buffer, len, reset}
use clove.Base.Bit.{read_ascii_code}
use clove.Codec.Value.{str_eq}
use clove.Network.Packet.{PacketError, not_ready, not_match, is_damage, library_error}
use clove.Network.Format.{to_lower}
use clove.Network.HttpFormat.{
  HttpLib, Request, is_method, header_end, total_length, http_header_min_length,
  http_max_length_supported,
}

-- `AddOrigin` and `CheckOrigin`.
abbrev add_origin : List (List ℕ) → List (List ℕ) → List (List ℕ)
add_origin more origins = origins ++ more

unfoldable is_listed : List ℕ → List (List ℕ) → Bool
unfolding str_eq
is_listed o [] = false
is_listed o (p ∷ ps) = str_eq p o || is_listed o ps

unfoldable check_origin : List ℕ → List (List ℕ) → Bool
unfolding is_listed
check_origin o [] = true
check_origin o (p ∷ ps) = is_listed o (p ∷ ps)

-- The answer, which holds a hash of the client's key.
unfoldable accept_response : (List ℕ → List ℕ) → List ℕ → List ℕ
accept_response hash key =
    (b'H' ∷ b'T' ∷ b'T' ∷ b'P' ∷ b'/' ∷ b'1' ∷ b'.' ∷ b'1' ∷ 32 ∷ b'1' ∷ b'0' ∷ b'1' ∷ 32 ∷ b'S'
      ∷ b'w' ∷ b'i' ∷ b't' ∷ b'c' ∷ b'h' ∷ b'i' ∷ b'n' ∷ b'g' ∷ 32 ∷ b'P' ∷ b'r' ∷ b'o' ∷ b't'
      ∷ b'o' ∷ b'c' ∷ b'o' ∷ b'l' ∷ b's' ∷ [])
    ++ (13
        ∷ 10
        ∷ ((b'U' ∷ b'p' ∷ b'g' ∷ b'r' ∷ b'a' ∷ b'd' ∷ b'e' ∷ b':' ∷ 32 ∷ b'w' ∷ b'e' ∷ b'b' ∷ b's'
              ∷ b'o' ∷ b'c' ∷ b'k' ∷ b'e' ∷ b't' ∷ [])
            ++ (13
                ∷ 10
                ∷ ((b'C' ∷ b'o' ∷ b'n' ∷ b'n' ∷ b'e' ∷ b'c' ∷ b't' ∷ b'i' ∷ b'o' ∷ b'n' ∷ b':' ∷ 32
                      ∷ b'U' ∷ b'p' ∷ b'g' ∷ b'r' ∷ b'a' ∷ b'd' ∷ b'e' ∷ [])
                    ++ (13
                        ∷ 10
                        ∷ ((b'S' ∷ b'e' ∷ b'c' ∷ b'-' ∷ b'W' ∷ b'e' ∷ b'b' ∷ b'S' ∷ b'o' ∷ b'c'
                              ∷ b'k' ∷ b'e' ∷ b't' ∷ b'-' ∷ b'A' ∷ b'c' ∷ b'c' ∷ b'e' ∷ b'p' ∷ b't'
                              ∷ b':' ∷ 32 ∷ [])
                            ++ (hash (
                                  key
                                  ++ (b'2' ∷ b'5' ∷ b'8' ∷ b'E' ∷ b'A' ∷ b'F' ∷ b'A' ∷ b'5' ∷ b'-'
                                      ∷ b'E' ∷ b'9' ∷ b'1' ∷ b'4' ∷ b'-' ∷ b'4' ∷ b'7' ∷ b'D' ∷ b'A'
                                      ∷ b'-' ∷ b'9' ∷ b'5' ∷ b'C' ∷ b'A' ∷ b'-' ∷ b'C' ∷ b'5' ∷ b'A'
                                      ∷ b'B' ∷ b'0' ∷ b'D' ∷ b'C' ∷ b'8' ∷ b'5' ∷ b'B' ∷ b'1' ∷ b'1'
                                      ∷ []))
                                ++ (13 ∷ 10 ∷ 13 ∷ 10 ∷ []))))))))

-- The error, the acknowledgement and the buffer that is left.
abbrev Ack : Type 0
Ack = (Option PacketError × List ℕ) × Buffer

abbrev no_ack : PacketError → Buffer → Ack
no_ack e b = ((some e, []), b)

module _ (lib : HttpLib) (hash : List ℕ → List ℕ) (origins : List (List ℕ)) where
  unfoldable ack_request : Buffer → ℕ → Option Request → Ack
  unfolding len reset check_origin accept_response total_length str_eq
  ack_request b i none = no_ack library_error b
  ack_request b i (some r) =
      if ltb_ℤ (pos (len b)) r.content_length
      then no_ack not_ready b
      else if ltb_ℤ (pos http_max_length_supported) r.content_length
      then no_ack is_damage b
      else if ltb (len b) (total_length i r.content_length)
      then no_ack not_ready b
      else if not (str_eq r.ws_protocol [])
      then no_ack is_damage b
      else if not (check_origin r.origin origins)
      then no_ack is_damage b
      else ((none, accept_response hash r.ws_key), reset b)

  unfoldable ack_header : Buffer → Option ℕ → Ack
  unfolding ack_request
  ack_header b none = no_ack not_ready b
  ack_header b (some i) = ack_request b i (lib.read_request b)

  unfoldable pub handshake_ack : Buffer → Ack
  unfolding ack_header len is_method header_end
  handshake_ack b =
      if ltb (len b) http_header_min_length
      then no_ack not_ready b
      else if not (is_method (read_ascii_code b))
      then no_ack not_match b
      else ack_header b (header_end b)

-- A request for a websocket scores 99.
unfoldable is_upgrade : Request → Bool
unfolding to_lower str_eq
is_upgrade r = not (
    not (
      str_eq (to_lower r.upgrade)
        (b'w' ∷ b'e' ∷ b'b' ∷ b's' ∷ b'o' ∷ b'c' ∷ b'k' ∷ b'e' ∷ b't' ∷ []))
    || not (str_eq (to_lower r.connection) (b'u' ∷ b'p' ∷ b'g' ∷ b'r' ∷ b'a' ∷ b'd' ∷ b'e' ∷ []))
    || str_eq r.ws_key []
    || str_eq r.ws_version [])

unfoldable upgrade_score : ℕ → Option Request → Option ℕ
unfolding is_upgrade
upgrade_score n none = some 0
upgrade_score n (some r) =
    if ltb_ℤ (pos n) r.content_length || ltb_ℤ (pos http_max_length_supported) r.content_length
    then some 0
    else if is_upgrade r
    then some 99
    else some 0

unfoldable ws_match_score : HttpLib → Buffer → Option ℕ
unfolding upgrade_score len is_method
ws_match_score lib b =
    if ltb (len b) http_header_min_length
    then none
    else if not (is_method (read_ascii_code b))
    then none
    else upgrade_score (len b) (lib.read_request b)
