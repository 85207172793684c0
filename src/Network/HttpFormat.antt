-- ===== src/Network/HttpFormat.antt =====
-- network/http.go: `HTTPPacketParser` and `HTTPPacketPackager`. Package net/http is a parameter.
pub mod Fuel
pub mod Body
pub mod Response
use clove.Prelude.Decimal.{show_nat}
use clove.Prelude.{
  ℕ, zero, suc, ◌+◌, ◌/◌, ◌%◌, Bool, true, false, not, ◌&&◌, ◌||◌, Option, none, some, List, [],
  ◌∷◌, ◌++◌, length, ltb, ◌==◌, if◌then◌else◌,
}
use clove.Prelude.Int.{ℤ, pos, negsuc, leb_ℤ, ltb_ℤ}
use clove.Base.Buffer.{Buffer, next, peek, len}
use clove.Base.Bit.{read_ascii_code}
use clove.Network.Packet.{
  PacketError, unsupported, not_ready, not_match, is_damage, library_error, Packet, http,
  HttpPacket, Parsed, ParsedAll, Packaged,
}
use clove.Codec.Value.{str_eq}

-- Of a *http.Request: `ContentLength`, which is -1 if it is not known, and the headers that the
-- package asks for, empty where `Header.Get` finds none.
pub record Request : Type 0 where
  pub content_length : ℤ
  pub upgrade : List ℕ
  pub connection : List ℕ
  pub origin : List ℕ
  pub ws_key : List ℕ
  pub ws_version : List ℕ
  pub ws_protocol : List ℕ

-- Package net/http on the bytes of a buffer: `ReadRequest`, `none` for an error; whether
-- `ParseMultipartForm` of that request gives no error; and what `Read` of its body gives.
pub record HttpLib : Type 0 where
  pub read_request : List ℕ → Option Request
  pub has_form : List ℕ → Bool
  pub read_body : List ℕ → Option (List ℕ)

abbrev pub http_header_min_length : ℕ
http_header_min_length = 16

abbrev pub http_max_length_supported : ℕ
http_max_length_supported = 0x100000

-- The first byte of GET, and of POST, PUT and PATCH.
unfoldable pub is_method : ℕ → Bool
is_method c = c == 71 || c == 80

unfoldable pub starts_blank : List ℕ → Bool
starts_blank (a ∷ b ∷ c ∷ d ∷ r) = a == 13 && b == 10 && c == 13 && d == 10
starts_blank _ = false

abbrev pub next_index : Option ℕ → Option ℕ
next_index none = none
next_index (some i) = some (suc i)

-- `strings.Index(pStr, "\r\n\r\n")`
unfoldable pub header_end : List ℕ → Option ℕ
unfolding starts_blank
header_end [] = none
header_end (c ∷ s) = if starts_blank (c ∷ s) then some 0 else next_index (header_end s)

-- `lengthTotal`
unfoldable pub total_length : ℕ → ℤ → ℕ
total_length i (pos n) = i + 4 + n
total_length i (negsuc n) = i + 4

abbrev pub http_packet : List ℕ → Packet
http_packet bytes = http (record {
  response_header = [];
  body = bytes;
  status_code = 0;
  status_text = [];
  http_ver = [];
})

-- One round of the loop of `ParseFromBuffer`: it breaks and leaves a buffer, it returns an error
-- and no packet, or it has one more packet.
pub data Round : Type 0 where
  kept : Buffer → Round
  refused : PacketError → Buffer → Round
  again : Packet → Buffer → Round

abbrev body_or_empty : Option (List ℕ) → List ℕ
body_or_empty none = []
body_or_empty (some bytes) = bytes

-- `ParseFromBytes` without an error has a packet.
unfoldable pub after_take : Parsed → Buffer → Round
after_take (some not_ready, p, n) rest = kept rest
after_take (some e, p, n) rest = refused e rest
after_take (none, none, n) rest = kept rest
after_take (none, some p, n) rest = again p rest

abbrev pub after_round : List Packet → Round → (Packet → Buffer → ParsedAll) → ParsedAll
after_round pcks (kept rest) go = (none, pcks, rest)
after_round pcks (refused e rest) go = (some e, [], rest)
after_round pcks (again p rest) go = go p rest

-- `TestMatchScore` of a request: the scores by its length are overwritten, but for one return.
abbrev request_score : ℕ → Option Request → Option ℕ
unfolding str_eq
request_score n none = some 0
request_score n (some r) =
    if not (str_eq r.upgrade [])
    then none
    else if ltb_ℤ (pos n) r.content_length
    then some 90
    else if ltb_ℤ (pos http_max_length_supported) r.content_length
    then some 0
    else some 90

module _ (lib : HttpLib) where
  -- The body of a request that has one of a supported length and is no form.
  unfoldable pub request_body : List ℕ → Request → List ℕ
  request_body input r =
      if ltb_ℤ (pos 0) r.content_length && leb_ℤ r.content_length (pos http_max_length_supported)
      then (if lib.has_form input then [] else body_or_empty (lib.read_body input))
      else []

  abbrev parsed_request : List ℕ → Option Request → Parsed
  parsed_request input none = (some not_match, none, 0)
  parsed_request input (some r) = (none, some (http_packet (request_body input r)), 0)

  unfoldable parse_http_bytes : List ℕ → Parsed
  unfolding is_method
  parse_http_bytes input =
      if not (is_method (read_ascii_code input))
      then (some not_match, none, 0)
      else parsed_request input (lib.read_request input)

  unfoldable pub take_request : Buffer → ℕ → Round
  unfolding after_take parse_http_bytes next len
  take_request b total =
      let ((input, n), rest) = next total b in
      if ltb (len b) total then kept b else after_take (parse_http_bytes input) rest

  unfoldable pub with_request : Buffer → ℕ → Option Request → Round
  unfolding take_request len
  with_request b i none = refused library_error b
  with_request b i (some r) =
      if ltb_ℤ (pos (len b)) r.content_length
      then kept b
      else if ltb_ℤ (pos http_max_length_supported) r.content_length
      then refused is_damage b
      else take_request b (total_length i r.content_length)

  unfoldable pub with_header : Buffer → Option ℕ → Round
  unfolding with_request
  with_header b none = kept b
  with_header b (some i) = with_request b i (lib.read_request b)

  unfoldable pub round : Buffer → Round
  unfolding with_header len is_method header_end
  round b =
      if ltb (len b) http_header_min_length
      then kept b
      else if not (is_method (read_ascii_code b))
      then refused not_match b
      else with_header b (header_end b)

  unfoldable pub parse_http_loop : ℕ → Buffer → List Packet → ParsedAll
  unfolding round
  parse_http_loop zero b pcks = (none, pcks, b)
  parse_http_loop (suc fuel) b pcks =
      after_round pcks (round b) (λ p rest. parse_http_loop fuel rest (pcks ++ (p ∷ [])))

  -- Each round takes at least four bytes, so the length of the buffer is fuel enough.
  unfoldable pub parse_http_buffer : Buffer → ParsedAll
  unfolding parse_http_loop
  parse_http_buffer b = parse_http_loop (suc (length b)) b []

  unfoldable http_match_score : Buffer → Option ℕ
  unfolding is_method len
  http_match_score b =
      if ltb (len b) http_header_min_length
      then none
      else if not (is_method (read_ascii_code b))
      then none
      else request_score (len b) (lib.read_request b)

unfoldable pub join_with : List ℕ → List (List ℕ) → List ℕ
join_with sep [] = []
join_with sep (s ∷ []) = s
join_with sep (s ∷ t ∷ ss) = s ++ (sep ++ join_with sep (t ∷ ss))

-- The headers in the order of the iteration over their map.
unfoldable pub set_header :
    List ℕ → List (List ℕ) → List (List ℕ × List (List ℕ)) → List (List ℕ × List (List ℕ))
unfolding str_eq
set_header k v [] = (k, v) ∷ []
set_header k v ((j, w) ∷ hs) = if str_eq j k then (k, v) ∷ hs else (j, w) ∷ set_header k v hs

unfoldable pub header_lines : List (List ℕ × List (List ℕ)) → List (List ℕ)
unfolding join_with
header_lines [] = []
header_lines ((k, v) ∷ hs) = (k ++ ((58 ∷ 32 ∷ []) ++ join_with (b';' ∷ []) v)) ∷ header_lines hs

abbrev pub crlf : List ℕ
crlf = 13 ∷ 10 ∷ []

unfoldable pub status_line : HttpPacket → List ℕ
unfolding show_nat
status_line p =
    (b'H' ∷ b'T' ∷ b'T' ∷ b'P' ∷ b'/' ∷ [])
    ++ (p.http_ver ++ (32 ∷ (show_nat p.status_code ++ (32 ∷ p.status_text))))

abbrev pub content_length_name : List ℕ
content_length_name =
    (b'C' ∷ b'o' ∷ b'n' ∷ b't' ∷ b'e' ∷ b'n' ∷ b't' ∷ b'-' ∷ b'L' ∷ b'e' ∷ b'n' ∷ b'g' ∷ b't' ∷ b'h'
      ∷ [])

unfoldable pub response_lines : HttpPacket → List (List ℕ)
unfolding set_header header_lines show_nat
response_lines p =
    header_lines (set_header content_length_name (show_nat (length p.body) ∷ []) p.response_header)

unfoldable pub response : HttpPacket → List ℕ
unfolding status_line response_lines join_with
response p =
    status_line p ++ (crlf ++ (join_with crlf (response_lines p) ++ (crlf ++ (crlf ++ p.body))))

unfoldable pub package_http : Packet → Packaged
unfolding response
package_http (http p) = (none, response p)
package_http _ = (some unsupported, [])
