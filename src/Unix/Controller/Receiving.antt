-- ===== src/Unix/Controller/Receiving.antt =====
-- unix/controller.go with network/clove.go: a packet that one controller sends and another reads.
use clove.Prelude.{
  ℕ, zero, suc, ◌≡◌, ◌≤◌, ◌+◌, true, false, none, some, List, [], ◌∷◌, length, take, ◌==◌, refl,
  arith, append-nil, ap, ◌∙◌, sym,
}
use clove.Prelude.Run.{returned}
use clove.Prelude.Bytes.{put_uint32}
use clove.Network.Packet.{BinaryPacket, binary, Packaged}
use clove.Network.Formats.{choose_format, clove_packet_format}
use clove.Network.Format.{FormatManager}
use clove.Network.CloveFormat.{package_packet, parse_from_bytes}
use clove.Network.CloveFormat.Frame.{parse-package, IsFramable, without_from}
use clove.Unix.Controller.{
  Socket, datagram, send_packet, read, after_parse, with_from, send_formatted, after_package,
  send_to, after_write,
}

take_whole : (n : ℕ) (xs : List ℕ) → length xs ≤ n → take n xs ≡ xs
take_whole zero [] h = refl
take_whole zero (x ∷ xs) h = absurd (omega arith)
take_whole (suc n) [] h = refl
take_whole (suc n) (x ∷ xs) h = ap (λ (ys : List ℕ). x ∷ ys) (take_whole n xs (omega arith))

package-parsed :
    (p : BinaryPacket)
    → IsFramable p
    → parse_from_bytes (package_packet (binary p)).1
      ≡ (none, some (binary (without_from p)), length p.raw + 5)
package-parsed p h =
    ap parse_from_bytes (sym (append-nil (package_packet (binary p)).1)) ∙ (parse-package p [] h).1

package-length : (p : BinaryPacket) → length (package_packet (binary p)).1 ≡ length p.raw + 5
unfolding package_packet put_uint32
package-length p = omega arith

whole_write :
    (s : Socket) (addr : List ℕ) (o : Packaged)
    → o.0 ≡ none
    → s.resolves addr ≡ true
    → s.sets_deadline ≡ true
    → s.write_to_unix o.1 addr ≡ some (length o.1)
    → after_package s addr o ≡ (datagram addr o.1 [] ∷ [], true)
unfolding after_package send_to after_write
whole_write s addr (some e, raw) h r d w = absurd (cc)
whole_write s addr (none, raw) h r d w =
    let whole : (length raw == length raw) ≡ true = ground arith in rw (r, d, w, whole) refl

-- A binary packet whose frame fits the length field, sent by a controller with the Clove format
-- over a socket that takes it whole, goes out in one datagram; and a controller with that format
-- and a slice that is long enough reads from the datagram that packet, with the address that the
-- socket gives as its sender.
pub read-send_packet :
    (m : FormatManager) (s : Socket) (to_addr from_addr : List ℕ) (limit : ℕ) (p : BinaryPacket)
    → IsFramable p
    → length p.raw + 5 ≤ limit
    → s.resolves to_addr ≡ true
    → s.sets_deadline ≡ true
    → let bytes = (package_packet (binary p)).1 in
      s.write_to_unix bytes to_addr ≡ some (length bytes)
      → (send_packet false (some clove_packet_format) m s to_addr (binary p)
          ≡ (datagram to_addr bytes [] ∷ [], true))
        × (read limit (some clove_packet_format) (some (bytes, from_addr))
            ≡ returned (none, binary (record p { from = from_addr }) ∷ []))
unfolding read after_parse with_from clove_packet_format send_packet send_formatted choose_format
read-send_packet m s to_addr from_addr limit p framable fits r d w =
    let bytes = (package_packet (binary p)).1 in
    let (packaged, _) = parse-package p [] framable in
    let whole : take limit bytes ≡ bytes =
      take_whole limit bytes (omega (arith, package-length p)) in
    (
      whole_write s to_addr (package_packet (binary p)) packaged r d w,
      rw (whole, package-parsed p framable) refl,
    )
