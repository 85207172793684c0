-- ===== src/Unix/Controller/Sending.antt =====
-- unix/controller.go: what `SendPacket` has written when it returns true.
use clove.Prelude.{
  ℕ, ◌≡◌, Bool, true, false, not, ◌⊎◌, inl, inr, Option, none, some, List, [], ◌∷◌, length, ◌==◌,
  refl, Bool-cases, ◌||◌, ap,
}
use clove.Network.Packet.{
  Packet, unix_msg, UnixMsgPacket, PacketType, get_type, type_eq, PacketError, Packaged, binary,
  text, http, ping,
}
use clove.Network.Formats.{choose_format}
use clove.Network.Format.{PacketFormat, FormatManager}
use clove.Unix.Controller.{
  Socket, Datagram, datagram, send_to, after_write, write_msg, after_write_msg, send_msg_packet,
  succeeded, after_package, send_formatted, send_packet,
}

-- The whole packet went out: its packaged bytes, or for a message its bytes and descriptors; or,
-- the third case, the packager refused it and nothing went out.
abbrev pub IsSent : Option PacketFormat → FormatManager → List ℕ → Packet → List Datagram → Type 0
IsSent fmt m addr p ds =
    ((u : UnixMsgPacket) × (p ≡ unix_msg u) × (ds ≡ datagram addr u.b u.oob ∷ []))
    ⊎ ((f : PacketFormat) × (raw : List ℕ) × (choose_format fmt m p ≡ some f)
        × (f.packager p ≡ (none, raw))
        × (ds ≡ datagram addr raw [] ∷ []))
    ⊎ ((f : PacketFormat) × (e : PacketError) × (choose_format fmt m p ≡ some f)
        × ((f.packager p).0 ≡ some e)
        × (ds ≡ []))

after_write-true :
    (addr bytes : List ℕ) (o : Option ℕ)
    → (succeeded (after_write addr bytes o)).1 ≡ true
    → (succeeded (after_write addr bytes o)).0 ≡ datagram addr bytes [] ∷ []
unfolding after_write
after_write-true addr bytes none h = absurd (cc)
after_write-true addr bytes (some n) h = elim (Bool-cases (n == length bytes)) [
  | inl e ↦ rw e refl
  | inr e ↦ absurd (cc (rw e at h))
]

send_to-true :
    (s : Socket) (addr bytes : List ℕ)
    → (succeeded (send_to s addr bytes)).1 ≡ true
    → (succeeded (send_to s addr bytes)).0 ≡ datagram addr bytes [] ∷ []
unfolding send_to
send_to-true s addr bytes h = elim (Bool-cases (s.resolves addr)) [
  | inl r ↦ elim (Bool-cases s.sets_deadline) [
    | inl d ↦ rw (r, d) (after_write-true addr bytes (s.write_to_unix bytes addr) (rw (r, d) at h))
    | inr d ↦ absurd (cc (rw (r, d) at h))
  ]
  | inr r ↦ absurd (cc (rw r at h))
]

after_write_msg-true :
    (addr : List ℕ) (u : UnixMsgPacket) (o : Option (ℕ × ℕ))
    → (succeeded (after_write_msg addr u o)).1 ≡ true
    → (succeeded (after_write_msg addr u o)).0 ≡ datagram addr u.b u.oob ∷ []
unfolding after_write_msg
after_write_msg-true addr u none h = absurd (cc)
after_write_msg-true addr u (some (n, k)) h =
    elim (Bool-cases (not (n == length u.b) || not (k == length u.oob))) [
      | inl e ↦ absurd (cc (rw e at h))
      | inr e ↦ rw e refl
    ]

write_msg-true :
    (s : Socket) (addr : List ℕ) (p : Packet)
    → (succeeded (write_msg s addr p)).1 ≡ true
    → (u : UnixMsgPacket) × (p ≡ unix_msg u)
      × ((succeeded (write_msg s addr p)).0 ≡ datagram addr u.b u.oob ∷ [])
unfolding write_msg
write_msg-true s addr (unix_msg u) h =
    (u, refl, after_write_msg-true addr u (s.write_msg_unix u.b u.oob addr) h)
write_msg-true s addr (binary b) h = absurd (cc)
write_msg-true s addr (text t) h = absurd (cc)
write_msg-true s addr (http r) h = absurd (cc)
write_msg-true s addr (ping d) h = absurd (cc)

send_msg_packet-true :
    (s : Socket) (addr : List ℕ) (p : Packet)
    → (succeeded (send_msg_packet s addr p)).1 ≡ true
    → (u : UnixMsgPacket) × (p ≡ unix_msg u)
      × ((succeeded (send_msg_packet s addr p)).0 ≡ datagram addr u.b u.oob ∷ [])
unfolding send_msg_packet
send_msg_packet-true s addr p h = elim (Bool-cases (s.resolves addr)) [
  | inl r ↦ rw r (write_msg-true s addr p (rw r at h))
  | inr r ↦ absurd (cc (rw r at h))
]

-- The second and third case.
abbrev IsFormatted : Socket → List ℕ → Packet → PacketFormat → List Datagram → Type 0
IsFormatted s addr p f ds =
    ((raw : List ℕ) × (f.packager p ≡ (none, raw)) × (ds ≡ datagram addr raw [] ∷ []))
    ⊎ ((e : PacketError) × ((f.packager p).0 ≡ some e) × (ds ≡ []))

after_package-true :
    (s : Socket) (addr : List ℕ) (p : Packet) (f : PacketFormat) (o : Packaged)
    → f.packager p ≡ o
    → (after_package s addr o).1 ≡ true
    → IsFormatted s addr p f (after_package s addr o).0
unfolding after_package
after_package-true s addr p f (none, raw) e h = inl (raw, e, send_to-true s addr raw h)
after_package-true s addr p f (some x, raw) e h = inr (x, ap (λ (o : Packaged). o.0) e, refl)

send_formatted-true :
    (s : Socket) (addr : List ℕ) (p : Packet) (fmt : Option PacketFormat) (m : FormatManager)
    (o : Option PacketFormat)
    → choose_format fmt m p ≡ o
    → (send_formatted s addr p o).1 ≡ true
    → IsSent fmt m addr p (send_formatted s addr p o).0
unfolding send_formatted
send_formatted-true s addr p fmt m none e h = absurd (cc)
send_formatted-true s addr p fmt m (some f) e h =
    elim (after_package-true s addr p f (f.packager p) refl h) [
      | inl (raw, packaged, ds) ↦ inr (inl (f, raw, e, packaged, ds))
      | inr (x, refused, ds) ↦ inr (inr (f, x, e, refused, ds))
    ]

-- If `SendPacket` returns true, the controller had not begun to exit, and either the whole packet
-- went out to the address in one datagram, a message with all of its out-of-band data, or the
-- packager of the format refused the packet and nothing went out.
pub send_packet-IsSent :
    (exiting : Bool) (fmt : Option PacketFormat) (m : FormatManager) (s : Socket) (addr : List ℕ)
    (p : Packet)
    → (send_packet exiting fmt m s addr p).1 ≡ true
    → (exiting ≡ false) × IsSent fmt m addr p (send_packet exiting fmt m s addr p).0
unfolding send_packet
send_packet-IsSent true fmt m s addr p h = absurd (cc)
send_packet-IsSent false fmt m s addr p h =
    elim (Bool-cases (type_eq (get_type p) PacketType.unix_msg)) [
      | inl e ↦ (refl, rw e (inl (send_msg_packet-true s addr p (rw e at h))))
      | inr e ↦
          (refl, rw e (send_formatted-true s addr p fmt m (choose_format fmt m p) refl (rw e at h)))
    ]
