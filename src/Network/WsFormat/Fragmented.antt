-- ===== src/Network/WsFormat/Fragmented.antt =====
-- network/ws.go: a message in two frames of which the second one is cut.
use clove.Prelude.{
  ℕ, suc, ◌+◌, ◌<◌, ◌≤◌, ◌^◌, ◌%◌, ◌/◌, ◌≡◌, refl, true, false, arith, List, [], ◌∷◌, ◌++◌, length,
  drop, none, some, ltb, length-append, drop-append_self, ◌∙◌,
}
use clove.Prelude.Run.{returned}
use clove.Network.Packet.{is_damage}
use clove.Network.WsFormat.{
  parse_from_bytes, length_bytes, plain_text, get_frame_lengths, parse_frames, check_finish_frame,
  check_finish_frame_loop,
}
use clove.Network.WsFormat.Single.{get_frame_lengths-frame, get_payload_data-frame, frame_fits}

drop-append_append :
    (head raw rest : List ℕ) → drop (length head + length raw) (head ++ (raw ++ rest)) ≡ rest
drop-append_append [] raw rest =
    let e : 0 + length raw ≡ length raw = omega arith in rw e (drop-append_self raw rest)
drop-append_append (x ∷ head) raw rest =
    let e : suc (length head) + length raw ≡ suc (length head + length raw) = omega arith in
    rw e (drop-append_append head raw rest)

get_frame_lengths-small :
    (b0 n : ℕ) (c : List ℕ) → n ≤ 125 → get_frame_lengths (b0 ∷ n ∷ c) ≡ returned (2, some (2 + n))
unfolding get_frame_lengths
get_frame_lengths-small b0 n c h =
    let top : n / 2 ^ 7 ≡ 0 = omega arith in let low : n % 2 ^ 7 ≡ n = omega arith in ground arith

cut_is_waiting :
    (fuel n k : ℕ) (a c : List ℕ)
    → n ≤ 125
    → length c < n
    → parse_frames (suc fuel) (0x80 ∷ n ∷ c) (some (plain_text a)) true k
      ≡ returned (none, some (plain_text a), k)
unfolding parse_frames
cut_is_waiting fuel n k a c h l =
    let short : ltb (suc (suc (length c))) (2 + n) ≡ true = ground arith in
    rw (get_frame_lengths-small 0x80 n c h, parse_frames) (rw short refl)

first_is_read :
    (fuel : ℕ) (a rest : List ℕ)
    → length a < 2 ^ 32
    → let h = length (length_bytes (length a)) in
      parse_frames (suc fuel) (0x01 ∷ (length_bytes (length a) ++ (a ++ rest))) none false 0
      ≡ parse_frames fuel rest (some (plain_text a)) true (suc (h + length a))
unfolding parse_frames
first_is_read fuel a rest ha =
    let (two, fits, total) = frame_fits a rest in
    let behind = drop-append_append (0x01 ∷ length_bytes (length a)) a rest in
    rw (get_frame_lengths-frame 0x01 a rest ha, parse_frames)
      (rw fits (rw (get_payload_data-frame 0x01 a rest, behind, total) refl))

finish_is_seen :
    (a c : List ℕ)
    → length a < 2 ^ 32
    → check_finish_frame (0x01 ∷ (length_bytes (length a) ++ (a ++ (0x80 ∷ c)))) ≡ returned true
unfolding check_finish_frame check_finish_frame_loop
finish_is_seen a c ha =
    let (two, fits, total) = frame_fits a (0x80 ∷ c) in
    let behind = drop-append_append (0x01 ∷ length_bytes (length a)) a (0x80 ∷ c) in
    rw (two, get_frame_lengths-frame 0x01 a (0x80 ∷ c) ha, check_finish_frame_loop)
      (rw (fits, behind) refl)

last_is_seen : (n : ℕ) (c : List ℕ) → check_finish_frame (0x80 ∷ n ∷ c) ≡ returned true
unfolding check_finish_frame check_finish_frame_loop
last_is_seen n c = let two : ltb (suc (suc (length c))) 2 ≡ false = ground arith in rw two refl

rest_is_refused :
    (fuel n : ℕ) (c : List ℕ)
    → n ≤ 125
    → length c ≡ n
    → parse_frames (suc fuel) (0x80 ∷ n ∷ c) none false 0 ≡ returned (some is_damage, none, 0)
unfolding parse_frames
rest_is_refused fuel n c h l =
    let whole : ltb (suc (suc (length c))) (2 + n) ≡ false = ground arith in
    rw (get_frame_lengths-small 0x80 n c h, parse_frames) (rw whole refl)

-- A text message in two unmasked frames, the first whole (of fewer than 2^32 bytes) and the second,
-- of at most 125 bytes, cut behind its header: `ParseFromBytes` does not wait, but returns the text
-- of the first frame as a packet and takes that frame. When the second frame has come whole, it is
-- refused as damaged data.
pub parse_from_bytes-cut :
    (a c d : List ℕ)
    → length a < 2 ^ 32
    → length (c ++ d) ≤ 125
    → 0 < length d
    → (parse_from_bytes (0x01 ∷ (length_bytes (length a) ++ (a ++ (0x80 ∷ length (c ++ d) ∷ c))))
        ≡ returned (none, some (plain_text a), suc (length (length_bytes (length a)) + length a)))
      × (parse_from_bytes (0x80 ∷ length (c ++ d) ∷ (c ++ d)) ≡ returned (some is_damage, none, 0))
unfolding parse_from_bytes
parse_from_bytes-cut a c d ha hn hd =
    let n : ℕ = length (c ++ d) in
    let l = length-append c d in
    let k : ℕ = length (length_bytes (length a) ++ (a ++ (0x80 ∷ n ∷ c))) in
    let first = first_is_read (suc k) a (0x80 ∷ n ∷ c) ha in
    let waits =
      cut_is_waiting k n (suc (length (length_bytes (length a)) + length a)) a c hn (omega arith) in
    (
      rw (finish_is_seen a (n ∷ c) ha) (rw (first ∙ waits) refl),
      rw (last_is_seen n (c ++ d)) (rw (rest_is_refused (suc (suc n)) n (c ++ d) hn refl) refl),
    )
