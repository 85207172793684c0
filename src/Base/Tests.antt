-- ===== src/Base/Tests.antt =====
-- The theorems of the base package at concrete values.
mod Host
use mathlib.Core.List.{Permᴰ}
use clove.Prelude.{refl, ℕ, ◌≡◌, [], ◌∷◌, arith}
use clove.Prelude.Bytes.{big_endian}
use clove.Base.Id.{MachineId, get_hash}
use clove.Base.Id.Distinct.{next_id_with_seed-distinct}
use clove.Base.Id.Machine.{get_hash-perm}
use clove.Prelude.Run.{returned}
use clove.Base.Mask.{mask_bytes, un_mask_bytes}
use clove.Base.Mask.RoundTrip.{un_mask_bytes-mask_bytes}

un_mask_bytes-mask_bytes_example :
    un_mask_bytes (mask_bytes (200 ∷ 3 ∷ 255 ∷ 17 ∷ 90 ∷ []) 0xa5 3) 3
    ≡ returned (0xa5, 200 ∷ 3 ∷ 255 ∷ 17 ∷ 90 ∷ [])
un_mask_bytes-mask_bytes_example =
    un_mask_bytes-mask_bytes (200 ∷ 3 ∷ 255 ∷ 17 ∷ 90 ∷ []) 0xa5 3 (omega arith) (omega arith)
      (omega arith, (omega arith, (omega arith, (omega arith, (omega arith, tt)))))

abbrev some_pid : ℕ
some_pid = 70000

abbrev some_seed : ℕ
some_seed = 5

next_id_with_seed-distinct_example : (some_pid ≡ some_pid) × (some_seed ≡ some_seed)
next_id_with_seed-distinct_example =
    next_id_with_seed-distinct big_endian some_pid some_pid some_seed some_seed (omega arith)
      (omega arith) (omega arith) (omega arith) refl
