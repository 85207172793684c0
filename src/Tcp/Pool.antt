-- ===== src/Tcp/Pool.antt =====
-- tcp/pool.go: `StandardPool`, the controllers of a listener or a connector and their counts.
pub mod Limit
pub mod Registry
use clove.Prelude.{
  ℕ, suc, ◌+◌, ◌-◌, ◌%◌, ◌^◌, ◌≡◌, Bool, true, false, ◌||◌, Option, none, some, List, [], ◌∷◌, ◌++◌,
  ◌==◌, if◌then◌else◌,
}
use clove.Prelude.Int.{ℤ, pos, negsuc, leb_ℤ, ltb_ℤ, to_unsigned, to_signed}
use clove.Prelude.Bytes.{ByteOrder}
use clove.Network.Packet.{Packet, PacketError}

-- `curr` and `top` are the 32-bit patterns of their int32, `total` the 64-bit pattern of its int64.
-- `byte_order` is nil where it is `none`.
-- The sync.Map of controllers is an association list from an id.
pub record StandardPool {ℓ} (C : Type ℓ) : Type ℓ where
  pub byte_order : Option ByteOrder
  pub limit : ℤ
  pub top : ℕ
  pub curr : ℕ
  pub total : ℕ
  pub controllers : List (ℕ × C)

abbrev pub int32 : ℕ → ℤ
int32 w = to_signed (2 ^ 31) (2 ^ 32) w

unfoldable pub create_pool {ℓ} : {C : Type ℓ} → StandardPool C
create_pool = record {
  byte_order = none;
  limit = negsuc 0;
  top = 0;
  curr = 0;
  total = 0;
  controllers = [];
}

unfoldable pub create_pool_with_limit {ℓ} : {C : Type ℓ} → ℤ → StandardPool C
unfolding create_pool
create_pool_with_limit n = record create_pool { limit = n }

unfoldable create_pool_with_byte_order {ℓ} : {C : Type ℓ} → ByteOrder → ℤ → StandardPool C
unfolding create_pool_with_limit
create_pool_with_byte_order b n = record (create_pool_with_limit n) { byte_order = some b }

module _ {ℓ} {C : Type ℓ} where
  unfoldable add_total_num : ℤ → StandardPool C → StandardPool C
  add_total_num n p = record p { total = (p.total + to_unsigned (2 ^ 64) n) % 2 ^ 64 }

  unfoldable pub add_curr_num : ℤ → StandardPool C → StandardPool C
  add_curr_num n p = record p { curr = (p.curr + to_unsigned (2 ^ 32) n) % 2 ^ 32 }

  unfoldable reset_top_num : StandardPool C → StandardPool C
  reset_top_num p = if ltb_ℤ (int32 p.top) (int32 p.curr) then record p { top = p.curr } else p

  unfoldable get_curr_num : StandardPool C → ℤ
  get_curr_num p = int32 p.curr

  unfoldable get_total_num : StandardPool C → ℤ
  get_total_num p = to_signed (2 ^ 63) (2 ^ 64) p.total

  unfoldable get_top_num : StandardPool C → ℤ
  get_top_num p = int32 p.top

  -- The conversion of the limit to an int32 keeps its low 32 bits.
  unfoldable pub check_limit : StandardPool C → Bool
  check_limit p =
      leb_ℤ p.limit (pos 0) || ltb_ℤ (int32 p.curr) (int32 (to_unsigned (2 ^ 32) p.limit))

  unfoldable pub store : ℕ → C → List (ℕ × C) → List (ℕ × C)
  store id c [] = (id, c) ∷ []
  store id c ((j, d) ∷ m) = if j == id then (id, c) ∷ m else (j, d) ∷ store id c m

  unfoldable pub load : ℕ → List (ℕ × C) → Option C
  load id [] = none
  load id ((j, d) ∷ m) = if j == id then some d else load id m

  unfoldable pub remove : ℕ → List (ℕ × C) → List (ℕ × C)
  remove id [] = []
  remove id ((j, d) ∷ m) = if j == id then remove id m else (j, d) ∷ remove id m

  unfoldable pub get_controller : ℕ → StandardPool C → Option C
  unfolding load
  get_controller id p = load id p.controllers

  abbrev pub update_found : (C → C) → ℕ → Option C → StandardPool C → StandardPool C
  unfolding store
  update_found f id none p = p
  update_found f id (some c) p = record p { controllers = store id (f c) p.controllers }

  -- `f` is what is done to the controller of the id: `CloseController` takes its `Exit`.
  unfoldable pub update_controller : (C → C) → ℕ → StandardPool C → StandardPool C
  unfolding get_controller update_found
  update_controller f id p = update_found f id (get_controller id p) p

  unfoldable pub close_controller : (C → C) → ℕ → StandardPool C → StandardPool C
  unfolding update_controller
  close_controller exit id p = update_controller exit id p

  abbrev map_all : (C → C) → List (ℕ × C) → List (ℕ × C)
  map_all f [] = []
  map_all f ((j, d) ∷ m) = (j, f d) ∷ map_all f m

  unfoldable pub broadcast : (Packet → C → C) → Packet → StandardPool C → StandardPool C
  broadcast send pck p = record p { controllers = map_all (send pck) p.controllers }

  unfoldable pub multicast : (Packet → C → C) → Packet → List ℕ → StandardPool C → StandardPool C
  unfolding update_controller
  multicast send pck [] p = p
  multicast send pck (id ∷ ids) p = multicast send pck ids (update_controller (send pck) id p)

  unfoldable pub close_pool : StandardPool C → StandardPool C
  close_pool p = record p { controllers = [] }

  unfoldable pub controller_leave : ℕ → StandardPool C → StandardPool C
  unfolding remove add_curr_num
  controller_leave id p =
      add_curr_num (negsuc 0) (record p { controllers = remove id p.controllers })

-- `E` is the errors of the callback.
unfoldable controller_packet_received {ℓ κ} :
    {C : Type ℓ} {E : Type κ} → Option (Packet → C → Option E) → Packet → C → Option E
controller_packet_received none pck c = none
controller_packet_received (some on_controller_packet_received) pck c =
    on_controller_packet_received pck c

pub data AddResult : Type 0 where
  added limited create_failed refused : AddResult

unfoldable pub stored {ℓ} :
    {C : Type ℓ} → Bool → ℕ × C → StandardPool C → AddResult × StandardPool C
unfolding store
stored true (id, c) p = (added, record p { controllers = store id c p.controllers })
stored false _ p = (refused, p)

-- What comes from the channel of `ControllerEnter`: whether there is no error. The callback of a pool
-- that has one gives it.
unfoldable pub controller_enter {ℓ} : {C : Type ℓ} → Option (ℕ × C → Bool) → ℕ × C → Bool
controller_enter none ic = true
controller_enter (some on_controller_enter) ic = on_controller_enter ic

unfoldable pub add_created {ℓ} :
    {C : Type ℓ}
    → Option (ℕ × C)
    → Option (ℕ × C → Bool)
    → StandardPool C
    → AddResult × StandardPool C
unfolding stored
add_created none enter p = (create_failed, p)
add_created (some ic) enter p = stored (controller_enter enter ic) ic p

-- `AddConnection`: `created` is what `CreateController` makes of the connection, with its id, and
-- `enter` is `OnControllerEnter`, where `true` is no error.
unfoldable pub add_connection {ℓ} :
    {C : Type ℓ}
    → Option (ℕ × C)
    → Option (ℕ × C → Bool)
    → StandardPool C
    → AddResult × StandardPool C
unfolding check_limit add_created
add_connection created enter p = if check_limit p then add_created created enter p else (limited, p)
