-- ===== src/Base/Id/Collect.antt =====
-- base/id.go: `GetMachineID` and `parseIp`, over what the operating system lists.
pub mod Order
use clove.Prelude.{
  ℕ, suc, ◌+◌, ◌-◌, ◌^◌, Bool, true, false, not, ◌&&◌, ◌||◌, Option, none, some, List, [], ◌∷◌,
  length, ltb, ◌==◌, if◌then◌else◌,
}
use clove.Prelude.Int.{ℤ, pos, negsuc, ltb_ℤ}
use clove.Prelude.Decimal.{parse_int, parse_digits}
use clove.Base.Id.{MachineId}

-- What the net package does with an IP, of which nil is one.
pub record IpLib : Type 1 where
  pub Ip : Type 0
  pub parse_ip : List ℕ → Ip
  pub is_global_unicast : Ip → Bool
  pub is_interface_local_multicast : Ip → Bool
  pub is_link_local_multicast : Ip → Bool
  pub is_link_local_unicast : Ip → Bool
  pub is_loopback : Ip → Bool
  pub is_multicast : Ip → Bool
  pub is_unspecified : Ip → Bool

-- The text of its hardware address, and those of its addresses.
pub record Interface : Type 0 where
  pub hardware_addr : List ℕ
  pub addrs : List (List ℕ)

-- `len(strings.Split(s, "."))`
unfoldable dotted_parts : List ℕ → ℕ
dotted_parts [] = 1
dotted_parts (c ∷ s) = if c == b'.' then dotted_parts s + 1 else dotted_parts s

-- The text before the first slash and the text behind it.
unfoldable split_mask : List ℕ → Option (List ℕ × List ℕ)
split_mask [] = none
split_mask (c ∷ s) =
    if c == b'/'
    then some ([], s)
    else elim (split_mask s) [ none ↦ none | some (addr, mask) ↦ some (c ∷ addr, mask) ]

-- What strconv.Atoi returns beside an error: 0 for a text that is no number, and the bound for one
-- that is out of range.
unfoldable out_of_range : List ℕ → ℤ
unfolding parse_digits
out_of_range [] = pos 0
out_of_range (c ∷ []) = pos 0
out_of_range (c ∷ d ∷ s) =
    if c == b'-'
    then elim (parse_digits 0 (d ∷ s)) [ none ↦ pos 0 | some n ↦ negsuc (2 ^ 63 - 1) ]
    else if c == b'+'
    then elim (parse_digits 0 (d ∷ s)) [ none ↦ pos 0 | some n ↦ pos (2 ^ 63 - 1) ]
    else elim (parse_digits 0 (c ∷ d ∷ s)) [ none ↦ pos 0 | some n ↦ pos (2 ^ 63 - 1) ]

unfoldable atoi : List ℕ → ℤ
unfolding parse_int out_of_range
atoi s = elim (parse_int s) [ none ↦ out_of_range s | some n ↦ n ]

unfoldable pub collect_cpus : List (List ℕ) → List (List ℕ)
collect_cpus [] = []
collect_cpus (p ∷ ps) = if ltb 0 (length p) then p ∷ collect_cpus ps else collect_cpus ps

module _ (lib : IpLib) where
  -- The IP of the IPNet; its mask is not used.
  unfoldable parse_ip_net : List ℕ → Option lib.Ip
  unfolding split_mask atoi
  parse_ip_net s = elim (split_mask s) [
    | none ↦ none
    | some (addr, mask) ↦
        if ltb_ℤ (pos 32) (atoi mask) || ltb_ℤ (atoi mask) (pos 0)
        then none
        else some (lib.parse_ip addr)
  ]

  -- The loop over the addresses: the first one of four parts.
  unfoldable find_ipv4 : List (List ℕ) → Option lib.Ip
  unfolding dotted_parts parse_ip_net
  find_ipv4 [] = none
  find_ipv4 (s ∷ ss) = if dotted_parts s == 4 then parse_ip_net s else find_ipv4 ss

  unfoldable is_usable_ip : lib.Ip → Bool
  is_usable_ip ip =
      lib.is_global_unicast ip
      && not (lib.is_interface_local_multicast ip)
      && not (lib.is_link_local_multicast ip)
      && not (lib.is_link_local_unicast ip)
      && not (lib.is_loopback ip)
      && not (lib.is_multicast ip)
      && not (lib.is_unspecified ip)

  -- Whether the address of an interface is taken.
  unfoldable pub is_usable : Interface → Bool
  unfolding find_ipv4 is_usable_ip
  is_usable i =
      ltb 0 (length i.hardware_addr)
      && (elim (find_ipv4 i.addrs) [ none ↦ false | some ip ↦ is_usable_ip ip ])

  unfoldable pub collect_addrs : List Interface → List (List ℕ)
  unfolding is_usable
  collect_addrs [] = []
  collect_addrs (i ∷ is) =
      if is_usable i then i.hardware_addr ∷ collect_addrs is else collect_addrs is

  -- `GetMachineID`: the physical ids of the processors and the interfaces, `none` where listing
  -- them is an error.
  unfoldable pub get_machine_id : Option (List (List ℕ)) → Option (List Interface) → MachineId
  unfolding collect_addrs collect_cpus
  get_machine_id cpus nets = record {
    cpu_id = elim cpus [ none ↦ [] | some ps ↦ collect_cpus ps ];
    hw_addr = elim nets [ none ↦ [] | some is ↦ collect_addrs is ];
  }
