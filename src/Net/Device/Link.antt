-- ===== src/Net/Device/Link.antt =====
-- The reset of the device, its addresses and filter, and the state of the link.
use woa_rk.Base.{
  ℕ, zero, suc, ◌+◌, ◌-◌, ◌*◌, ◌/◌, ◌%◌, ◌^◌, Bool, true, false, not, List, [], ◌∷◌, Option, none,
  some, if◌then◌else◌, flag, field, u32, ◌==◌, leb,
}
use woa_rk.Base.Flags.{mask, or_if}

-- What `UpdateLinkState` makes of the speed: bits per second, the value for the clock of the
-- transmitter, and the code for the configuration, if the speed is known.
pub record LinkSpeed : Type 0 where
  pub speed : ℕ
  pub clock : ℕ
  pub select : Option ℕ

unfoldable pub link_speed : (control : ℕ) → LinkSpeed
link_speed control =
    let speed = field control 17 2 in
    if speed == 0
    then record { speed = 10000000; clock = 10; select = some 2 }
    else if speed == 1
    then record { speed = 100000000; clock = 100; select = some 3 }
    else if speed == 2
    then record { speed = 1000000000; clock = 1000; select = some 0 }
    else record { speed = 0; clock = 1000; select = none }

-- A bit field of `w` bits from `lo` on that is stored in a word.
unfoldable pub with_field : (lo w v x : ℕ) → ℕ
with_field lo w v x = x % 2 ^ lo + v * 2 ^ lo + x / 2 ^ (lo + w) * 2 ^ (lo + w)

-- `newConfig`
unfoldable pub new_config : (control config : ℕ) → ℕ
new_config control config =
    let duplex = with_field 13 1 (field control 16 1) config in
    elim ((link_speed control).select) [ none ↦ duplex | some code ↦ with_field 14 2 code duplex ]

-- The words for an address of six bytes: high and low.
unfoldable pub address_words : (enable : Bool) → (ℕ → ℕ) → ℕ × ℕ
address_words enable addr = (
  addr 4 + 256 * addr 5 + (if enable then 2147483648 else 0),
  addr 0 + 256 * (addr 1 + 256 * (addr 2 + 256 * addr 3)),
)

-- The loop of `DeviceReset`, whose counter goes down on 32 bits: `dma_mode n` is what the `n`-th
-- read answers. Whether the reset has ended, or none if the fuel has run out.
unfoldable pub reset_loop : (dma_mode : ℕ → ℕ) (fuel retry n : ℕ) → Option Bool
reset_loop dma_mode zero retry n = none
reset_loop dma_mode (suc fuel) retry n =
    let rest = reset_loop dma_mode fuel (u32 (retry + 4294967295)) (suc n) in
    if retry == 1000 then some false else if flag (dma_mode n) 0 then rest else some true

-- `DeviceReset`
unfoldable pub device_reset : (dma_mode : ℕ → ℕ) (fuel : ℕ) → Option Bool
device_reset dma_mode fuel = reset_loop dma_mode fuel 0 0

-- What the framework asks to receive: the flags of the packet filter, and the addresses of groups,
-- each with its length.
pub record ReceiveFilter : Type 0 where
  pub promiscuous : Bool
  pub all_multicast : Bool
  pub multicast : Bool
  pub broadcast : Bool
  pub directed : Bool
  pub groups : List (ℕ × (ℕ → ℕ))

-- The word for Mac_Packet_Filter.
unfoldable pub packet_filter : ReceiveFilter → ℕ
packet_filter f =
    if f.promiscuous
    then mask (0 ∷ [])
    else or_if (not f.broadcast) (mask (5 ∷ [])) (or_if f.all_multicast (mask (4 ∷ [])) 0)

-- The words for the address registers from the second on, `count` of them.
unfoldable pub group_words : (count : ℕ) → List (ℕ × (ℕ → ℕ)) → List (ℕ × ℕ)
group_words zero groups = []
group_words (suc count) [] = address_words false (λ i. 0) ∷ group_words count []
group_words (suc count) (g ∷ gs) =
    let enable = leb 6 g.0 in
    address_words enable (if enable then g.1 else λ i. 0) ∷ group_words count gs

-- The address registers that `AdapterSetReceiveFilter` stores, of which the device has `count`.
unfoldable pub filter_addresses : (count : ℕ) (current : ℕ → ℕ) → ReceiveFilter → List (ℕ × ℕ)
filter_addresses count current f =
    if f.promiscuous
    then []
    else address_words f.directed current
      ∷ group_words (count - 1) (if f.multicast then f.groups else [])
