-- ===== src/Net/Index.antt =====
-- The index arithmetic of both queues over a ring of descriptors (`& descMask` on UINT32).
use woa_rk.Base.{ℕ, ◌+◌, ◌-◌, ◌<◌, ◌≡◌, ◌==◌, if◌then◌else◌, u32, bit_and, arith}
use woa_rk.Net.Adapter.{succ_mod}
use woa_rk.Net.Ring.{dist}
use woa_rk.Net.Queue.{IsDescriptorCount, mask_lem}

-- `(i + 1) & descMask`
unfoldable pub desc_next : ℕ → ℕ → ℕ
desc_next count i = bit_and (u32 (i + 1)) (count - 1)

-- `(descBegin - 1u) & descMask`
unfoldable pub desc_full : ℕ → ℕ → ℕ
desc_full count begin = bit_and (u32 (begin + 4294967295)) (count - 1)

-- `EMPTY_DESC_REMAINING(i)`: `(descBegin - 1u - i) & descMask`
unfoldable pub desc_remaining : ℕ → ℕ → ℕ → ℕ
desc_remaining count begin i = bit_and (u32 (u32 (begin + 4294967295) + 4294967296 - i)) (count - 1)

pub desc_next_lem : {c : ℕ} (i : ℕ) → IsDescriptorCount c → i < c → desc_next c i ≡ succ_mod c i
unfolding desc_next
desc_next_lem {c} i v h = ground (arith, mask_lem (u32 (i + 1)) v)

pub desc_full_lem :
    {c : ℕ} (b : ℕ)
    → IsDescriptorCount c
    → b < c
    → desc_full c b ≡ (if b == 0 then c - 1 else b - 1)
unfolding desc_full
desc_full_lem {c} b v h = ground (arith, mask_lem (u32 (b + 4294967295)) v)

-- In a ring whose size is a descriptor count, and for two indices in it, the count of free
-- descriptors is the size less the hole and less the distance from `b` to `i`.
pub desc_remaining_lem :
    {c : ℕ} (b i : ℕ)
    → IsDescriptorCount c
    → b < c
    → i < c
    → desc_remaining c b i ≡ c - 1 - dist c b i
unfolding desc_remaining dist
desc_remaining_lem {c} b i v hb hi =
    ground (arith, mask_lem (u32 (u32 (b + 4294967295) + 4294967296 - i)) v)
