-- ===== src/Net/Adapter.antt =====
-- What drivers/net/dwc_eqos takes from NetAdapterCx: the rings, their elements, and the functions
-- of its headers, which are a parameter of the model.
use woa_rk.Base.{ℕ, ◌+◌, ◌≤◌, ◌<◌, ◌≡◌, Bool, ◌==◌, if◌then◌else◌}

-- `NET_RING`: the driver owns the elements from `begin_index` up to `end_index`, and has taken
-- those below `next_index` into work.
pub record NetRing : Type 0 where
  pub number_of_elements : ℕ
  pub begin_index : ℕ
  pub next_index : ℕ
  pub end_index : ℕ

-- The enumerations of `NET_PACKET_LAYOUT`, as far as the driver names them.
pub data Layer2Type : Type 0 where
  unspecified ethernet : Layer2Type

pub data Layer3Type : Type 0 where
  unspecified ipv4_unspecified_options ipv6_unspecified_extensions : Layer3Type

pub data Layer4Type : Type 0 where
  unspecified tcp udp : Layer4Type

pub record NetPacketLayout : Type 0 where
  pub layer2_type : Layer2Type
  pub layer3_type : Layer3Type
  pub layer4_type : Layer4Type
  pub layer2_header_length : ℕ
  pub layer3_header_length : ℕ
  pub layer4_header_length : ℕ

-- `NET_PACKET_LAYOUT` with every member zero.
abbrev pub no_layout : NetPacketLayout
no_layout = record {
  layer2_type = Layer2Type.unspecified;
  layer3_type = Layer3Type.unspecified;
  layer4_type = Layer4Type.unspecified;
  layer2_header_length = 0;
  layer3_header_length = 0;
  layer4_header_length = 0;
}

pub record NetPacket : Type 0 where
  pub fragment_index : ℕ
  pub fragment_count : ℕ
  pub layout : NetPacketLayout
  pub ignore : Bool

pub record NetFragment : Type 0 where
  pub valid_length : ℕ
  pub offset : ℕ

-- `NET_PACKET_CHECKSUM` on receive.
pub data Evaluation : Type 0 where
  not_checked valid invalid : Evaluation

pub record RxChecksum : Type 0 where
  pub layer2 : Evaluation
  pub layer3 : Evaluation
  pub layer4 : Evaluation

-- `NET_PACKET_IEEE8021Q` on receive.
pub record RxTag : Type 0 where
  pub priority_code_point : ℕ
  pub vlan_identifier : ℕ

-- `NetRingIncrementIndex`, `NetRingAdvanceIndex`, and the widths of the bit fields
-- `NET_FRAGMENT::ValidLength` and `NET_PACKET_IEEE8021Q::VlanIdentifier`.
pub record NetAdapter : Type 0 where
  pub increment : NetRing → ℕ → ℕ
  pub advance : NetRing → ℕ → ℕ → ℕ
  pub valid_length_bits : ℕ
  pub vlan_identifier_bits : ℕ

-- The index behind `i` in a ring of `n` elements.
abbrev pub succ_mod : ℕ → ℕ → ℕ
succ_mod n i = if i + 1 == n then 0 else i + 1

-- What the headers document of them.
pub record IsNetAdapter (net : NetAdapter) : Type 0 where
  pub increment_wraps :
      (r : NetRing) (i : ℕ)
      → i < r.number_of_elements
      → net.increment r i ≡ succ_mod r.number_of_elements i
  pub advance_none : (r : NetRing) (i : ℕ) → i < r.number_of_elements → net.advance r i 0 ≡ i
  pub advance_one_more :
      (r : NetRing) (i k : ℕ)
      → i < r.number_of_elements
      → net.advance r i (k + 1) ≡ net.increment r (net.advance r i k)
  pub length_fits : (15 ≤ net.valid_length_bits) × (net.valid_length_bits ≤ 64)
