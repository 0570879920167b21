-- ===== src/Net/Tx/Tests.antt =====
-- The transmit queue on concrete rings.
use woa_rk.Base.{
  ℕ, ◌*◌, ◌<◌, ◌≡◌, ◌≢◌, refl, inl, inr, true, false, if◌then◌else◌, ◌==◌, Bool-cases, ==_iff,
  ==_ne, some, arith,
}
use woa_rk.Net.Adapter.{NetPacket, Layer2Type, Layer3Type, Layer4Type}
use woa_rk.Net.Ring.{dist}
use woa_rk.Net.Tests.{adapter, adapter-IsNetAdapter}
use woa_rk.Net.Tx.Types.{TxQueue}
use woa_rk.Net.Tx.Put.{
  needed, vlan_tag, gso_mss, header_length, fragment_length, context_tag_needed, context_needed,
  measure,
}
use woa_rk.Net.Tx.Fit.{parts}
use woa_rk.Net.Tx.Advance.{advance, cancel, no_control}
use woa_rk.Net.Tx.Whole.{IsSendable, Put, put_lem}
use woa_rk.Net.Tx.Laws.{IsValid, Advanced, Cancelled, advance_lem, cancel_lem}

-- A packet of one fragment that is to be segmented after 54 bytes of headers.
abbrev large_packet : NetPacket
large_packet = record {
  fragment_index = 2;
  fragment_count = 1;
  layout = record {
    layer2_type = Layer2Type.ethernet;
    layer3_type = Layer3Type.unspecified;
    layer4_type = Layer4Type.tcp;
    layer2_header_length = 14;
    layer3_header_length = 20;
    layer4_header_length = 20;
  };
  ignore = false;
}

-- A packet of two fragments.
abbrev small_packet : NetPacket
small_packet = record large_packet { fragment_index = 0; fragment_count = 2 }

-- One packet of each kind waits.
abbrev tx_queue : TxQueue
tx_queue = record {
  regs = record {
    list_address_hi = 0;
    list_address = 65536;
    ring_length = 63;
    tail_pointer = 65536;
    tx_control = no_control;
    flush_tx_queue = false;
  };
  packet_ring = record { number_of_elements = 8; begin_index = 0; next_index = 0; end_index = 2 };
  fragment_ring = record { number_of_elements = 8; begin_index = 0; next_index = 0; end_index = 3 };
  packets = λ x. if x == 0 then small_packet else large_packet;
  fragments = λ f. record { valid_length = if f == 2 then 20000 else 700; offset = 0 };
  tags = λ _. record {
    priority_required = false;
    vlan_required = true;
    priority_code_point = 0;
    vlan_identifier = 7;
  };
  gso = λ x. if x == 0 then 0 else 1460;
  checksums = λ _. record { layer3 = true; layer4 = false };
  logical_address = λ f. 65536 * f;
  descriptors = λ _. record { tdes0 = 0; tdes1 = 0; tdes2 = 0; tdes3 = 0 };
  desc_physical_low = 65536;
  desc_physical_high = 0;
  desc_count = 64;
  vlan_id = 0;
  tx_pbl = 8;
  last_mss = 65535;
  last_vlan_tag = 0;
  desc_begin = 0;
  desc_end = 0;
}

tx_queue-IsValid : IsValid tx_queue
tx_queue-IsValid = record {
  count = inl refl;
  begin_in = omega arith;
  end_in = omega arith;
  pkt_begin_in = omega arith;
  pkt_next_in = omega arith;
  pkt_end_in = omega arith;
  tail = refl;
}

-- Two descriptors and a context for the small packet; two, a header and a context for the large.
tx_needed : (needed adapter tx_queue 0 ≡ 3) × (needed adapter tx_queue 1 ≡ 4)
unfolding needed gso_mss measure context_needed context_tag_needed vlan_tag fragment_length
tx_needed = (refl, refl)

small-IsSendable : IsSendable adapter tx_queue 0
unfolding fragment_length parts gso_mss header_length
small-IsSendable = record {
  short = λ f. ground arith;
  frag_in = omega arith;
  few = omega arith;
  few_parts = omega arith;
  header = λ ne. omega arith;
}

large-IsSendable : IsSendable adapter tx_queue 1
unfolding fragment_length parts gso_mss header_length
large-IsSendable = record {
  short = λ f. ground arith;
  frag_in = omega arith;
  few = omega arith;
  few_parts = omega arith;
  header = λ ne. omega arith;
}

all-IsSendable :
    (x : ℕ)
    → x < 8
    → dist 8 0 x < dist 8 0 2
    → (tx_queue.packets x).ignore ≡ false
    → IsSendable adapter tx_queue x
unfolding dist
all-IsSendable x inside near quiet = elim (Bool-cases (x == 0)) [
  | inl e ↦ rw ((==_iff _ _).0 e) small-IsSendable
  | inr e ↦
      let apart : x ≢ 0 = ==_ne _ _ e in let one : x ≡ 1 = ground arith in rw one large-IsSendable
]

put_lem_example : Put adapter 1 tx_queue 60
put_lem_example =
    put_lem adapter 1 tx_queue 60 (inl refl) (omega arith) large-IsSendable
      (omega (arith, tx_needed))

advance_lem_example :
    (s : TxQueue) × (k m : ℕ) × (advance adapter tx_queue ≡ some (s, 0))
    × Advanced adapter tx_queue s k m
advance_lem_example =
    advance_lem adapter tx_queue adapter-IsNetAdapter tx_queue-IsValid all-IsSendable

cancel_lem_example :
    (s : TxQueue) × (cancel adapter (λ n. 0) (λ n. 0) 1 tx_queue ≡ some s)
    × (s.packet_ring.begin_index ≡ s.packet_ring.end_index)
    × (s.regs.tx_control.start ≡ false)
    × Cancelled adapter (λ n. 0) tx_queue s
cancel_lem_example =
    cancel_lem adapter tx_queue (λ n. 0) (λ n. 0) 1 0 adapter-IsNetAdapter tx_queue-IsValid
      all-IsSendable (omega arith) refl
