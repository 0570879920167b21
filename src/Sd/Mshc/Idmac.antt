-- ===== src/Sd/Mshc/Idmac.antt =====
-- The descriptor table of the internal DMA controller, `MshcCreateIdmacDescriptorTable`.
use woa_rk.Base.{
  ℕ, zero, suc, ◌+◌, ◌-◌, min, List, [], ◌∷◌, ◌++◌, bit_and, bit_or, true, false, ◌==◌, u32,
}
use woa_rk.Base.Flags.{mask, clear}
use woa_rk.Sd.Mshc.Types.{IdmacDescriptor, SgElement}
use woa_rk.Sd.Mshc.Fields.{des0_own, des0_er, des0_fs, des0_ld, des0_dic}

abbrev pub idmac_max_length_per_entry : ℕ
idmac_max_length_per_entry = 0x1000

-- The stores to one descriptor.
unfoldable pub descriptor : (address length : ℕ) → IdmacDescriptor
descriptor address length = record {
  des0 = mask (des0_own ∷ des0_dic ∷ []);
  des1 = bit_and length 0x1FFF;
  des2 = u32 address;
  des3 = 0;
}

-- The inner loop, over what remains of one element, `fuel` rounds at most.
unfoldable pub pieces : (fuel address remaining : ℕ) → List IdmacDescriptor
pieces zero address remaining = []
pieces (suc fuel) address remaining =
    let next = min idmac_max_length_per_entry remaining in
    elim (remaining == 0) [
      | true ↦ []
      | false ↦ descriptor address next ∷ pieces fuel (address + next) (remaining - next)
    ]

-- The outer loop, over the elements. Each round of the inner loop takes one byte or more.
unfoldable pub all_pieces : List SgElement → List IdmacDescriptor
unfolding pieces
all_pieces [] = []
all_pieces (e ∷ es) = pieces e.length e.address e.length ++ all_pieces es

-- `Descriptor[0].Des0 |= ...`
unfoldable pub mark_first : List IdmacDescriptor → List IdmacDescriptor
mark_first [] = []
mark_first (d ∷ ds) = record d { des0 = bit_or d.des0 (mask (des0_fs ∷ [])) } ∷ ds

-- The stores to the control word of the last descriptor.
unfoldable pub last_control : ℕ → ℕ
last_control des0 = clear (bit_or des0 (mask (des0_er ∷ des0_ld ∷ []))) (mask (des0_dic ∷ []))

-- `Descriptor[Count - 1].Des0 |= ...`
unfoldable pub mark_last : List IdmacDescriptor → List IdmacDescriptor
mark_last [] = []
mark_last (d ∷ []) = record d { des0 = last_control d.des0 } ∷ []
mark_last (d ∷ d' ∷ ds) = d ∷ mark_last (d' ∷ ds)

-- `MshcCreateIdmacDescriptorTable`, on a list that has a byte, as it asserts.
unfoldable pub create_idmac_descriptor_table : List SgElement → List IdmacDescriptor
create_idmac_descriptor_table es = mark_last (mark_first (all_pieces es))
