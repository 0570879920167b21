-- ===== src/Sd/Sdhc/Adma.antt =====
-- `SdhcCreateAdmaDescriptorTable`: the entries for a scatter-gather list.
use woa_rk.Base.{
  ℕ, zero, suc, ◌+◌, ◌-◌, ◌*◌, ◌%◌, min, Bool, List, [], ◌∷◌, ◌++◌, if◌then◌else◌, bit_or, u32, u64,
  ◌==◌,
}
use woa_rk.Sd.Mshc.Types.{SgElement}
use woa_rk.Sd.Sdhc.Types.{AdmaDescriptor}

-- `SDHC_ADMA2_MAX_LENGTH_PER_ENTRY`
abbrev pub adma2_max_length_per_entry : ℕ
adma2_max_length_per_entry = 0xF000

-- The word of an entry: the attribute in the bits from 0 on, the action in those from 4 on, and
-- the length, of 16 bits, from 16 on.
unfoldable pub entry_word : (attribute action length : ℕ) → ℕ
entry_word attribute action length = attribute + action * 16 + length % 65536 * 65536

-- An entry that is valid and moves data. The address has 64 bits, or the lower 32 of them.
unfoldable pub adma_entry : (use_64bit : Bool) (address length : ℕ) → AdmaDescriptor
adma_entry use_64bit address length = record {
  word = entry_word 1 2 length;
  address = if use_64bit then u64 address else u32 address;
}

-- The entries for an element: at most `fuel` of them.
unfoldable pub element_entries :
    (use_64bit : Bool) (fuel address remaining : ℕ) → List AdmaDescriptor
element_entries use_64bit zero address remaining = []
element_entries use_64bit (suc fuel) address remaining =
    let next = min adma2_max_length_per_entry remaining in
    let rest = element_entries use_64bit fuel (address + next) (remaining - next) in
    if remaining == 0 then [] else adma_entry use_64bit address next ∷ rest

-- The entries for a list of elements. An element of `n` bytes has no more than `n` entries.
unfoldable pub list_entries : (use_64bit : Bool) → List SgElement → List AdmaDescriptor
list_entries use_64bit [] = []
list_entries use_64bit (e ∷ es) =
    element_entries use_64bit e.length e.address e.length ++ list_entries use_64bit es

-- `SDHC_ADMA2_ATTRIBUTE_END` on the last entry.
unfoldable pub mark_end : List AdmaDescriptor → List AdmaDescriptor
mark_end [] = []
mark_end (d ∷ []) = record d { word = bit_or d.word 2 } ∷ []
mark_end (d ∷ d' ∷ ds) = d ∷ mark_end (d' ∷ ds)

-- `TotalTransferLength`: the sum of the lengths, on 32 bits.
unfoldable pub total_transfer_length : List SgElement → ℕ
total_transfer_length [] = 0
total_transfer_length (e ∷ es) = u32 (e.length + total_transfer_length es)

unfoldable pub create_adma_descriptor_table :
    (use_64bit : Bool) → List SgElement → List AdmaDescriptor
create_adma_descriptor_table use_64bit es = mark_end (list_entries use_64bit es)
