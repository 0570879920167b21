-- ===== src/Sd/Mshc/Chain.antt =====
-- The control words and the lengths of the descriptor table.
use woa_rk.Base.{
  ℕ, zero, suc, ◌+◌, ◌-◌, ◌≤◌, ◌<◌, min, List, [], ◌∷◌, ◌++◌, ◌≡◌, refl, Bool, true, false, not,
  ◌==◌, ==_ne, field, flag, bit_or, arith, Bool-cases, inl, inr,
}
use woa_rk.Base.Bits.{bit_and_low}
use woa_rk.Base.Flags.{mask, clear}
use woa_rk.Sd.Mshc.Types.{IdmacDescriptor, SgElement}
use woa_rk.Sd.Mshc.Fields.{des0_own, des0_er, des0_fs, des0_ld, des0_dic}
use woa_rk.Sd.Mshc.Idmac.{
  descriptor, pieces, all_pieces, mark_first, last_control, mark_last,
  create_idmac_descriptor_table,
}

abbrev pub is_empty {ℓ} : {A : Type ℓ} → List A → Bool
is_empty [] = true
is_empty (x ∷ xs) = false

-- A descriptor that the controller may take: it owns it, its buffer has from one byte to the most
-- that an entry takes, and the marks of the first and of the last descriptor are what `first` and
-- `last` say; the interrupt is disabled on all but the last.
pub record Entry (first last : Bool) (d : IdmacDescriptor) : Type 0 where
  pub owned : flag d.des0 des0_own ≡ true
  pub first_segment : flag d.des0 des0_fs ≡ first
  pub last_segment : flag d.des0 des0_ld ≡ last
  pub end_of_ring : flag d.des0 des0_er ≡ last
  pub no_interrupt : flag d.des0 des0_dic ≡ not last
  pub some_bytes : 0 < field d.des1 0 13
  pub most_bytes : field d.des1 0 13 ≤ 4096

abbrev pub Chained : Bool → List IdmacDescriptor → Type 0
Chained first [] = Unit
Chained first (d ∷ ds) = Entry first (is_empty ds) d × Chained false ds

-- What the loops leave in each descriptor.
Plain : IdmacDescriptor → Type 0
Plain d =
    (d.des0 ≡ mask (des0_own ∷ des0_dic ∷ []))
    × (0 < field d.des1 0 13)
    × (field d.des1 0 13 ≤ 4096)

AllPlain : List IdmacDescriptor → Type 0
AllPlain [] = Unit
AllPlain (d ∷ ds) = Plain d × AllPlain ds

descriptor-Plain : (a n : ℕ) → 0 < n → n ≤ 4096 → Plain (descriptor a n)
unfolding Plain descriptor
descriptor-Plain a n pos h =
    (refl, omega (arith, bit_and_low 13 n), omega (arith, bit_and_low 13 n))

pieces-AllPlain : (fuel a n : ℕ) → AllPlain (pieces fuel a n)
unfolding AllPlain pieces
pieces-AllPlain zero a n = tt
pieces-AllPlain (suc fuel) a n = elim (Bool-cases (n == 0)) [
  | inl e ↦ rw (e, pieces) tt
  | inr e ↦
      let some_left = ==_ne n 0 e in
      rw (e, pieces)
        (
          descriptor-Plain a (min 4096 n) (omega arith) (omega arith),
          pieces-AllPlain fuel (a + min 4096 n) (n - min 4096 n),
        )
]

append-AllPlain : (xs ys : List IdmacDescriptor) → AllPlain xs → AllPlain ys → AllPlain (xs ++ ys)
unfolding AllPlain
append-AllPlain [] ys p q = q
append-AllPlain (x ∷ xs) ys p q = (p.0, append-AllPlain xs ys p.1 q)

all_pieces-AllPlain : (es : List SgElement) → AllPlain (all_pieces es)
unfolding AllPlain all_pieces
all_pieces-AllPlain [] = tt
all_pieces-AllPlain (e ∷ es) =
    append-AllPlain (pieces e.length e.address e.length) (all_pieces es)
      (pieces-AllPlain e.length e.address e.length) (all_pieces-AllPlain es)

Plain-Entry : (d : IdmacDescriptor) → Plain d → Entry false false d
unfolding Plain
Plain-Entry d p = record {
  owned = rw p.0 refl;
  first_segment = rw p.0 refl;
  last_segment = rw p.0 refl;
  end_of_ring = rw p.0 refl;
  no_interrupt = rw p.0 refl;
  some_bytes = p.1;
  most_bytes = p.2;
}

-- The marks on a plain descriptor.
mark-Entry :
    (d : IdmacDescriptor)
    → Plain d
    → Entry true false (record d { des0 = bit_or d.des0 (mask (des0_fs ∷ [])) })
      × Entry false true (record d { des0 = last_control d.des0 })
      × Entry true true (record d { des0 = last_control (bit_or d.des0 (mask (des0_fs ∷ []))) })
unfolding Plain last_control clear
mark-Entry d p = (
  record {
    owned = rw p.0 refl;
    first_segment = rw p.0 refl;
    last_segment = rw p.0 refl;
    end_of_ring = rw p.0 refl;
    no_interrupt = rw p.0 refl;
    some_bytes = p.1;
    most_bytes = p.2;
  },
  record {
    owned = rw p.0 refl;
    first_segment = rw p.0 refl;
    last_segment = rw p.0 refl;
    end_of_ring = rw p.0 refl;
    no_interrupt = rw p.0 refl;
    some_bytes = p.1;
    most_bytes = p.2;
  },
  record {
    owned = rw p.0 refl;
    first_segment = rw p.0 refl;
    last_segment = rw p.0 refl;
    end_of_ring = rw p.0 refl;
    no_interrupt = rw p.0 refl;
    some_bytes = p.1;
    most_bytes = p.2;
  },
)

is_empty-mark_last :
    (d : IdmacDescriptor) (ds : List IdmacDescriptor) → is_empty (mark_last (d ∷ ds)) ≡ false
unfolding mark_last
is_empty-mark_last d [] = refl
is_empty-mark_last d (e ∷ ds) = refl

mark_last-Chained : (ds : List IdmacDescriptor) → AllPlain ds → Chained false (mark_last ds)
unfolding AllPlain mark_last
mark_last-Chained [] p = tt
mark_last-Chained (d ∷ []) p = ((mark-Entry d p.0).1, tt)
mark_last-Chained (d ∷ d' ∷ ds) p =
    (rw (is_empty-mark_last d' ds) (Plain-Entry d p.0), mark_last-Chained (d' ∷ ds) p.1)

mark-Chained : (ds : List IdmacDescriptor) → AllPlain ds → Chained true (mark_last (mark_first ds))
unfolding AllPlain mark_last mark_first
mark-Chained [] p = tt
mark-Chained (d ∷ []) p = ((mark-Entry d p.0).2, tt)
mark-Chained (d ∷ d' ∷ ds) p =
    (rw (is_empty-mark_last d' ds) (mark-Entry d p.0).0, mark_last-Chained (d' ∷ ds) p.1)

-- Every descriptor of the table is owned by the controller and has from 1 to 4096 bytes; the first
-- one and no other is marked as the first segment, the last one and no other as the last segment
-- and the end of the ring, and the last one alone raises the interrupt.
pub create_idmac_descriptor_table-Chained :
    (es : List SgElement) → Chained true (create_idmac_descriptor_table es)
unfolding create_idmac_descriptor_table
create_idmac_descriptor_table-Chained es = mark-Chained (all_pieces es) (all_pieces-AllPlain es)
