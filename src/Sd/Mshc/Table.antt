-- ===== src/Sd/Mshc/Table.antt =====
-- What the internal DMA controller reads in the descriptor table.
use woa_rk.Base.{
  ℕ, zero, suc, ◌+◌, ◌-◌, ◌≤◌, ◌<◌, min, List, [], ◌∷◌, ◌++◌, ◌≡◌, refl, sym, ◌∙◌, ap, ◌==◌, field,
  arith, Bool-cases, ==_iff, ==_ne, inl, inr,
}
use woa_rk.Base.Bits.{bit_and_low}
use woa_rk.Sd.Mshc.Types.{IdmacDescriptor, SgElement}
use woa_rk.Sd.Mshc.Idmac.{
  descriptor, pieces, all_pieces, mark_first, mark_last, create_idmac_descriptor_table,
}

-- The addresses from `a` on, `n` of them.
abbrev pub addresses : (a n : ℕ) → List ℕ
addresses a zero = []
addresses a (suc n) = a ∷ addresses (a + 1) n

-- The addresses that the controller moves to or from, in its order.
abbrev pub moved : List IdmacDescriptor → List ℕ
moved [] = []
moved (d ∷ ds) = addresses d.des2 (field d.des1 0 13) ++ moved ds

-- The addresses of a scatter-gather list, in its order.
abbrev pub scattered : List SgElement → List ℕ
scattered [] = []
scattered (e ∷ es) = addresses e.address e.length ++ scattered es

-- Each element ends within the first 4 GB.
abbrev pub Low : List SgElement → Type 0
Low [] = Unit
Low (e ∷ es) = (e.address + e.length ≤ 4294967296) × Low es

pub append_assoc : (xs ys zs : List ℕ) → (xs ++ ys) ++ zs ≡ xs ++ (ys ++ zs)
append_assoc [] ys zs = refl
append_assoc (x ∷ xs) ys zs = ap (λ t. x ∷ t) (append_assoc xs ys zs)

pub addresses_append : (a m n : ℕ) → addresses a (m + n) ≡ addresses a m ++ addresses (a + m) n
addresses_append a zero n =
    let e : a + 0 ≡ a = omega arith in let f : 0 + n ≡ n = omega arith in rw (e, f) refl
addresses_append a (suc m) n =
    let more : suc m + n ≡ suc (m + n) = omega arith in
    let later : a + suc m ≡ a + 1 + m = omega arith in
    rw (more, later) (ap (λ t. a ∷ t) (addresses_append (a + 1) m n))

moved-append : (xs ys : List IdmacDescriptor) → moved (xs ++ ys) ≡ moved xs ++ moved ys
moved-append [] ys = refl
moved-append (d ∷ ds) ys =
    ap (λ t. addresses d.des2 (field d.des1 0 13) ++ t) (moved-append ds ys)
    ∙ sym (append_assoc (addresses d.des2 (field d.des1 0 13)) (moved ds) (moved ys))

-- The controller reads back the length and the address of a descriptor.
descriptor_length : (a n : ℕ) → n ≤ 4096 → field (descriptor a n).des1 0 13 ≡ n
unfolding descriptor
descriptor_length a n h = omega (arith, bit_and_low 13 n)

descriptor_address : (a n : ℕ) → a < 4294967296 → (descriptor a n).des2 ≡ a
unfolding descriptor
descriptor_address a n h = omega arith

moved-descriptor :
    (a n : ℕ) (ds : List IdmacDescriptor)
    → n ≤ 4096
    → a < 4294967296
    → moved (descriptor a n ∷ ds) ≡ addresses a n ++ moved ds
moved-descriptor a n ds h k = rw (descriptor_length a n h, descriptor_address a n k) refl

moved-pieces :
    (fuel a n : ℕ) → n ≤ fuel → a + n ≤ 4294967296 → moved (pieces fuel a n) ≡ addresses a n
unfolding pieces
moved-pieces zero a n h low = let e : n ≡ 0 = omega arith in rw e refl
moved-pieces (suc fuel) a n h low = elim (Bool-cases (n == 0)) [
  | inl e ↦ let none_left : n ≡ 0 = (==_iff n 0).0 e in rw (e, pieces, none_left) refl
  | inr e ↦
      let some_left = ==_ne n 0 e in
      let next = min 4096 n in
      let whole : next + (n - next) ≡ n = omega arith in
      let rest : moved (pieces fuel (a + next) (n - next)) ≡ addresses (a + next) (n - next) =
        moved-pieces fuel (a + next) (n - next) (omega arith) (omega arith) in
      rw (e, pieces)
        (moved-descriptor a next (pieces fuel (a + next) (n - next)) (omega arith) (omega arith)
          ∙ ap (λ t. addresses a next ++ t) rest
          ∙ sym (addresses_append a next (n - next))
          ∙ ap (addresses a) whole)
]

moved-all_pieces : (es : List SgElement) → Low es → moved (all_pieces es) ≡ scattered es
unfolding all_pieces
moved-all_pieces [] low = refl
moved-all_pieces (e ∷ es) low =
    moved-append (pieces e.length e.address e.length) (all_pieces es)
    ∙ ap (λ t. t ++ moved (all_pieces es))
        (moved-pieces e.length e.address e.length (omega arith) low.0)
    ∙ ap (λ t. addresses e.address e.length ++ t) (moved-all_pieces es low.1)

moved-mark_first : (ds : List IdmacDescriptor) → moved (mark_first ds) ≡ moved ds
unfolding mark_first
moved-mark_first [] = refl
moved-mark_first (d ∷ ds) = refl

moved-mark_last : (ds : List IdmacDescriptor) → moved (mark_last ds) ≡ moved ds
unfolding mark_last
moved-mark_last [] = refl
moved-mark_last (d ∷ []) = refl
moved-mark_last (d ∷ d' ∷ ds) =
    ap (λ t. addresses d.des2 (field d.des1 0 13) ++ t) (moved-mark_last (d' ∷ ds))

-- If each element of the scatter-gather list ends within the first 4 GB, the controller, which
-- takes the low 13 bits of the second word of each descriptor as the length of the buffer at the
-- third, moves exactly the bytes of the list, each once and in the list's order.
pub moved-create_idmac_descriptor_table :
    (es : List SgElement) → Low es → moved (create_idmac_descriptor_table es) ≡ scattered es
unfolding create_idmac_descriptor_table
moved-create_idmac_descriptor_table es low =
    moved-mark_last (mark_first (all_pieces es))
    ∙ moved-mark_first (all_pieces es)
    ∙ moved-all_pieces es low
