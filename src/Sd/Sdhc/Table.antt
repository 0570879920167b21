-- ===== src/Sd/Sdhc/Table.antt =====
-- What the controller makes of the ADMA2 descriptor table.
use woa_rk.Base.{
  ℕ, zero, suc, ◌+◌, ◌-◌, ◌*◌, ◌%◌, ◌≤◌, ◌<◌, min, List, [], ◌∷◌, ◌++◌, ◌≡◌, refl, sym, ◌∙◌, ap,
  ◌==◌, ◌≢◌, ◌⊎◌, length, field, flag, arith, Bool, true, false, ◌&&◌, Bool-cases, ==_iff, ==_ne,
  inl, inr, Option, none, some, bit_or, if◌then◌else◌,
}
use woa_rk.Base.Bits.{bit_or_two}
use woa_rk.Sd.Mshc.Types.{SgElement}
use woa_rk.Sd.Mshc.Table.{addresses, scattered, append_assoc, addresses_append}
use woa_rk.Sd.Sdhc.Types.{AdmaDescriptor}
use woa_rk.Sd.Sdhc.Adma.{
  entry_word, adma_entry, element_entries, list_entries, mark_end, create_adma_descriptor_table,
}

-- The addresses `behind` put before those of the rest, if the rest ends.
abbrev pub before : List ℕ → Option (List ℕ) → Option (List ℕ)
before here none = none
before here (some rest) = some (here ++ rest)

-- What the controller moves, in its order: it takes entries that are valid and move data, up to the
-- one that is marked as the end. It has no result if an entry is of another kind, or if no entry
-- is marked.
abbrev pub transferred : List AdmaDescriptor → Option (List ℕ)
transferred [] = none
transferred (d ∷ ds) =
    let rest = transferred ds in
    let here = addresses d.address (field d.word 16 16) in
    if flag d.word 0 && field d.word 4 2 == 2
    then if flag d.word 1 then some here else before here rest
    else none

-- The first address that an entry cannot name.
abbrev pub address_limit : (use_64bit : Bool) → ℕ
address_limit use_64bit = if use_64bit then 18446744073709551616 else 4294967296

-- Each element ends below the limit.
abbrev pub Below : (limit : ℕ) → List SgElement → Type 0
Below limit [] = Unit
Below limit (e ∷ es) = (e.address + e.length ≤ limit) × Below limit es

-- The controller reads an entry that is not the end, and one that is.
entry_fields :
    (n : ℕ)
    → n < 65536
    → (flag (entry_word 1 2 n) 0 ≡ true)
      × (flag (entry_word 1 2 n) 1 ≡ false)
      × (field (entry_word 1 2 n) 4 2 ≡ 2)
      × (field (entry_word 1 2 n) 16 16 ≡ n)
unfolding entry_word
entry_fields n lt = (ground arith, ground arith, omega arith, omega arith)

end_fields :
    (n : ℕ)
    → n < 65536
    → (flag (bit_or (entry_word 1 2 n) 2) 0 ≡ true)
      × (flag (bit_or (entry_word 1 2 n) 2) 1 ≡ true)
      × (field (bit_or (entry_word 1 2 n) 2) 4 2 ≡ 2)
      × (field (bit_or (entry_word 1 2 n) 2) 16 16 ≡ n)
unfolding entry_word
end_fields n lt =
    let e = bit_or_two (1 + 2 * 16 + n % 65536 * 65536) (omega arith) in
    rw e (ground arith, ground arith, omega arith, omega arith)

adma_entry_address : (b : Bool) (a n : ℕ) → a < address_limit b → (adma_entry b a n).address ≡ a
unfolding adma_entry
adma_entry_address true a n h = omega arith
adma_entry_address false a n h = omega arith

-- The entries of a part of an element, before more entries.
transferred-mark_end :
    (b : Bool) (a n : ℕ) (d : AdmaDescriptor) (ds : List AdmaDescriptor)
    → n < 65536
    → a < address_limit b
    → transferred (adma_entry b a n ∷ mark_end (d ∷ ds))
      ≡ before (addresses a n) (transferred (mark_end (d ∷ ds)))
unfolding adma_entry
transferred-mark_end b a n d ds lt low =
    let (valid, more, moves, size) = entry_fields n lt in
    let at = adma_entry_address b a n low in rw (valid, more, moves, size, at) refl

transferred-end :
    (b : Bool) (a n : ℕ)
    → n < 65536
    → a < address_limit b
    → transferred (mark_end (adma_entry b a n ∷ [])) ≡ some (addresses a n)
unfolding mark_end adma_entry
transferred-end b a n lt low =
    let (valid, ends, moves, size) = end_fields n lt in
    let at = adma_entry_address b a n low in rw (valid, ends, moves, size, at) refl

-- The entries `ds` end a table that moves `ys`, or there are none.
Tail : List AdmaDescriptor → List ℕ → Type 0
Tail ds ys =
    ((ds ≡ []) × (ys ≡ []))
    ⊎ ((d : AdmaDescriptor) × (rest : List AdmaDescriptor) × (ds ≡ d ∷ rest)
        × (transferred (mark_end ds) ≡ some ys))

append_nil : (xs : List ℕ) → xs ++ [] ≡ xs
append_nil [] = refl
append_nil (x ∷ xs) = ap (λ t. x ∷ t) (append_nil xs)

-- One more entry in front.
entry-Tail :
    (b : Bool) (a n : ℕ) (ds : List AdmaDescriptor) (ys : List ℕ)
    → n < 65536
    → a < address_limit b
    → Tail ds ys
    → Tail (adma_entry b a n ∷ ds) (addresses a n ++ ys)
unfolding Tail mark_end adma_entry
entry-Tail b a n ds ys lt low (inl (e, f)) = inr (
  adma_entry b a n,
  ds,
  refl,
  rw (e, f) (transferred-end b a n lt low ∙ ap some (sym (append_nil (addresses a n)))),
)
entry-Tail b a n ds ys lt low (inr (d, rest, e, f)) =
    let g : transferred (mark_end (d ∷ rest)) ≡ some ys =
      ap (λ t. transferred (mark_end t)) (sym e) ∙ f in
    inr (
      adma_entry b a n,
      ds,
      refl,
      rw e (transferred-mark_end b a n d rest lt low ∙ ap (before (addresses a n)) g),
    )

-- All entries of an element in front.
element_entries-Tail :
    (b : Bool) (fuel a n : ℕ) (ds : List AdmaDescriptor) (ys : List ℕ)
    → n ≤ fuel
    → a + n ≤ address_limit b
    → Tail ds ys
    → Tail (element_entries b fuel a n ++ ds) (addresses a n ++ ys)
unfolding element_entries
element_entries-Tail b zero a n ds ys h low tail = let e : n ≡ 0 = omega arith in rw e tail
element_entries-Tail b (suc fuel) a n ds ys h low tail = elim (Bool-cases (n == 0)) [
  | inl e ↦ let none_left : n ≡ 0 = (==_iff n 0).0 e in rw (e, element_entries, none_left) tail
  | inr e ↦
      let some_left = ==_ne n 0 e in
      let next = min 61440 n in
      let whole : next + (n - next) ≡ n = omega arith in
      let rest =
        element_entries-Tail b fuel (a + next) (n - next) ds ys (omega arith) (omega arith) tail in
      let joined : addresses a next ++ (addresses (a + next) (n - next) ++ ys)
          ≡ addresses a n ++ ys =
        sym (append_assoc (addresses a next) (addresses (a + next) (n - next)) ys)
        ∙ ap (λ t. t ++ ys) (sym (addresses_append a next (n - next)) ∙ ap (addresses a) whole) in
      rw (e, element_entries, sym joined)
        (entry-Tail b a next (element_entries b fuel (a + next) (n - next) ++ ds)
          (addresses (a + next) (n - next) ++ ys) (omega arith) (omega arith) rest)
]

list_entries-Tail :
    (b : Bool) (es : List SgElement)
    → Below (address_limit b) es
    → Tail (list_entries b es) (scattered es)
unfolding list_entries Tail
list_entries-Tail b [] low = inl (refl, refl)
list_entries-Tail b (e ∷ es) low =
    element_entries-Tail b e.length e.address e.length (list_entries b es) (scattered es)
      (omega arith) low.0 (list_entries-Tail b es low.1)

some_moved : (a n : ℕ) (ys : List ℕ) → 0 < n → (addresses a n ++ ys) ≢ []
some_moved a zero ys pos e = absurd (omega arith)
some_moved a (suc n) ys pos e = absurd (omega (arith, ap length e))

-- If each element of the scatter-gather list ends below the first address that an entry cannot
-- name, and the first element is not empty, the controller finds only valid entries that move data
-- and one that is marked as the end, and moves exactly the bytes of the list up to there, each once
-- and in the list's order, with addresses of 32 bits and with addresses of 64.
pub transferred-create_adma_descriptor_table :
    (use_64bit : Bool) (e : SgElement) (es : List SgElement)
    → 0 < e.length
    → Below (address_limit use_64bit) (e ∷ es)
    → transferred (create_adma_descriptor_table use_64bit (e ∷ es)) ≡ some (scattered (e ∷ es))
unfolding create_adma_descriptor_table Tail
transferred-create_adma_descriptor_table use_64bit e es pos low =
    elim (list_entries-Tail use_64bit (e ∷ es) low) [
      | inl (empty, f) ↦ absurd (some_moved e.address e.length (scattered es) pos f)
      | inr (d, rest, same, moved) ↦ moved
    ]
