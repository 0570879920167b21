-- ===== src/Sd/Mshc/Response.antt =====
-- The response of a command as bytes, `MshcSlotGetResponse`.
use native.Mathlib.Nat.{pow-suc}
use woa_rk.Base.{
  ℕ, suc, ◌+◌, ◌*◌, ◌/◌, ◌%◌, ◌^◌, ◌<◌, ◌≡◌, ap, ◌∙◌, List, [], ◌∷◌, ◌++◌, if◌then◌else◌, ◌==◌,
  arith, length, refl, inl, inr, Bool-cases,
}
use woa_rk.Sd.Mshc.Types.{Host, ResponseType, mshc_resp0}
use woa_rk.Sd.Mshc.Commands.{send_relative_addr, long_response, expects_response}

-- A word in memory, and the number that bytes in memory are.
abbrev pub word_bytes : ℕ → List ℕ
word_bytes w = w % 256 ∷ w / 256 % 256 ∷ w / 65536 % 256 ∷ w / 16777216 % 256 ∷ []

abbrev pub number : List ℕ → ℕ
number [] = 0
number (b ∷ bs) = b + 256 * number bs

-- The list behind its first, and behind its first four bytes.
abbrev pub behind : List ℕ → List ℕ
behind [] = []
behind (b ∷ bs) = bs

abbrev pub behind_word : List ℕ → List ℕ
behind_word bs = behind (behind (behind (behind bs)))

abbrev pub first_word : List ℕ → ℕ
first_word (a ∷ b ∷ c ∷ d ∷ bs) = number (a ∷ b ∷ c ∷ d ∷ [])
first_word _ = 0

-- `RtlCopyMemory` of the 15 bytes behind the first one of `LongResponseBuffer`.
unfoldable pub long_bytes : (r0 r1 r2 r3 : ℕ) (old : List ℕ) → List ℕ
long_bytes r0 r1 r2 r3 old =
    behind (word_bytes r0 ++ (word_bytes r1 ++ (word_bytes r2 ++ word_bytes r3)))
    ++ behind (behind (behind (behind_word (behind_word (behind_word old)))))

-- `MshcSlotGetResponse`, where `old` is what the buffer holds.
unfoldable pub slot_get_response :
    (device : ℕ → ℕ → ℕ) → ResponseType → (index : ℕ) (old : List ℕ) → Host → Host × List ℕ
unfolding long_bytes
slot_get_response device kind index old h =
    let n = h.reads in
    let bytes =
      if long_response kind
      then long_bytes (device n mshc_resp0) (device (n + 1) (mshc_resp0 + 4))
          (device (n + 2) (mshc_resp0 + 8)) (device (n + 3) (mshc_resp0 + 12)) old
      else if expects_response kind
      then word_bytes (device n mshc_resp0) ++ behind_word old
      else word_bytes 0 ++ behind_word old in
    let reads = if long_response kind then n + 4 else if expects_response kind then n + 1 else n in
    let g = record h { reads = reads } in
    (
      if index == send_relative_addr then record g { card_rca = first_word bytes / 65536 } else g,
      bytes,
    )

number-word_bytes :
    (w : ℕ) (bs : List ℕ)
    → w < 4294967296
    → number (word_bytes w ++ bs) ≡ w + 4294967296 * number bs
number-word_bytes w bs h = omega arith

number-behind : (b : ℕ) (bs : List ℕ) → b < 256 → number bs ≡ number (b ∷ bs) / 256
number-behind b bs h = omega arith

shuffle : (p k : ℕ) → p * 256 * k ≡ 256 * (p * k)
shuffle p k = grind arith

number-append : (xs ys : List ℕ) → number (xs ++ ys) ≡ number xs + 256 ^ length xs * number ys
number-append [] ys = omega arith
number-append (x ∷ xs) ys =
    let power : 256 ^ suc (length xs) * number ys ≡ 256 * (256 ^ length xs * number ys) =
      ap (λ t. t * number ys) (pow-suc 256 (length xs)) ∙ shuffle (256 ^ length xs) (number ys) in
    omega (arith, number-append xs ys, power)

long_bytes_lem :
    (r0 r1 r2 r3 : ℕ) (old : List ℕ)
    → r0 < 4294967296
    → r1 < 4294967296
    → r2 < 4294967296
    → r3 < 4294967296
    → number (long_bytes r0 r1 r2 r3 old)
      ≡ (r0 + 2 ^ 32 * (r1 + 2 ^ 32 * (r2 + 2 ^ 32 * r3))) / 256
        + 2 ^ 120 * number (behind (behind (behind (behind_word (behind_word (behind_word old))))))
unfolding long_bytes
long_bytes_lem r0 r1 r2 r3 old h0 h1 h2 h3 =
    let top = behind (behind (behind (behind_word (behind_word (behind_word old))))) in
    let whole = word_bytes r0 ++ (word_bytes r1 ++ (word_bytes r2 ++ word_bytes r3)) in
    let n3 : number (word_bytes r3) ≡ r3 = omega (arith, h3) in
    let n2 = number-word_bytes r2 (word_bytes r3) h2 in
    let n1 = number-word_bytes r1 (word_bytes r2 ++ word_bytes r3) h1 in
    let n0 = number-word_bytes r0 (word_bytes r1 ++ (word_bytes r2 ++ word_bytes r3)) h0 in
    let value : number whole ≡ r0 + 2 ^ 32 * (r1 + 2 ^ 32 * (r2 + 2 ^ 32 * r3)) =
      n0
      ∙ ap (λ t. r0 + 4294967296 * t)
          (n1 ∙ ap (λ t. r1 + 4294967296 * t) (n2 ∙ ap (λ t. r2 + 4294967296 * t) n3)) in
    number-append (behind whole) top
    ∙ ap (λ t. t + 2 ^ 120 * number top)
        (number-behind (r0 % 256) (behind whole) (omega arith) ∙ ap (λ t. t / 256) value)

-- If reads answer words of 32 bits, then
-- `MshcSlotGetResponse` for a response of 136 bits reads the four response registers, and its buffer holds, as a
-- number, that of the registers, lowest first, shifted right by one byte; the byte behind it keeps
-- what the buffer held.
pub slot_get_response_lem :
    (device : ℕ → ℕ → ℕ) (index : ℕ) (old : List ℕ) (h : Host)
    → ((i a : ℕ) → device i a < 4294967296)
    → let n = h.reads in
      ((slot_get_response device ResponseType.resp_r2 index old h).0.reads ≡ n + 4)
      × (number (slot_get_response device ResponseType.resp_r2 index old h).1
          ≡ (device n 0x30
                + 2 ^ 32
                  * (device (n + 1) 0x34
                      + 2 ^ 32 * (device (n + 2) 0x38 + 2 ^ 32 * device (n + 3) 0x3C)))
              / 256
            + 2 ^ 120
              * number (behind (behind (behind (behind_word (behind_word (behind_word old)))))))
unfolding slot_get_response long_response
slot_get_response_lem device index old h words =
    let n = h.reads in
    (
      elim (Bool-cases (index == send_relative_addr)) [ inl e ↦ rw e refl | inr e ↦ rw e refl ],
      long_bytes_lem (device n 0x30) (device (n + 1) 0x34) (device (n + 2) 0x38)
          (device (n + 3) 0x3C) old (words n 0x30) (words (n + 1) 0x34) (words (n + 2) 0x38)
          (words (n + 3) 0x3C),
    )
