-- ===== src/Sd/Sdhc/Reads.antt =====
-- What the loops that wait for the controller find.
use woa_rk.Base.{
  ℕ, zero, suc, ◌+◌, ◌<◌, Bool, true, false, List, Option, none, some, ◌≡◌, sym, ap, ◌∙◌, ◌⊎◌, inl,
  inr, Bool-cases, arith,
}
use woa_rk.Sd.Sdhc.Types.{SdhcExtension}
use woa_rk.Sd.Sdhc.Registers.{load, loaded, read_until}

-- `g` is `h` after `n` more reads.
abbrev pub after_reads : (n : ℕ) → SdhcExtension → SdhcExtension
after_reads n h = record h { reads = h.reads + n }

module _ (device : List (ℕ × ℕ) → ℕ → ℕ → ℕ) where
  -- The value of the `i`-th of the next reads of the register at `a`.
  abbrev pub answer : (a i : ℕ) → SdhcExtension → ℕ
  answer a i h = device h.writes (h.reads + i) a

  -- The loop ends with the first answer that passes the test, or all of its answers fail.
  abbrev pub Found : (tries a : ℕ) → (ℕ → Bool) → SdhcExtension → SdhcExtension × Option ℕ → Type 0
  Found tries a test h r =
      ((i : ℕ) × (i < tries)
        × (test (answer a i h) ≡ true)
        × (r ≡ (after_reads (suc i) h, some (answer a i h))))
      ⊎ ((r ≡ (after_reads tries h, none)) × ((i : ℕ) → i < tries → test (answer a i h) ≡ false))

  later : (a i : ℕ) (h : SdhcExtension) → answer a i (loaded h) ≡ answer a (suc i) h
  unfolding loaded
  later a i h = ap (λ n. device h.writes n a) (omega arith)

  here : (a : ℕ) (h : SdhcExtension) → load device a h ≡ answer a 0 h
  unfolding load
  here a h = ap (λ n. device h.writes n a) (omega arith)

  more : (n : ℕ) (h : SdhcExtension) → after_reads n (loaded h) ≡ after_reads (suc n) h
  unfolding loaded
  more n h = ap (λ n. record h { reads = n }) (omega arith)

  one : (h : SdhcExtension) → loaded h ≡ after_reads 1 h
  unfolding loaded
  one h = ap (λ n. record h { reads = n }) (omega arith)

  all_fail :
      (tries a : ℕ) (test : ℕ → Bool) (h : SdhcExtension)
      → test (load device a h) ≡ false
      → ((i : ℕ) → i < tries → test (answer a i (loaded h)) ≡ false)
      → (i : ℕ) → i < suc tries
      → test (answer a i h) ≡ false
  all_fail tries a test h now rest zero lt = ap test (sym (here a h)) ∙ now
  all_fail tries a test h now rest (suc i) lt = ap test (sym (later a i h)) ∙ rest i (omega arith)

  pub read_until-Found :
      (tries a : ℕ) (test : ℕ → Bool) (h : SdhcExtension)
      → Found tries a test h (read_until device tries a test h)
  unfolding read_until
  read_until-Found zero a test h =
      inr (ap (λ n. (record h { reads = n }, none)) (omega arith), λ i lt. absurd (omega arith))
  read_until-Found (suc tries) a test h = elim (Bool-cases (test (load device a h))) [
    | inl e ↦
        rw (e, read_until)
          (inl (
            0,
            omega arith,
            ap test (sym (here a h)) ∙ e,
            ap (λ v. (loaded h, some v)) (here a h) ∙ ap (λ g. (g, some (answer a 0 h))) (one h),
          ))
    | inr e ↦
        rw (e, read_until)
          (elim (read_until-Found tries a test (loaded h)) [
            | inl (i, lt, passed, same) ↦ inl (
              suc i,
              omega arith,
              ap test (sym (later a i h)) ∙ passed,
              same
                  ∙ ap (λ g. (g, some (answer a i (loaded h)))) (more (suc i) h)
                  ∙ ap (λ v. (after_reads (suc (suc i)) h, some v)) (later a i h),
            )
            | inr (same, failed) ↦
                inr (same ∙ ap (λ g. (g, none)) (more tries h), all_fail tries a test h e failed)
          ])
  ]
