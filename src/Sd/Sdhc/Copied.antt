-- ===== src/Sd/Sdhc/Copied.antt =====
-- What `SdhcReadDataPort` leaves in memory.
use woa_rk.Base.{
  ℕ, zero, suc, ◌+◌, ◌-◌, ◌*◌, ◌<◌, ◌≤◌, true, false, List, ◌≡◌, refl, sym, ap, ◌∙◌, arith, field,
  leb, ltb, ◌&&◌, le→leb,
}
use woa_rk.Sd.Sdhc.Types.{SdhcExtension, sdhc_data_port}
use woa_rk.Sd.Sdhc.Registers.{load, loaded}
use woa_rk.Sd.Sdhc.Port.{put_bytes, read_port, read_tail, read_words, read_data_port}

module _ (device : List (ℕ × ℕ) → ℕ → ℕ → ℕ) where
  -- `g` is `h` after `k` more reads of the port, whose words stand at the address `a` on, the lowest
  -- byte first; the rest of memory is as it was.
  pub record Copied (a k : ℕ) (h g : SdhcExtension) : Type 0 where
    pub keeps : g ≡ record h { reads = h.reads + k; memory = g.memory }
    pub bytes :
        (i j : ℕ)
        → i < k
        → j < 4
        → g.memory (a + 4 * i + j) ≡ field (device h.writes (h.reads + i) sdhc_data_port) (8 * j) 8
    pub below : (b : ℕ) → b < a → g.memory b ≡ h.memory b
    pub above : (b : ℕ) → a + 4 * k ≤ b → g.memory b ≡ h.memory b

  Copied-none : (a : ℕ) (h g : SdhcExtension) → g ≡ h → Copied a 0 h g
  Copied-none a h g e = record {
    keeps =
        e
        ∙ ap (λ n. record h { reads = n }) (omega arith)
        ∙ ap (λ (x : SdhcExtension). record h { reads = h.reads + 0; memory = x.memory }) (sym e);
    bytes = λ i j lt. absurd (omega arith);
    below = λ b lt. ap (λ (x : SdhcExtension). x.memory b) e;
    above = λ b le. ap (λ (x : SdhcExtension). x.memory b) e;
  }

  inside : (a v j : ℕ) (m : ℕ → ℕ) → j < 4 → put_bytes 4 a v m (a + j) ≡ field v (8 * j) 8
  unfolding put_bytes
  inside a v j m lt =
      let first : leb a (a + j) ≡ true = le→leb _ _ (omega arith) in
      let last : ltb (a + j) (a + 4) ≡ true = ground arith in
      let same : a + j - a ≡ j = omega arith in rw (put_bytes, first, last, same) refl

  outside_below : (a v b : ℕ) (m : ℕ → ℕ) → b < a → put_bytes 4 a v m b ≡ m b
  unfolding put_bytes
  outside_below a v b m lt = let e : leb a b ≡ false = ground arith in rw (put_bytes, e) refl

  outside_above : (a v b : ℕ) (m : ℕ → ℕ) → a + 4 ≤ b → put_bytes 4 a v m b ≡ m b
  unfolding put_bytes
  outside_above a v b m le =
      let e : (leb a b && ltb b (a + 4)) ≡ false = ground arith in rw (put_bytes, e) refl

  -- One word, and then the others behind it.
  Copied-suc :
      (a k : ℕ) (h g : SdhcExtension)
      → Copied (a + 4) k (read_port device 4 sdhc_data_port a h) g
      → Copied a (suc k) h g
  unfolding read_port loaded load
  Copied-suc a k h g c = record {
    keeps = c.keeps ∙ ap (λ n. record h { reads = n; memory = g.memory }) (omega arith);
    bytes = word;
    below = λ b lt.
        c.below b (omega arith)
        ∙ outside_below a (device h.writes h.reads sdhc_data_port) b h.memory lt;
    above = λ b le.
        c.above b (omega arith)
        ∙ outside_above a (device h.writes h.reads sdhc_data_port) b h.memory (omega arith);
  }
    where
      word :
          (i j : ℕ)
          → i < suc k
          → j < 4
          → g.memory (a + 4 * i + j)
            ≡ field (device h.writes (h.reads + i) sdhc_data_port) (8 * j) 8
      word zero j lt small =
          ap g.memory (omega arith)
          ∙ c.below (a + j) (omega arith)
          ∙ inside a (device h.writes h.reads sdhc_data_port) j h.memory small
          ∙ ap (λ n. field (device h.writes n sdhc_data_port) (8 * j) 8) (omega arith)
      word (suc i) j lt small =
          ap g.memory (omega arith)
          ∙ c.bytes i j (omega arith) small
          ∙ ap (λ n. field (device h.writes n sdhc_data_port) (8 * j) 8) (omega arith)

  read_tail_none : (a : ℕ) (h : SdhcExtension) → read_tail device a 0 h ≡ h
  unfolding read_tail
  read_tail_none a h = refl

  read_words-Copied :
      (fuel a k : ℕ) (h : SdhcExtension)
      → k ≤ fuel
      → Copied a k h (read_words device fuel a (4 * k) h)
  unfolding read_words
  read_words-Copied zero a zero h le = Copied-none a h _ (read_tail_none a h)
  read_words-Copied zero a (suc k) h le = absurd (omega arith)
  read_words-Copied (suc fuel) a zero h le = Copied-none a h _ (read_tail_none a h)
  read_words-Copied (suc fuel) a (suc k) h le =
      let whole : leb 4 (4 * suc k) ≡ true = le→leb _ _ (omega arith) in
      let less : 4 * suc k - 4 ≡ 4 * k = omega arith in
      rw (whole, read_words, less)
        (Copied-suc a k h _
          (read_words-Copied fuel (a + 4) k (read_port device 4 sdhc_data_port a h) (omega arith)))

  -- A block whose length is a multiple of 4 is copied whole: as many reads of the data port as it has
  -- words, the bytes of each at their places in memory, and nothing else changes.
  pub read_data_port-Copied :
      (a k : ℕ) (h : SdhcExtension) → Copied a k h (read_data_port device a (4 * k) h)
  unfolding read_data_port
  read_data_port-Copied a k h = read_words-Copied (4 * k) a k h (omega arith)
