-- ===== src/Sd/Mshc/Pio.antt =====
-- A read by words of the data port, `MshcStartPioTransfer`.
use woa_rk.Base.{
  ℕ, zero, suc, ◌+◌, ◌-◌, ◌*◌, ◌<◌, ◌≡◌, refl, ap, ◌∙◌, Bool, true, false, arith, ◌==◌, u32, List,
  Option,
}
use woa_rk.Sd.Mshc.Types.{Host, NtStatus, mshc_fifo_base}
use woa_rk.Sd.Mshc.Registers.{acknowledge_interrupts, write_register}
use woa_rk.Sd.Mshc.Requests.{is_write}
use woa_rk.Sd.Mshc.Transfers.{read_data_port, acknowledge_data, move_words}

-- A request that reads `threshold` words at a time, less than 4 GB each time.
pub record Reads (id threshold : ℕ) (h : Host) : Type 0 where
  pub direction : is_write (h.requests id).command.transfer_direction ≡ false
  pub words : h.fifo_threshold ≡ threshold
  pub some_words : 0 < threshold
  pub small : 4 * threshold < 4294967296
  pub length_small : h.remaining_length < 4294967296

abbrev pub buffer_of : (id : ℕ) → Host → ℕ
buffer_of id h = (h.requests id).command.data_buffer

module _ (device : ℕ → ℕ → ℕ) where
  -- `n` reads of the data port, from the number `reads` on, are the words from the address
  -- `buffer` on.
  abbrev pub Words : (buffer reads n : ℕ) → Host → Type 0
  Words buffer reads n h =
      (i : ℕ) → i < n → h.memory (buffer + 4 * i) ≡ device (reads + i) mshc_fifo_base

  read_data_port_keeps :
      (buffer n : ℕ) (h : Host)
      → read_data_port device buffer n h ≡ record h {
        memory = (read_data_port device buffer n h).memory;
        reads = (read_data_port device buffer n h).reads;
      }
  unfolding read_data_port
  read_data_port_keeps buffer zero h = refl
  read_data_port_keeps buffer (suc n) h = read_data_port_keeps (buffer + 4) n _

  read_data_port_reads :
      (buffer n : ℕ) (h : Host) → (read_data_port device buffer n h).reads ≡ h.reads + n
  unfolding read_data_port
  read_data_port_reads buffer zero h = omega arith
  read_data_port_reads buffer (suc n) h = read_data_port_reads (buffer + 4) n _ ∙ omega arith

  read_data_port_below :
      (buffer n a : ℕ) (h : Host)
      → a < buffer
      → (read_data_port device buffer n h).memory a ≡ h.memory a
  unfolding read_data_port
  read_data_port_below buffer zero a h lt = refl
  read_data_port_below buffer (suc n) a h lt =
      let other : (buffer == a) ≡ false = ground arith in
      read_data_port_below (buffer + 4) n a _ (omega arith) ∙ rw other refl

  read_data_port-Words :
      (buffer n : ℕ) (h : Host) → Words buffer h.reads n (read_data_port device buffer n h)
  unfolding read_data_port
  read_data_port-Words buffer zero h i lt = absurd (omega arith)
  read_data_port-Words buffer (suc n) h zero lt =
      let first : buffer + 4 * 0 ≡ buffer = omega arith in
      let self : (buffer == buffer) ≡ true = ground arith in
      let same : h.reads + 0 ≡ h.reads = omega arith in
      rw (first, same) (read_data_port_below (buffer + 4) n buffer _ (omega arith) ∙ rw self refl)
  read_data_port-Words buffer (suc n) h (suc i) lt =
      let later : buffer + 4 * suc i ≡ buffer + 4 + 4 * i = omega arith in
      let more : h.reads + suc i ≡ suc h.reads + i = omega arith in
      rw (later, more) (read_data_port-Words (buffer + 4) n _ i (omega arith))

  -- What the port driver was told, the request that is outstanding, whether it is the driver's own,
  -- and whether there is a work item.
  abbrev pub asked : Host → List (ℕ × NtStatus) × Option ℕ × Bool × Bool
  asked h = (h.completed, h.outstanding, h.local_request_pending, h.busy_work_item)

  -- What one data request moves.
  pub record Moved (id threshold : ℕ) (h g : Host) : Type 0 where
    pub requests : g.requests ≡ h.requests
    pub words : g.fifo_threshold ≡ threshold
    pub reads : g.reads ≡ h.reads + threshold
    pub remaining : g.remaining_length ≡ u32 (h.remaining_length + 4294967296 - 4 * threshold)
    pub filled : Words (buffer_of id h) h.reads threshold g
    pub below : (a : ℕ) → a < buffer_of id h → g.memory a ≡ h.memory a
    pub same : asked g ≡ asked h

  acknowledge_data_keeps :
      (crashdump : Bool) (h : Host)
      → acknowledge_data crashdump h ≡ record h { regs = (acknowledge_data crashdump h).regs }
  unfolding acknowledge_data acknowledge_interrupts write_register
  acknowledge_data_keeps true h = refl
  acknowledge_data_keeps false h = refl

  pub move_words-Moved :
      (id threshold : ℕ) (h : Host)
      → Reads id threshold h
      → Moved id threshold h (move_words device id h)
  unfolding move_words
  move_words-Moved id t h p =
      let b = buffer_of id h in
      let r = read_data_port device b h.fifo_threshold h in
      let k = read_data_port_keeps b h.fifo_threshold h in
      let a = acknowledge_data_keeps h.crashdump r in
      let four : u32 (h.fifo_threshold * 4) ≡ 4 * t = omega (arith, p.words, p.small) in
      let same_memory = ap (λ (x : Host). x.memory) a in
      let rest =
        ap (λ (x : Host). x.remaining_length) a ∙ ap (λ (x : Host). x.remaining_length) k in
      rw p.direction record {
        requests = ap (λ (x : Host). x.requests) a ∙ ap (λ (x : Host). x.requests) k;
        words =
            ap (λ (x : Host). x.fifo_threshold) a ∙ ap (λ (x : Host). x.fifo_threshold) k ∙ p.words;
        reads =
            ap (λ (x : Host). x.reads) a
            ∙ read_data_port_reads b h.fifo_threshold h
            ∙ ap (λ n. h.reads + n) p.words;
        remaining =
            ap (λ n. u32 (n + 4294967296 - u32 (h.fifo_threshold * 4))) rest
            ∙ ap (λ n. u32 (h.remaining_length + 4294967296 - n)) four;
        filled = λ i lt.
            ap (λ m. m (b + 4 * i)) same_memory
            ∙ read_data_port-Words b h.fifo_threshold h i (omega (arith, lt, p.words));
        below = λ x lt. ap (λ m. m x) same_memory ∙ read_data_port_below b h.fifo_threshold x h lt;
        same = ap asked a ∙ ap asked k;
      }
