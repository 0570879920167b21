-- ===== src/Sd/Mshc/Polls.antt =====
-- What the polling loops and the clock update do.
use woa_rk.Base.{
  ℕ, zero, suc, ◌+◌, ◌≤◌, ◌<◌, Bool, true, false, [], ◌∷◌, List, flag, ◌||◌, ◌==◌, ◌≡◌, refl, ap,
  ◌∙◌, ◌⊎◌, inl, inr, Bool-cases, arith, if◌then◌else◌,
}
use woa_rk.Base.Flags.{any_flag}
use woa_rk.Sd.Mshc.Types.{Host, NtStatus, nt_success, mshc_status, mshc_cmd, mshc_cmdarg}
use woa_rk.Sd.Mshc.Fields.{cmd_start_cmd, cmd_volt_switch, status_data_busy}
use woa_rk.Sd.Mshc.Registers.{
  read_register, write_register, poll, wait_data_idle, ciu_update_clock, and_then,
}

-- `g` is `h` but for the registers that `changes` names and for the count of reads.
pub record Same (changes : ℕ → Bool) (h g : Host) : Type 0 where
  pub keeps : g ≡ record h { regs = g.regs; reads = g.reads }
  pub others : (a : ℕ) → changes a ≡ false → g.regs a ≡ h.regs a

pub Same-refl : (changes : ℕ → Bool) (h : Host) → Same changes h h
Same-refl changes h = record { keeps = refl; others = λ a e. refl }

pub Same-trans :
    (changes : ℕ → Bool) (h g k : Host) → Same changes h g → Same changes g k → Same changes h k
Same-trans changes h g k p q = record {
  keeps = q.keeps ∙ ap (λ (x : Host). record x { regs = k.regs; reads = k.reads }) p.keeps;
  others = λ a e. q.others a e ∙ p.others a e;
}

-- A store to one register.
pub Same-write :
    (changes : ℕ → Bool) (a v : ℕ) (h : Host)
    → changes a ≡ true
    → Same changes h (write_register a v h)
unfolding write_register
Same-write changes a v h e = record {
  keeps = refl;
  others = λ b f. elim (Bool-cases (a == b)) [
    | inl same ↦ absurd (ground (arith, same, e, f))
    | inr other ↦ rw other refl
  ];
}

pub and_then-cases :
    (r : Host × NtStatus) (next : Host → Host × NtStatus)
    → ((nt_success r.1 ≡ true) × (and_then r next ≡ next r.0))
      ⊎ ((nt_success r.1 ≡ false) × (and_then r next ≡ r))
unfolding and_then
and_then-cases r next = elim (Bool-cases (nt_success r.1)) [
  | inl e ↦ inl (e, rw (e, and_then) refl)
  | inr e ↦ inr (e, rw (e, and_then) refl)
]

module _ (device : ℕ → ℕ → ℕ) where
  -- One of the next `tries` reads of the register at `a` finds the bits clear.
  abbrev pub Clears : (a : ℕ) → List ℕ → (reads tries : ℕ) → Type 0
  Clears a bits reads tries = (i : ℕ) × (i < tries) × (any_flag (device (reads + i) a) bits ≡ false)

  Same-read :
      (changes : ℕ → Bool) (a : ℕ) (h : Host)
      → changes a ≡ true
      → Same changes h (read_register device a h)
  unfolding read_register
  Same-read changes a h e = record {
    keeps = refl;
    others = λ b f. elim (Bool-cases (a == b)) [
      | inl same ↦ absurd (ground (arith, same, e, f))
      | inr other ↦ rw other refl
    ];
  }

  pub poll-Same :
      (changes : ℕ → Bool) (tries a : ℕ) (bits : List ℕ) (h : Host)
      → changes a ≡ true
      → Same changes h (poll device tries a bits h).0
  unfolding poll
  poll-Same changes zero a bits h e = Same-refl changes h
  poll-Same changes (suc tries) a bits h e =
      let first = Same-read changes a h e in
      elim (Bool-cases (any_flag (device h.reads a) bits)) [
        | inl f ↦
            let rest = poll-Same changes tries a bits (read_register device a h) e in
            rw (f, poll) (Same-trans changes _ _ _ first rest)
        | inr f ↦ rw (f, poll) first
      ]

  -- The loop has read `k` times: it ended with the first read that finds the bits clear, or all of
  -- its tries found one set.
  abbrev pub Waited : (a : ℕ) → List ℕ → (reads tries k : ℕ) → Type 0
  Waited a bits reads tries k =
      ((i : ℕ) × (k ≡ suc i)
        × (k ≤ tries)
        × (any_flag (device (reads + i) a) bits ≡ false)
        × ((j : ℕ) → j < i → any_flag (device (reads + j) a) bits ≡ true))
      ⊎ ((k ≡ tries) × ((j : ℕ) → j < tries → any_flag (device (reads + j) a) bits ≡ true))

  -- The registers that the clock update writes or reads.
  abbrev pub update_changes : ℕ → Bool
  update_changes a = (a == mshc_status) || ((a == mshc_cmd) || (a == mshc_cmdarg))

  pub wait_data_idle-Same : (h : Host) → Same update_changes h (wait_data_idle device h).0
  unfolding wait_data_idle
  wait_data_idle-Same h = poll-Same update_changes 100000 mshc_status (status_data_busy ∷ []) h refl

  -- What the clock update does before it writes its command.
  unfoldable before : (flags : ℕ) → Host → Host
  before flags h = if flag flags cmd_volt_switch then h else (wait_data_idle device h).0

  before-Same : (flags : ℕ) (h : Host) → Same update_changes h (before flags h)
  unfolding before
  before-Same flags h = elim (Bool-cases (flag flags cmd_volt_switch)) [
    | inl e ↦ rw e (Same-refl update_changes h)
    | inr e ↦ rw e (wait_data_idle-Same h)
  ]

  pub ciu_update_clock-Same :
      (flags : ℕ) (h : Host) → Same update_changes h (ciu_update_clock device flags h).0
  unfolding ciu_update_clock before
  ciu_update_clock-Same flags h =
      let a = before-Same flags h in
      let b = Same-write update_changes mshc_cmdarg 0 (before flags h) refl in
      let c =
        Same-write update_changes mshc_cmd _ (write_register mshc_cmdarg 0 (before flags h)) refl in
      Same-trans update_changes _ _ _
        (Same-trans update_changes _ _ _ (Same-trans update_changes _ _ _ a b) c)
        (poll-Same update_changes 200000 mshc_cmd (cmd_start_cmd ∷ []) _ refl)
