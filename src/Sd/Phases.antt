-- ===== src/Sd/Phases.antt =====
-- The ranges of good phases that the first loop of the tuning finds.
use woa_rk.Base.{
  ℕ, zero, suc, ◌+◌, ◌-◌, ◌≤◌, ◌<◌, Bool, true, false, ◌≡◌, refl, sym, ap, ◌∙◌, inl, inr,
  Bool-cases, ◌==◌, ==_iff, ==_ne, ltb, ltb→lt, ltb→le, if◌then◌else◌, update, arith,
}
use woa_rk.Sd.Tuning.{num_phases, Range, Scan, skip, good_phase, try_phase, scan, start_scan}

-- All phases of the range are good and below `n`.
pub record Run (ok : ℕ → Bool) (n : ℕ) (r : Range) : Type 0 where
  pub ordered : r.first ≤ r.last
  pub before : r.last < n
  pub good : (i : ℕ) → r.first ≤ i → i ≤ r.last → ok i ≡ true

-- What the loop has found of the phases below the index.
pub record Found (ok : ℕ → Bool) (s : Scan) : Type 0 where
  pub runs : (r : ℕ) → r < s.range_count → Run ok s.index (s.ranges r)
  pub gaps : (r q : ℕ) → r < q → q < s.range_count → (s.ranges r).last + 1 < (s.ranges q).first
  pub continues :
      s.previous_ok ≡ true
      → (0 < s.range_count) × ((s.ranges (s.range_count - 1)).last + 1 ≡ s.index)
  pub closed : s.previous_ok ≡ false → (r : ℕ) → r < s.range_count → (s.ranges r).last + 1 < s.index
  pub begins : 0 < s.index → s.first_ok ≡ true → (0 < s.range_count) × ((s.ranges 0).first ≡ 0)
  pub room : s.range_count + s.range_count ≤ s.index + 1
  pub more_room : s.previous_ok ≡ false → s.range_count + s.range_count ≤ s.index
  pub within : s.index ≤ num_phases
  pub fresh : s.index ≡ 0 → s.previous_ok ≡ false
  pub missed : 0 < s.index → s.range_count ≡ 0 → ok 0 ≡ false

later_Run : (ok : ℕ → Bool) (n m : ℕ) (r : Range) → n ≤ m → Run ok n r → Run ok m r
later_Run ok n m r h p = record {
  ordered = p.ordered;
  before = omega (arith, p.before, h);
  good = p.good;
}

skip_lem : (n : ℕ) → n < num_phases → (n < skip n) × (skip n ≤ num_phases)
unfolding skip
skip_lem n h = ground arith

pub start_scan-Found : (ok : ℕ → Bool) → Found ok start_scan
start_scan-Found ok = record {
  runs = λ r lt. absurd (omega arith);
  gaps = λ r q lt lt'. absurd (omega arith);
  continues = λ e. absurd (ground arith);
  closed = λ e r lt. absurd (omega arith);
  begins = λ pos e. absurd (omega arith);
  room = omega arith;
  more_room = λ e. omega arith;
  within = omega arith;
  fresh = λ e. refl;
  missed = λ pos e. absurd (omega arith);
}

-- A bad phase.
bad-Found :
    (ok : ℕ → Bool) (s : Scan) (n : ℕ)
    → Found ok s
    → (s.index ≡ 0 → s.first_ok ≡ false)
    → ok s.index ≡ false
    → s.index < n
    → n ≤ num_phases
    → Found ok (record s { index = n; previous_ok = false })
bad-Found ok s n p bad bad_phase less top = record {
  runs = λ r lt. later_Run ok s.index n (s.ranges r) (omega (arith, less)) (p.runs r lt);
  gaps = p.gaps;
  continues = λ e. absurd (ground (arith, e));
  closed = λ e r lt. omega (arith, (p.runs r lt).before, less);
  begins = λ pos e. elim (Bool-cases (s.index == 0)) [
    | inl f ↦ absurd (ground (arith, e, bad ((==_iff s.index 0).0 f)))
    | inr f ↦ p.begins (omega (arith, ==_ne s.index 0 f)) e
  ];
  room = omega (arith, p.room, less);
  more_room = λ e. omega (arith, p.room, less);
  within = top;
  fresh = λ e. refl;
  missed = λ pos e. elim (Bool-cases (s.index == 0)) [
    | inl f ↦ ap ok (sym ((==_iff s.index 0).0 f)) ∙ bad_phase
    | inr f ↦ p.missed (omega (arith, ==_ne s.index 0 f)) e
  ];
}

-- A good phase that begins a range.
begin-Found :
    (ok : ℕ → Bool) (s : Scan)
    → Found ok s
    → s.previous_ok ≡ false
    → ok s.index ≡ true
    → s.index < num_phases
    → Found ok (record s {
      index = s.index + 1;
      previous_ok = true;
      range_count = s.range_count + 1;
      ranges = update s.ranges s.range_count (record { first = s.index; last = s.index });
    })
begin-Found ok s p closed good less = record {
  runs = λ r lt. elim (Bool-cases (s.range_count == r)) [
    | inl e ↦ rw e record {
      ordered = omega arith;
      before = omega arith;
      good = λ i lo hi. let same : i ≡ s.index = omega (arith, lo, hi) in rw same good;
    }
    | inr e ↦ rw e (
        later_Run ok s.index (s.index + 1) (s.ranges r) (omega arith)
          (p.runs r (omega (arith, lt, ==_ne s.range_count r e))))
  ];
  gaps = λ r q lt lt'.
      let other : (s.range_count == r) ≡ false = ground (arith, lt, lt') in
      elim (Bool-cases (s.range_count == q)) [
        | inl e ↦ rw (other, e) (p.closed closed r (omega (arith, lt, lt')))
        | inr e ↦ rw (other, e) (p.gaps r q lt (omega (arith, lt', ==_ne s.range_count q e)))
      ];
  continues = λ e.
      let same : (s.range_count == s.range_count + 1 - 1) ≡ true = ground arith in
      (omega arith, rw same refl);
  closed = λ e. absurd (ground (arith, e));
  begins = λ pos e. elim (Bool-cases (s.index == 0)) [
    | inl f ↦
        let start : s.index ≡ 0 = (==_iff s.index 0).0 f in
        let none_yet : (s.range_count == 0) ≡ true = ground (arith, p.more_room closed, start) in
        (omega arith, rw none_yet start)
    | inr f ↦
        let b = p.begins (omega (arith, ==_ne s.index 0 f)) e in
        let other : (s.range_count == 0) ≡ false = ground (arith, b.0) in
        (omega arith, rw other b.1)
  ];
  room = omega (arith, p.more_room closed);
  more_room = λ e. absurd (ground (arith, e));
  within = omega (arith, less);
  fresh = λ e. absurd (omega (arith, e));
  missed = λ pos e. absurd (omega (arith, e));
}

-- A good phase that goes on with the last range.
extend-Found :
    (ok : ℕ → Bool) (s : Scan)
    → Found ok s
    → s.previous_ok ≡ true
    → ok s.index ≡ true
    → s.index < num_phases
    → Found ok (record s {
      index = s.index + 1;
      ranges =
          update s.ranges
            (s.range_count - 1)
            (record (s.ranges (s.range_count - 1)) { last = s.index });
    })
extend-Found ok s p goes_on good less =
    let (some_range, ends) = p.continues goes_on in
    let final = s.range_count - 1 in
    let old = p.runs final (omega (arith, some_range)) in
    record {
      runs = λ r lt. elim (Bool-cases (final == r)) [
        | inl e ↦ rw e record {
          ordered = omega (arith, old.ordered, ends);
          before = omega arith;
          good = λ i lo hi. elim (Bool-cases (i == s.index)) [
            | inl f ↦ let same : i ≡ s.index = (==_iff i s.index).0 f in rw same good
            | inr f ↦ old.good i lo (omega (arith, hi, ends, ==_ne i s.index f))
          ];
        }
        | inr e ↦ rw e (later_Run ok s.index (s.index + 1) (s.ranges r) (omega arith) (p.runs r lt))
      ];
      gaps = λ r q lt lt'.
          let other : (final == r) ≡ false = ground (arith, lt, lt') in
          elim (Bool-cases (final == q)) [
            | inl e ↦
                let same : final ≡ q = (==_iff final q).0 e in
                rw (other, e) (p.gaps r final (omega (arith, lt, same)) (omega (arith, some_range)))
            | inr e ↦ rw (other, e) (p.gaps r q lt lt')
          ];
      continues =
          λ e. let same : (final == final) ≡ true = ground arith in (some_range, rw same refl);
      closed = λ e. absurd (ground (arith, e, goes_on));
      begins = λ pos e.
          let b = p.begins (omega (arith, ends)) e in
          elim (Bool-cases (final == 0)) [
            | inl f ↦ let same : final ≡ 0 = (==_iff final 0).0 f in (b.0, rw (f, same) b.1)
            | inr f ↦ (b.0, rw f b.1)
          ];
      room = omega (arith, p.room);
      more_room = λ e. absurd (ground (arith, e, goes_on));
      within = omega (arith, less);
      fresh = λ e. absurd (omega (arith, e));
      missed = λ pos e. absurd (omega (arith, e, some_range));
    }

-- A state that was chosen keeps what both would have.
if_Found :
    (ok : ℕ → Bool) (n : ℕ) (x y : Scan) (b : Bool)
    → (b ≡ true → Found ok x × (n < x.index))
    → (b ≡ false → Found ok y × (n < y.index))
    → Found ok (if b then x else y) × (n < (if b then x else y).index)
if_Found ok n x y true p q = p refl
if_Found ok n x y false p q = q refl

judge_Found :
    (ok : ℕ → Bool) (s : Scan)
    → Found ok s
    → (s.index ≡ 0 → s.first_ok ≡ ok s.index)
    → s.index < num_phases
    → Found ok (
        if ok s.index then good_phase s else record s { index = skip s.index; previous_ok = false })
      × (s.index
          < (if ok s.index
              then good_phase s
              else record s { index = skip s.index; previous_ok = false }).index)
unfolding good_phase
judge_Found ok s p first less =
    if_Found ok s.index _ _ (ok s.index)
      (λ good.
        if_Found ok s.index _ _ s.previous_ok (λ e. (extend-Found ok s p e good less, omega arith))
          (λ e. (begin-Found ok s p e good less, omega arith)))
      (λ bad.
        let (more, top) = skip_lem s.index less in
        (bad-Found ok s (skip s.index) p (λ z. first z ∙ bad) bad more top, more))

first_Found :
    (ok : ℕ → Bool) (s : Scan) (b : Bool)
    → Found ok s
    → s.index ≡ 0
    → Found ok (record s { first_ok = b })
first_Found ok s b p e = record {
  runs = p.runs;
  gaps = p.gaps;
  continues = p.continues;
  closed = p.closed;
  begins = λ pos f. absurd (omega (arith, pos, e));
  room = p.room;
  more_room = p.more_room;
  within = p.within;
  fresh = p.fresh;
  missed = λ pos f. absurd (omega (arith, pos, e));
}

try_phase-Found :
    (ok : ℕ → Bool) (s : Scan)
    → Found ok s
    → s.index < num_phases
    → Found ok (try_phase ok s) × (s.index < (try_phase ok s).index)
unfolding try_phase
try_phase-Found ok s p less = elim (Bool-cases (s.index == 0)) [
  | inl e ↦
      let start : s.index ≡ 0 = (==_iff s.index 0).0 e in
      rw (e, try_phase)
        (judge_Found ok (record s { first_ok = ok s.index }) (first_Found ok s (ok s.index) p start)
          (λ z. refl) less)
  | inr e ↦
      rw (e, try_phase)
        (judge_Found ok s p (λ z. absurd (omega (arith, z, ==_ne s.index 0 e))) less)
]

-- With enough fuel, the first loop ends at the last index, and it has found what `Found` says.
pub scan-Found :
    (ok : ℕ → Bool) (fuel : ℕ) (s : Scan)
    → Found ok s
    → num_phases ≤ fuel + s.index
    → Found ok (scan ok fuel s) × ((scan ok fuel s).index ≡ num_phases)
unfolding scan
scan-Found ok zero s p enough = (p, omega (arith, p.within, enough))
scan-Found ok (suc fuel) s p enough = elim (Bool-cases (ltb s.index num_phases)) [
  | inl e ↦
      let (q, more) = try_phase-Found ok s p (ltb→lt s.index num_phases e) in
      rw (e, scan) (scan-Found ok fuel (try_phase ok s) q (omega (arith, more, enough)))
  | inr e ↦ rw (e, scan) (p, omega (arith, p.within, ltb→le s.index num_phases e))
]
