-- ===== src/Net/Device/Config.antt =====
-- What `UpdateLinkState` changes in the configuration.
use woa_rk.Base.{
  ℕ, ◌/◌, ◌%◌, ◌<◌, ◌≡◌, ap, Option, none, some, ◌⊎◌, inl, inr, Bool-cases, subst, ◌==◌, ==_iff,
  ==_ne, refl, field, arith,
}
use woa_rk.Net.Device.Link.{link_speed, with_field, new_config}

-- The two fields of the configuration, and what is below and above them.
abbrev pub Configured : (duplex code config result : ℕ) → Type 0
Configured duplex code config result =
    (field result 13 1 ≡ duplex)
    × (field result 14 2 ≡ code)
    × (result % 8192 ≡ config % 8192)
    × (result / 65536 ≡ config / 65536)

set_both :
    (duplex code config : ℕ)
    → duplex < 2
    → code < 4
    → Configured duplex code config (with_field 14 2 code (with_field 13 1 duplex config))
unfolding with_field
set_both duplex code config d c = (omega arith, omega arith, omega arith, omega arith)

set_duplex :
    (duplex config : ℕ)
    → duplex < 2
    → Configured duplex (field config 14 2) config (with_field 13 1 duplex config)
unfolding with_field
set_duplex duplex config d = (omega arith, omega arith, omega arith, omega arith)

value : Option ℕ → ℕ
value none = 0
value (some x) = x

known_code : (control : ℕ) → value ((link_speed control).select) < 4
unfolding link_speed value
known_code control = elim (Bool-cases (field control 17 2 == 0)) [
  | inl e ↦ rw (e, link_speed) (omega arith)
  | inr e ↦ elim (Bool-cases (field control 17 2 == 1)) [
    | inl f ↦ rw (e, f, link_speed) (omega arith)
    | inr f ↦ elim (Bool-cases (field control 17 2 == 2)) [
      | inl g ↦ rw (e, f, g, link_speed) (omega arith)
      | inr g ↦ rw (e, f, g, link_speed) (omega arith)
    ]
  ]
]

code_fits : (control code : ℕ) → (link_speed control).select ≡ some code → code < 4
unfolding value
code_fits control code e = subst (λ x. x < 4) (ap value e) (known_code control)

selected :
    (control config code : ℕ)
    → (link_speed control).select ≡ some code
    → Configured (field control 16 1) code config (new_config control config)
unfolding new_config
selected control config code e =
    rw (e, new_config)
      (set_both (field control 16 1) code config (omega arith) (code_fits control code e))

unselected :
    (control config : ℕ)
    → (link_speed control).select ≡ none
    → Configured (field control 16 1) (field config 14 2) config (new_config control config)
unfolding new_config
unselected control config e =
    rw (e, new_config) (set_duplex (field control 16 1) config (omega arith))

-- The new configuration has the duplex mode that the link reports; its code of the speed is 2 for a
-- link of 10 Mbit/s, which reports 0, 3 for one of 100 Mbit/s, which reports 1, 0 for one of
-- 1000 Mbit/s, which reports 2, and else the code that was there; all other bits stay.
pub new_config_lem :
    (control config : ℕ)
    → ((field control 17 2 ≡ 0)
        × Configured (field control 16 1) 2 config (new_config control config))
      ⊎ ((field control 17 2 ≡ 1)
          × Configured (field control 16 1) 3 config (new_config control config))
      ⊎ ((field control 17 2 ≡ 2)
          × Configured (field control 16 1) 0 config (new_config control config))
      ⊎ ((field control 17 2 ≡ 3)
          × Configured (field control 16 1) (field config 14 2) config (new_config control config))
unfolding link_speed
new_config_lem control config = elim (Bool-cases (field control 17 2 == 0)) [
  | inl e ↦
      inl ((==_iff (field control 17 2) 0).0 e, selected control config 2 (rw (e, link_speed) refl))
  | inr e ↦ elim (Bool-cases (field control 17 2 == 1)) [
    | inl f ↦ inr (
        inl (
          (==_iff (field control 17 2) 1).0 f,
          selected control config 3 (rw (e, f, link_speed) refl),
        ))
    | inr f ↦ elim (Bool-cases (field control 17 2 == 2)) [
      | inl g ↦ inr (
          inr (
            inl (
              (==_iff (field control 17 2) 2).0 g,
              selected control config 0 (rw (e, f, g, link_speed) refl),
            )))
      | inr g ↦
          let last : field control 17 2 ≡ 3 = omega (
            arith,
            ==_ne (field control 17 2) 0 e,
            ==_ne (field control 17 2) 1 f,
            ==_ne (field control 17 2) 2 g,
          ) in
          inr (inr (inr (last, unselected control config (rw (e, f, g, link_speed) refl))))
    ]
  ]
]
