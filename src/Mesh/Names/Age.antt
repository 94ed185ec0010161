-- ===== src/Mesh/Names/Age.antt =====
-- `formatUnixAge`: which unit an age is told in, and that it is rounded down.
use meshtastic_proxy.Base.{
  ℕ, zero, suc, ◌+◌, ◌-◌, ◌*◌, ◌/◌, ◌≤◌, ◌<◌, ◌++◌, Text, text, Bool, true, false, ltb,
  if◌then◌else◌, ◌≡◌, refl, arith, nat_truthy, ltb-false, ap,
}
use meshtastic_proxy.Mesh.Hex.{to_string}
use meshtastic_proxy.Mesh.Names.{format_unix_age}

pub data AgeUnit : Type 0 where
  second minute hour day : AgeUnit

abbrev pub seconds_of : AgeUnit → ℕ
seconds_of second = 1
seconds_of minute = 60
seconds_of hour = 3600
seconds_of day = 86400

abbrev pub suffix : AgeUnit → Text
suffix second = text "s ago"
suffix minute = text "m ago"
suffix hour = text "h ago"
suffix day = text "d ago"

-- An age in a unit tells a number of it that fits: below the next unit, and not 0 but in seconds.
abbrev pub Fits : AgeUnit → ℕ → Type 0
Fits second k = k < 60
Fits minute k = (0 < k) × (k < 60)
Fits hour k = (0 < k) × (k < 24)
Fits day k = 0 < k

abbrev unit_for : ℕ → AgeUnit
unit_for d =
    if ltb d 60 then second else if ltb d 3600 then minute else if ltb d 86400 then hour else day

tell : AgeUnit → ℕ → Text
tell u d = to_string 10 (d / seconds_of u) ++ suffix u

tests-tell :
    (d : ℕ) (b c e : Bool)
    → (if b
        then to_string 10 d ++ text "s ago"
        else if c
        then to_string 10 (d / 60) ++ text "m ago"
        else if e
        then to_string 10 (d / 3600) ++ text "h ago"
        else to_string 10 (d / 86400) ++ text "d ago")
      ≡ tell (if b then second else if c then minute else if e then hour else day) d
unfolding tell
tests-tell d true c e = ap (λ k. to_string 10 k ++ text "s ago") (omega arith)
tests-tell d false true e = refl
tests-tell d false false true = refl
tests-tell d false false false = refl

format_unix_age-tell :
    (now ts : ℕ)
    → 0 < ts
    → ts ≤ now
    → format_unix_age now ts ≡ tell (unit_for (now - ts)) (now - ts)
unfolding format_unix_age
format_unix_age-tell now zero p h = absurd (omega arith)
format_unix_age-tell now (suc t) p h =
    let d = now - suc t in
    rw (ltb-false now (suc t) h) (tests-tell d (ltb d 60) (ltb d 3600) (ltb d 86400))

unit_for-Fits : (d : ℕ) → Fits (unit_for d) (d / seconds_of (unit_for d))
unit_for-Fits d = ground arith

quotient_bounds :
    (d : ℕ) (u : AgeUnit)
    → (d / seconds_of u * seconds_of u ≤ d) × (d < (d / seconds_of u + 1) * seconds_of u)
quotient_bounds d second = ground arith
quotient_bounds d minute = ground arith
quotient_bounds d hour = ground arith
quotient_bounds d day = ground arith

-- The age of a time stamp that is set and not in the future is told in one unit, in a number that
-- fits the unit, and is rounded down: the stated age is not over the real one, and less than one
-- unit under it.
pub format_unix_age_lem :
    (now ts : ℕ)
    → 0 < ts
    → ts ≤ now
    → (u : AgeUnit) × (k : ℕ) × (format_unix_age now ts ≡ to_string 10 k ++ suffix u)
      × Fits u k
      × (k * seconds_of u ≤ now - ts)
      × (now - ts < (k + 1) * seconds_of u)
unfolding tell
format_unix_age_lem now ts p h =
    let d = now - ts in
    let u = unit_for d in
    let (low, high) = quotient_bounds d u in
    (u, d / seconds_of u, format_unix_age-tell now ts p h, unit_for-Fits d, low, high)
