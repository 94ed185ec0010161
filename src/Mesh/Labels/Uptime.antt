-- ===== src/Mesh/Labels/Uptime.antt =====
-- What an uptime of a node is told as.
use meshtastic_proxy.Base.{
  ℕ, zero, suc, ◌+◌, ◌*◌, ◌/◌, ◌%◌, ◌≤◌, ◌<◌, ◌++◌, Text, text, ltb, ◌≡◌, arith, Bool-cases, inl,
  inr, nat_truthy, ◌⊎◌, ltb→lt,
}
use meshtastic_proxy.Mesh.Hex.{to_string}
use meshtastic_proxy.Mesh.Labels.{format_uptime}

-- Two units, the larger first.
pub data Span : Type 0 where
  days_hours hours_minutes : Span

-- Seconds of the larger and of the smaller unit, and how many of the smaller one the larger has.
abbrev pub large : Span → ℕ
large days_hours = 86400
large hours_minutes = 3600

abbrev pub small : Span → ℕ
small days_hours = 3600
small hours_minutes = 60

abbrev pub told : Span → ℕ → ℕ → Text
told days_hours a b = to_string 10 a ++ (text "d " ++ (to_string 10 b ++ text "h"))
told hours_minutes a b = to_string 10 a ++ (text "h " ++ (to_string 10 b ++ text "m"))

-- An uptime that is told in two units: they lose less than one of the smaller unit, and the smaller
-- count is below one of the larger unit.
abbrev TellsTwo : ℕ → Text → Type 0
TellsTwo secs t =
    (u : Span) × (a : ℕ) × (b : ℕ) × (t ≡ told u a b)
    × (0 < a)
    × (b * small u < large u)
    × (a * large u + b * small u ≤ secs)
    × (secs < a * large u + b * small u + small u)

abbrev TellsMinutes : ℕ → Text → Type 0
TellsMinutes secs t =
    (m : ℕ) × (t ≡ to_string 10 m ++ text "m") × (m < 60) × (m * 60 ≤ secs) × (secs < m * 60 + 60)

-- An uptime that is not 0 is told in days and hours, in hours and minutes, or in minutes, the larger
-- unit not 0 and the smaller one below one of the larger; it is rounded down by less than one of the
-- smaller unit.
format_uptime_lem :
    (secs : ℕ)
    → 0 < secs
    → TellsTwo secs (format_uptime secs) ⊎ TellsMinutes secs (format_uptime secs)
format_uptime_lem zero p = absurd (omega arith)
format_uptime_lem (suc n) p = elim (Bool-cases (ltb 0 (suc n / 86400))) [
  | inl days ↦ inl (
    days_hours,
    suc n / 86400,
    suc n % 86400 / 3600,
    unfold format_uptime in rw days,
    ltb→lt 0 (suc n / 86400) days,
    omega arith,
    omega arith,
    omega arith,
  )
  | inr short ↦ elim (Bool-cases (ltb 0 (suc n % 86400 / 3600))) [
    | inl hours ↦
        let no_day : suc n / 86400 ≡ 0 = ground arith in
        inl (
          hours_minutes,
          suc n % 86400 / 3600,
          suc n % 3600 / 60,
          unfold format_uptime in rw (short, hours),
          ltb→lt 0 (suc n % 86400 / 3600) hours,
          omega arith,
          omega arith,
          omega arith,
        )
    | inr shorter ↦
        let no_day : suc n / 86400 ≡ 0 = ground arith in
        let no_hour : suc n % 86400 / 3600 ≡ 0 = ground arith in
        inr (
          suc n % 3600 / 60,
          unfold format_uptime in rw (short, shorter),
          omega arith,
          omega arith,
          omega arith,
        )
  ]
]
