-- ===== src/Map/Popup/Sections.antt =====
-- The sections of the popup of a marker: which texts of the network it escapes, and that no section
-- is shown without a line.
use Prim.Native.String.{String}
use meshtastic_proxy.Base.{
  ℕ, ℤ, List, [], ◌∷◌, ◌++◌, Text, Bool, true, false, ◌||◌, ◌&&◌, not, Option, none, some, ◌≡◌,
  refl, arith, ◌↔◌, inl, inr, All, All-append, Locale, truthy, text_truthy, option_truthy,
  int_truthy, nat_truthy, text_or, Bool-cases, if◌then◌else◌,
}
use mathlib.Core.Path.{subst}
use meshtastic_proxy.Mesh.Labels.{format_hw_model, format_role}
use meshtastic_proxy.Directory.{Entry}
use meshtastic_proxy.Nodes.Row.{Printer}
use meshtastic_proxy.Nodes.Row.Laws.{PlainText}
use meshtastic_proxy.Map.Popup.{
  Line, line_if, section, identity_section, radio_section, device_section, environment_section,
  battery_line, coords_line, place_lines, place_section, popup_with, Popup, node_popup,
}
use meshtastic_proxy.Trace.Route.{has_position}
use meshtastic_proxy.Trace.Machine.{Machine}

abbrev pub PlainLines : List Line → Type 0
PlainLines ls = All (λ l. PlainText l.value) ls

line_if-Plain :
    (label : String) (f : Text → Text) (o : Option Text)
    → f [] ≡ []
    → PlainLines (line_if (truthy o) label (f (text_or o))) ↔ PlainText (f (text_or o))
line_if-Plain label f none e = (λ h. rw e tt, λ h. tt)
line_if-Plain label f (some []) e = (λ h. rw e tt, λ h. tt)
line_if-Plain label f (some (c ∷ t)) e = (λ h. h.0, λ h. (h, tt))

PlainLines-split : (xs ys : List Line) → PlainLines (xs ++ ys) → PlainLines xs × PlainLines ys
PlainLines-split [] ys h = (tt, h)
PlainLines-split (x ∷ xs) ys h =
    let (front, back) = PlainLines-split xs ys h.1 in ((h.0, front), back)

both :
    (xs ys : List Line) {P Q : Type 0}
    → PlainLines xs ↔ P
    → PlainLines ys ↔ Q
    → PlainLines (xs ++ ys) ↔ (P × Q)
both xs ys p q = (
  λ h. let (front, back) = PlainLines-split xs ys h in (p.0 front, q.0 back),
  λ h. All-append (λ l. PlainText l.value) xs ys (p.1 h.0) (q.1 h.1),
)

format_hw_model-nil : (loc : Locale) → format_hw_model loc [] ≡ []
unfolding format_hw_model
format_hw_model-nil loc = refl

format_role-nil : (loc : Locale) → format_role loc [] ≡ []
unfolding format_role
format_role-nil loc = refl

-- The three texts of the identity section are free of `<` and `>`.
abbrev pub IsCleanIdentity : Locale → Entry → Type 0
IsCleanIdentity loc e =
    PlainText (text_or e.user_id)
    × (PlainText (format_hw_model loc (text_or e.hw_model))
        × PlainText (format_role loc (text_or e.role)))

-- The identity section of a popup puts the id, the model and the role into the markup as they come:
-- its lines are free of `<` and `>` exactly if the id that the node sent and the two labels are.
pub identity_section-Plain :
    (loc : Locale) (e : Entry) (ls : List Line)
    → identity_section loc e ≡ some ls
    → PlainLines ls ↔ IsCleanIdentity loc e
unfolding identity_section
identity_section-Plain loc e ls h = go (truthy e.hw_model || (truthy e.role || truthy e.user_id)) h
  where
    lines : List Line
    lines =
        line_if (truthy e.user_id) "ID" (text_or e.user_id)
        ++ (line_if (truthy e.hw_model) "Hardware" (format_hw_model loc (text_or e.hw_model))
            ++ line_if (truthy e.role) "Role" (format_role loc (text_or e.role)))

    all_lines : PlainLines lines ↔ IsCleanIdentity loc e
    all_lines = both _ _ (line_if-Plain "ID" (λ t. t) e.user_id refl) (
        both _ _
          (line_if-Plain "Hardware" (format_hw_model loc) e.hw_model (format_hw_model-nil loc))
          (line_if-Plain "Role" (format_role loc) e.role (format_role-nil loc)))

    go : (b : Bool) → section b lines ≡ some ls → PlainLines ls ↔ IsCleanIdentity loc e
    go false h = absurd (cc h)
    go true h =
        let same : lines ≡ ls = cc in
        subst (λ x. PlainLines x ↔ IsCleanIdentity loc e) same all_lines

-- A section that is left out, or that has a line.
abbrev IsFilled : Option (List Line) → Type 0
IsFilled none = Unit
IsFilled (some []) = ⊥
IsFilled (some (l ∷ ls)) = Unit

-- Sections by the conditions of their lines.
filled_three :
    (a b c : Bool) (t u v : Text)
    → IsFilled (
        section
          (b || (c || a))
          (line_if a "ID" t ++ (line_if b "Hardware" u ++ line_if c "Role" v)))
filled_three true b c t u v = ground arith
filled_three false true c t u v = tt
filled_three false false true t u v = tt
filled_three false false false t u v = tt

filled_radio :
    (snr rssi live heard hops channel : Bool) (t1 t2 t3 t4 t5 t6 : Text)
    → IsFilled (
        section (snr || (rssi || (live || (heard || (hops || channel))))) (
          line_if rssi "RSSI" t1
          ++ (line_if live "SNR (live)" t2
              ++ (line_if (snr && not live) "SNR" t3
                  ++ (line_if hops "Hops" t4
                      ++ (line_if channel "Channel" t5 ++ line_if heard "Last heard" t6))))))
filled_radio snr rssi live heard hops channel t1 t2 t3 t4 t5 t6 = ground arith

filled_device :
    (voltage uptime channel air : Bool) (e : Entry) (t1 t2 t3 t4 : Text)
    → IsFilled (
        section (truthy e.battery_level || (voltage || (uptime || (channel || air)))) (
          battery_line e
          ++ (line_if voltage "Voltage" t1
              ++ (line_if uptime "Uptime" t2
                  ++ (line_if channel "Ch. util" t3 ++ line_if air "Air TX" t4)))))
unfolding battery_line
filled_device voltage uptime channel air e t1 t2 t3 t4 =
    elim (Bool-cases (truthy e.battery_level)) [ inl h ↦ rw h tt | inr h ↦ rw h (ground arith) ]

filled_environment :
    (temp humid press : Bool) (t u v : Text)
    → IsFilled (
        section
          (temp || (humid || press))
          (line_if temp "Temp" t ++ (line_if humid "Humidity" u ++ line_if press "Pressure" v)))
filled_environment temp humid press t u v = ground arith

filled_coords :
    (pr : Printer) (la lo : Option ℤ) (rest ls : List Line)
    → elim (coords_line pr la lo) [ none ↦ none | some first ↦ some (some (first ++ rest)) ]
      ≡ some (some ls)
    → IsFilled (some ls)
unfolding coords_line
filled_coords pr none lo rest ls h = absurd (cc h)
filled_coords pr (some a) none rest ls h = absurd (cc h)
filled_coords pr (some a) (some o) rest [] h = absurd (cc h)
filled_coords pr (some a) (some o) rest (l ∷ ls) h = tt

filled_place :
    (pr : Printer) (now : ℕ) (e : Entry) (o : Option (List Line))
    → place_section pr now e ≡ some o
    → IsFilled o
unfolding place_section
filled_place pr now e none h = tt
filled_place pr now e (some ls) h = go (has_position e) h
  where
    go :
        (b : Bool)
        → (if b
            then elim (coords_line pr e.latitude e.longitude) [
              | none ↦ none
              | some first ↦ some (some (first ++ place_lines now e))
            ]
            else some none)
          ≡ some (some ls)
        → IsFilled (some ls)
    go true h = filled_coords pr e.latitude e.longitude (place_lines now e) ls h
    go false h = absurd (cc h)

-- No section of a popup is shown without a line under its title.
pub record HasLines (p : Popup) : Type 0 where
  pub identity : IsFilled p.identity
  pub radio : IsFilled p.radio
  pub place : IsFilled p.place
  pub device : IsFilled p.device
  pub environment : IsFilled p.environment

popup_with-HasLines :
    (loc : Locale) (pr : Printer) (now : ℕ) (s : Machine) (n : ℕ) (e : Entry)
    (place : Option (List Line))
    → IsFilled place
    → HasLines (popup_with loc pr now s n e place)
unfolding popup_with identity_section radio_section device_section environment_section
popup_with-HasLines loc pr now s n e place h = record {
  identity = search filled_three;
  radio = search filled_radio;
  place = h;
  device = search filled_device;
  environment = search filled_environment;
}

-- In a popup that is drawn, every section that is shown has a line under its title.
node_popup-HasLines :
    (loc : Locale) (pr : Printer) (now : ℕ) (s : Machine) (n : ℕ) (e : Entry) (p : Popup)
    → node_popup loc pr now s n e ≡ some p
    → HasLines p
unfolding node_popup
node_popup-HasLines loc pr now s n e p h = go (place_section pr now e) refl h
  where
    go :
        (o : Option (Option (List Line)))
        → place_section pr now e ≡ o
        → elim o [ none ↦ none | some place ↦ some (popup_with loc pr now s n e place) ] ≡ some p
        → HasLines p
    go none at h = absurd (cc h)
    go (some place) at h =
        let same : popup_with loc pr now s n e place ≡ p = cc in
        subst HasLines same
          (popup_with-HasLines loc pr now s n e place (filled_place pr now e place at))
