-- ===== src/Traffic/Window.antt =====
-- The traffic chart shows a window of the samples: the three lists stay in step.
use mathlib.Core.List.{map-append}
use meshtastic_proxy.Base.{
  ℕ, zero, suc, ◌-◌, ◌≤◌, List, [], ◌∷◌, ◌++◌, map, Option, none, some, ltb, ◌≡◌, refl, sym, ap,
  ◌∙◌, arith, length, length-append, length-map, length-drop, drop, map-drop, Bool-cases, inl, inr,
  ltb→lt,
}
use meshtastic_proxy.Traffic.{
  Sample, Chart, Snapshot, replace_series, shift_loop, push_sample, update_chart, latest, series_of,
}

-- The chart shows these samples.
pub record Shows (c : Chart) (ss : List Sample) : Type 0 where
  pub labels : c.labels ≡ map (λ s. s.ts) ss
  pub frames_in : c.frames_in ≡ map (λ s. s.fi) ss
  pub frames_out : c.frames_out ≡ map (λ s. s.fo) ss

drop-nil : (n : ℕ) → ◌≡◌ {A = List ℕ} (drop n []) []
drop-nil zero = refl
drop-nil (suc n) = refl

drop_one-drop : (n : ℕ) (xs : List ℕ) → drop n (drop 1 xs) ≡ drop (suc n) xs
drop_one-drop n [] = drop-nil n
drop_one-drop n (x ∷ xs) = refl

-- The loop drops from each list as many elements as the labels are too many.
shift_loop_lem :
    (m : ℕ) (ls ins outs : List ℕ)
    → shift_loop m ls ins outs
      ≡ (drop (length ls - m) ls, drop (length ls - m) ins, drop (length ls - m) outs)
unfolding shift_loop
shift_loop_lem m [] ins outs = let none_left : 0 - m ≡ 0 = omega arith in rw none_left
shift_loop_lem m (l ∷ ls) ins outs = elim (Bool-cases (ltb m (length (l ∷ ls)))) [
  | inl more ↦
      let over : suc (length ls) - m ≡ suc (length ls - m) =
        omega (arith, ltb→lt m (suc (length ls)) more) in
      rw (
        more,
        over,
        shift_loop_lem m ls (drop 1 ins) (drop 1 outs),
        drop_one-drop (length ls - m) ins,
        drop_one-drop (length ls - m) outs,
      )
  | inr fits ↦ let none_left : suc (length ls) - m ≡ 0 = ground arith in rw (fits, none_left)
]

-- The window after one more sample: the last `m` of the samples.
abbrev pub window : ℕ → List Sample → List Sample
window m ss = drop (length ss - m) ss

Shows-dropped :
    (k : ℕ) (ss : List Sample) (s : Sample) (f : Sample → ℕ) (xs : List ℕ)
    → xs ≡ map f ss
    → drop k (xs ++ f s ∷ []) ≡ map f (drop k (ss ++ s ∷ []))
Shows-dropped k ss s f xs e =
    ap (drop k) (ap (λ l. l ++ f s ∷ []) e ∙ sym (map-append f ss (s ∷ [])))
    ∙ sym (map-drop f k (ss ++ s ∷ []))

push_sample-Shows :
    (s : Sample) (c : Chart) (ss : List Sample)
    → Shows c ss
    → Shows (push_sample s c) (window c.max_points (ss ++ s ∷ []))
unfolding push_sample
push_sample-Shows s c ss v =
    let k : ℕ = length (c.labels ++ s.ts ∷ []) - c.max_points in
    let loop =
      shift_loop_lem c.max_points (c.labels ++ s.ts ∷ []) (c.frames_in ++ s.fi ∷ [])
        (c.frames_out ++ s.fo ∷ []) in
    let same : length c.labels ≡ length ss = ap length v.labels ∙ length-map (λ s. s.ts) ss in
    let cut : length (ss ++ s ∷ []) - c.max_points ≡ k =
      omega (arith, length-append ss (s ∷ []), length-append c.labels (s.ts ∷ []), same) in
    record {
      labels =
          ap (λ t. t.0) loop
          ∙ Shows-dropped k ss s (λ s. s.ts) c.labels v.labels
          ∙ ap (λ i. map (λ s. s.ts) (drop i (ss ++ s ∷ []))) (sym cut);
      frames_in =
          ap (λ t. t.1) loop
          ∙ Shows-dropped k ss s (λ s. s.fi) c.frames_in v.frames_in
          ∙ ap (λ i. map (λ s. s.fi) (drop i (ss ++ s ∷ []))) (sym cut);
      frames_out =
          ap (λ t. t.2) loop
          ∙ Shows-dropped k ss s (λ s. s.fo) c.frames_out v.frames_out
          ∙ ap (λ i. map (λ s. s.fo) (drop i (ss ++ s ∷ []))) (sym cut);
    }

-- What the chart should show after a snapshot or a delta.
abbrev pub samples_after : Snapshot → ℕ → List Sample → List Sample
samples_after snap m ss = elim (series_of snap.traffic_series) [
  | s ∷ rest ↦ s ∷ rest
  | [] ↦ elim snap.latest_sample [ none ↦ ss | some s ↦ window m (ss ++ s ∷ []) ]
]

-- If the three lists of the chart show a list of samples, then after an event they again show one:
-- the series of a full snapshot, or the old samples and the new one, cut to the last ones that the
-- limit allows.
pub update_chart-Shows :
    (snap : Snapshot) (c : Chart) (ss : List Sample)
    → Shows c ss
    → Shows (update_chart snap c) (samples_after snap c.max_points ss)
unfolding update_chart
update_chart-Shows snap c ss v = go (series_of snap.traffic_series)
  where
    delta :
        (o : Option Sample)
        → Shows (latest o c) (elim o [ none ↦ ss | some s ↦ window c.max_points (ss ++ s ∷ []) ])
    delta none = v
    delta (some s) = push_sample-Shows s c ss v

    go :
        (l : List Sample)
        → Shows
            (elim l [
              | [] ↦ latest snap.latest_sample c
              | s ∷ rest ↦ replace_series snap.max_traffic_samples (s ∷ rest) c
            ])
            (elim l [
              | s ∷ rest ↦ s ∷ rest
              | [] ↦ elim snap.latest_sample [
                | none ↦ ss
                | some s ↦ window c.max_points (ss ++ s ∷ [])
              ]
            ])
    go [] = delta snap.latest_sample
    go (s ∷ rest) =
        unfold replace_series in record { labels = refl; frames_in = refl; frames_out = refl }

-- After a delta no list of the chart is longer than the limit, and the three are equally long if
-- the chart showed samples before.
length-push_sample :
    (s : Sample) (c : Chart) (ss : List Sample)
    → Shows c ss
    → let after = push_sample s c in
      (length after.labels ≤ c.max_points)
      × (length after.frames_in ≡ length after.labels)
      × (length after.frames_out ≡ length after.labels)
length-push_sample s c ss v =
    let w = push_sample-Shows s c ss v in
    let shown : List Sample = window c.max_points (ss ++ s ∷ []) in
    let size : length shown ≤ c.max_points =
      omega (arith, length-drop (length (ss ++ s ∷ []) - c.max_points) (ss ++ s ∷ [])) in
    let labels = ap length w.labels ∙ length-map (λ s. s.ts) shown in
    let ins = ap length w.frames_in ∙ length-map (λ s. s.fi) shown in
    let outs = ap length w.frames_out ∙ length-map (λ s. s.fo) shown in
    (omega arith, omega arith, omega arith)
