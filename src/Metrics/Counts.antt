-- ===== src/Metrics/Counts.antt =====
-- What a counter of pkg/metrics shows after it was counted up.
use pay_flow_mock.Prelude.{
  ◌==◌, if◌then◌else◌, ==_iff, Bool-cases, length, Text, text_eq_iff, map_get, map_set,
  map_get-map_set, ◌+◌, ◌≡◌, refl, ap, ◌↔◌, inl, inr, true, some, List, [], ◌∷◌, arith,
}
use pay_flow_mock.Metrics.{Collector, Samples, texts_eq, series_eq, or_zero, value_of, inc}

texts_eq_iff : (ss ts : List Text) → (texts_eq ss ts ≡ true) ↔ (ss ≡ ts)
unfolding texts_eq
texts_eq_iff [] [] = ground arith
texts_eq_iff (s ∷ ss) (t ∷ ts) = ground (arith, text_eq_iff s t, texts_eq_iff ss ts)
texts_eq_iff [] (t ∷ ts) = ground arith
texts_eq_iff (s ∷ ss) [] = ground arith

pub series_eq_iff : (a b : Text × List Text) → (series_eq a b ≡ true) ↔ (a ≡ b)
unfolding series_eq
series_eq_iff (n, ls) (m, ks) = ground (arith, text_eq_iff n m, texts_eq_iff ls ks)

counted_up :
    (counted series : Text × List Text) (samples : Samples)
    → value_of series
        (map_set series_eq counted (or_zero (map_get series_eq counted samples) + 1) samples)
      ≡ (if series_eq counted series then value_of series samples + 1 else value_of series samples)
unfolding value_of
counted_up counted series samples =
    let v = or_zero (map_get series_eq counted samples) + 1 in
    rw (map_get-map_set series_eq series_eq_iff counted series v samples)
      (elim (Bool-cases (series_eq counted series)) [
        | inl same ↦ rw same (
            ap (λ k. or_zero (map_get series_eq k samples) + 1)
              ((series_eq_iff counted series).0 same))
        | inr other ↦ rw other refl
      ])

-- The series that was counted is one up, and every other is what it was.
pub value_of-inc :
    (c : Collector) (values : List Text) (samples : Samples) (series : Text × List Text)
    → length values ≡ length c.labels
    → (after : Samples) × (inc c values samples ≡ some after)
      × (value_of series after ≡ (
          if series_eq (c.name, values) series
          then value_of series samples + 1
          else value_of series samples))
unfolding inc value_of
value_of-inc c values samples series fits =
    let counted : Text × List Text = (c.name, values) in
    let v = or_zero (map_get series_eq counted samples) + 1 in
    let as_many : (length values == length c.labels) ≡ true = (==_iff _ _).1 fits in
    (map_set series_eq counted v samples, rw as_many refl, counted_up counted series samples)
