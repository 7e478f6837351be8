-- ===== src/Kernel/Intervals.antt =====
-- Half-open intervals of valid time: `overlaps` decides that two of them share an instant.
use dtgproxy.Base.{◌≡◌, true, ℤ, ◌≤ℤ◌, ◌<ℤ◌, ltb_ℤ, arith, if◌then◌else◌, ◌↔◌, ok}
use dtgproxy.Kernel.{ValidInterval, valid_interval, overlaps}

abbrev pub Contains : ValidInterval → ℤ → Type 0
Contains i t = (i.start ≤ℤ t) × (t <ℤ i.end)

abbrev pub IsInterval : ValidInterval → Type 0
IsInterval i = i.start <ℤ i.end

abbrev pub Meets : ValidInterval → ValidInterval → Type 0
Meets a b = (t : ℤ) × Contains a t × Contains b t

abbrev later_start : ValidInterval → ValidInterval → ℤ
later_start a b = if ltb_ℤ a.start b.start then b.start else a.start

-- The constructor makes an interval of two ends exactly when the first lies before the second.
pub valid_interval-IsInterval :
    (start end : ℤ)
    → (valid_interval start end ≡ ok (record { start = start; end = end })) ↔ (start <ℤ end)
unfolding valid_interval
valid_interval-IsInterval start end = ground arith

-- Two intervals, of which neither is empty, overlap exactly when they have an instant in common.
pub overlaps-Meets :
    (a b : ValidInterval) → IsInterval a → IsInterval b → (overlaps a b ≡ true) ↔ Meets a b
unfolding overlaps
overlaps-Meets a b ha hb = (λ h. (later_start a b, ground arith, ground arith), λ h. ground arith)
