-- ===== src/H2/Flow.antt =====
-- src/courierust_h2/flow.rs: a flow-control window.
use courierust.Base.{ℕ, ◌-◌, ◌^◌, ◌<◌, ◌≡◌, Bool, true, false, not, arith, if◌then◌else◌}
use courierust.Base.Int.{
  ℤ, pos, ◌+ℤ◌, ◌≤ℤ◌, leb_ℤ, min_ℤ, IsI64, saturating_add, saturating_sub, eq_of_parts,
}

pub record FlowWindow : Type 0 where
  pub size : ℤ
  pub limit : ℤ

unfoldable pub new : ℤ → ℤ → FlowWindow
new initial limit = record { size = initial; limit = limit }

unfoldable pub available : FlowWindow → ℤ
available w = w.size

unfoldable pub consume : FlowWindow → ℤ → FlowWindow
unfolding saturating_sub
consume w n = record w { size = saturating_sub w.size n }

-- `false` refuses the update; the increment is a u32.
unfoldable pub increase : FlowWindow → ℕ → FlowWindow × Bool
unfolding saturating_add
increase w n =
    let next = saturating_add w.size (pos n) in
    if not (leb_ℤ next w.limit) then (w, false) else (record w { size = next }, true)

unfoldable pub release : FlowWindow → ℤ → FlowWindow
unfolding saturating_add
release w n = record w { size = min_ℤ (saturating_add w.size n) w.limit }

-- The credit of a window is an `i64` and never above its ceiling.
pub record IsValid (w : FlowWindow) : Type 0 where
  pub size_fits : IsI64 w.size
  pub limit_fits : IsI64 w.limit
  pub capped : w.size ≤ℤ w.limit

-- Every operation keeps a valid window valid: `consume` of an amount that is not negative,
-- `increase` by any u32, accepted or refused, and `release` of any amount that is not negative.
pub operations-IsValid :
    (w : FlowWindow) (n : ℤ) (k : ℕ)
    → IsValid w
    → pos 0 ≤ℤ n
    → k < 2 ^ 32
    → IsValid (consume w n) × IsValid (increase w k).0 × IsValid (release w n)
operations-IsValid w n k v h hk = (
  unfold consume in ground arith,
  unfold increase in ground arith,
  unfold release in ground arith,
)

-- Under a ceiling below the largest i64, `increase` is refused exactly when the sum is above the
-- ceiling, and then the window is as it was; otherwise the credit grows by the increment.
pub increase_exact :
    (w : FlowWindow) (k : ℕ)
    → IsValid w
    → w.limit ≤ℤ pos (2 ^ 63 - 2)
    → k < 2 ^ 32
    → increase w k ≡ (
        if leb_ℤ (w.size +ℤ pos k) w.limit
        then (record w { size = w.size +ℤ pos k }, true)
        else (w, false))
unfolding increase ◌+ℤ◌
increase_exact w k v hl hk = ground arith

-- Credit that is consumed and then released is restored, as long as the i64 does not saturate.
pub release-consume :
    (w : FlowWindow) (n : ℕ)
    → IsValid w
    → n < 2 ^ 63
    → pos n ≤ℤ w.size +ℤ pos (2 ^ 63 - 1)
    → release (consume w (pos n)) (pos n) ≡ w
unfolding release consume ◌+ℤ◌
release-consume w n v hn h =
    ground (arith, eq_of_parts (release (consume w (pos n)) (pos n)).size w.size)
