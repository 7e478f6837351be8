-- ===== src/Control/Migration/Fencing.antt =====
-- Which placement a migration accepts, over all its steps.
use dtgproxy.Base.{ℕ, ◌+◌, ◌≤◌, ◌≡◌, refl, inl, inr, true, arith}
use dtgproxy.Control.Migration.{MigrationRecord, accepts}
use dtgproxy.Control.Migration.Steps.{Reach, here, next, IsPhased, Step-Goes, Moves}

Reach-IsPhased : {m m' : MigrationRecord} → IsPhased m → Reach m m' → IsPhased m'
Reach-IsPhased w here = w
Reach-IsPhased w (next r s) = (Step-Goes s (Reach-IsPhased w r)).phased

-- Epoch and generation advance together.
abbrev pub Advances : MigrationRecord → MigrationRecord → Type 0
Advances m m' =
    (m.active_epoch ≤ m'.active_epoch)
    × (m.active_generation + m'.active_epoch ≡ m'.active_generation + m.active_epoch)

advances : (m m' m'' : MigrationRecord) → Advances m m' → Moves m' m'' → Advances m m''
advances m m' m'' h (inl k) = omega arith
advances m m' m'' h (inr k) = omega arith

Reach-Advances : {m m' : MigrationRecord} → IsPhased m → Reach m m' → Advances m m'
Reach-Advances w here = (omega arith, refl)
Reach-Advances {m} {m' = m''} w (next {m'} r s) =
    advances m m' m'' (Reach-Advances w r) (Step-Goes s (Reach-IsPhased w r)).moves

-- Where a state accepts one placement and a later state accepts another, the epoch has not fallen and
-- the generation has risen by as much as the epoch: an epoch has one generation, and a placement that
-- was left is not accepted again.
pub accepted_once :
    (m m' : MigrationRecord) (e g e' g' : ℕ)
    → IsPhased m
    → Reach m m'
    → accepts m e g ≡ true
    → accepts m' e' g' ≡ true
    → (e ≤ e') × (g + e' ≡ g' + e)
unfolding accepts
accepted_once m m' e g e' g' w r before after = let h = Reach-Advances w r in ground arith
