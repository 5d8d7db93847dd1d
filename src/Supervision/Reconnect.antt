-- ===== src/Supervision/Reconnect.antt =====
-- monitorChain (seer/run.go) goes on until the context ends, and leaves no connection open.
use tenderduty_nos.Prelude.{Bool, true, false, ◌≡◌, ◌⊎◌, List, ◌∷◌, ◌++◌}
use tenderduty_nos.Config.{Config}
use tenderduty_nos.Socket.Patience.{IsClosed, FindsBlank}
use tenderduty_nos.Socket.{Socket}
use tenderduty_nos.Supervision.{Pass, Watched, Fate, stopped, crashed}

-- The context ended in this pass.
abbrev pub IsLast : Pass → Type 0
IsLast p = (p.live ≡ false) ⊎ ((p.live_after ≡ false) ⊎ (p.waited ≡ false))

-- The endpoint that this pass finds is accepted and not dialed.
abbrev pub IsBlank : Pass → Type 0
IsBlank p = FindsBlank p.net p.started p.looks

abbrev Passed : Pass → Watched × Bool → Type 0
Passed p r = IsClosed r.0.socket × (r.1 ≡ true → IsBlank p)

-- A pass among these of which P holds.
abbrev pub Among : (Pass → Type 0) → List Pass → Type 0
Among P ps =
    (before : List Pass) × (p : Pass) × (after : List Pass) × (ps ≡ before ++ (p ∷ after)) × P p

abbrev Supervised : List Pass → Watched × Fate → Type 0
Supervised ps r =
    IsClosed r.0.socket × (r.1 ≡ stopped → Among IsLast ps) × (r.1 ≡ crashed → Among IsBlank ps)
