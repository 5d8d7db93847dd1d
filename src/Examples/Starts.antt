-- ===== src/Examples/Starts.antt =====
-- The check of concrete configurations.
use tenderduty_nos.Prelude.{◌≡◌, refl, some, [], ◌∷◌, lookup, str_eq}
use tenderduty_nos.Config.{ChainConfig}
use tenderduty_nos.Startup.{validate_chains}
use tenderduty_nos.Startup.Completed.{IsComplete, validate_chains-IsComplete}
use tenderduty_nos.Examples.Fixtures.{settings, chain}

validate_chains-IsComplete_example :
    ((v : ChainConfig) × (lookup "osmosis"
          (validate_chains settings (("osmosis", chain) ∷ [])).chains
        ≡ some v)
      × IsComplete settings "osmosis" chain v)
    × ((validate_chains settings (validate_chains settings (("osmosis", chain) ∷ [])).chains).chains
        ≡ (validate_chains settings (("osmosis", chain) ∷ [])).chains)
unfolding lookup str_eq
validate_chains-IsComplete_example =
    validate_chains-IsComplete settings (("osmosis", chain) ∷ []) "osmosis" chain refl
