-- ===== src/Examples/Refreshes.antt =====
-- Refreshes against concrete answers.
use tenderduty_nos.Prelude.{got, failed, String, false, ◌≡◌, ◌⊎◌, none, some, [], ◌∷◌, replicate}
use tenderduty_nos.Validator.{Queries, get_val_info}
use tenderduty_nos.Validator.Published.{IsPublished, get_val_info-IsWhole}
use tenderduty_nos.Examples.Fixtures.{chain, settings}

abbrev pub good_answers : Queries
good_answers = record {
  validator = λ client address. got (record {
    consensus_address = replicate 20 7;
    moniker = "val";
    jailed = false;
    bonded = false;
  });
  signing_info = λ client valcons. got (record { tombstoned = false; missed_blocks = 3 });
  slashing_params = λ client. got 10000;
  split = λ s sep. "osmo" ∷ "1" ∷ [];
  encode = λ prefix address. got prefix;
  prefixes = [];
}

abbrev broken_answers : Queries
broken_answers = record good_answers { signing_info = λ client valcons. failed "timeout" }

get_val_info-IsWhole_example :
    let r = get_val_info good_answers settings false chain in
    ((e : String) × (r.error ≡ some e) × (r.chain ≡ chain))
    ⊎ ((r.error ≡ none) × IsPublished good_answers chain chain.val_info r.chain)
get_val_info-IsWhole_example = get_val_info-IsWhole good_answers settings false chain
