-- ===== src/Examples/Answers.antt =====
-- The adapter's queries and the dashboard at work.
use tenderduty_nos.Prelude.{
  ℕ, ◌≤◌, ◌≡◌, ◌⊎◌, refl, subst, String, true, false, none, some, List, [], ◌∷◌, replicate, Reply,
  got, failed, str_eq, contains, length, take, lookup, if◌then◌else◌,
}
use tenderduty_nos.Validator.{
  ValidatorRecord, Node, query_validator, read_validator, key_address, record_of, bonded,
  ed25519_type,
}
use tenderduty_nos.Validator.Answers.{IsSized, IsStaking, query_validator-got}
use tenderduty_nos.Server.{LogMessage, Pages, log_length, new_board, Event, tick, logged, serve_run}
use tenderduty_nos.Server.Kept.{all_logs, last_status, serve_run-keeps}

abbrev node : Node
node = record {
  status = got none;
  abci_query = λ path payload. got (some []);
  decode_bech32 = λ address. failed "no";
  marshal_validator = λ address. got [];
  unmarshal_validator = λ value. got (record {
    consensus_pubkey = some (record { type_url = ed25519_type; key = [] });
    moniker = "n";
    jailed = true;
    status = bonded;
  });
  ed25519_address = λ key. got (replicate 20 9);
  secp256k1_address = λ key. got (replicate 20 9);
  marshal_signing = λ address. got [];
  unmarshal_signing = λ value. failed "no";
  marshal_params = got [];
  unmarshal_params = λ value. got 100;
}

sized : (a : List ℕ) → Path (Reply (List ℕ)) (got (replicate 20 9)) (got a) → length a ≡ 20
sized a h = let same : replicate 20 9 ≡ a = cc in subst (λ x. length x ≡ 20) same refl

node-IsSized : IsSized node
node-IsSized = record { ed25519 = λ key a h. sized a h; secp256k1 = λ key a h. sized a h }

abbrev answer : ValidatorRecord
answer = record { consensus_address = replicate 20 9; moniker = "n"; jailed = true; bonded = true }

node_answers : query_validator node "osmovaloper1x" ≡ got answer
unfolding query_validator read_validator key_address record_of contains str_eq
node_answers = refl

query_validator-got_example :
    ((contains "osmovaloper1x" "valcons" ≡ true)
      × (prefix : String) × (node.decode_bech32 "osmovaloper1x"
          ≡ got (prefix, answer.consensus_address))
      × (answer.bonded ≡ true)
      × (answer.jailed ≡ false))
    ⊎ ((contains "osmovaloper1x" "valcons" ≡ false) × IsStaking node "osmovaloper1x" answer)
query_validator-got_example =
    query_validator-got node "osmovaloper1x" answer node-IsSized node_answers

abbrev pages : Pages
pages = record {
  status_json = λ statuses. some "status";
  logs_json = λ logs. some "logs";
  log_json = λ log. some "log";
  matches = λ text. false;
  redact = λ text. text;
  parse = λ text. none;
  equal_fold = str_eq;
}

abbrev line : String → LogMessage
line text = record { log_type = "log"; stamp = 1; text = text }

abbrev lines : List Event
lines = logged (line "a") ∷ tick ∷ logged (line "b") ∷ []

serve_run-keeps_example :
    let b = serve_run pages false lines new_board in
    (length b.logs ≤ log_length)
    × (b.logs ≡ (if false then [] else take log_length (all_logs lines [])))
    × (lookup "osmosis" b.status ≡ last_status pages false "osmosis" lines none)
serve_run-keeps_example = serve_run-keeps pages false lines "osmosis"
