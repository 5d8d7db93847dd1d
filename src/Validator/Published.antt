-- ===== src/Validator/Published.antt =====
-- What a refresh publishes (seer/validator.go), alone and in series.
use tenderduty_nos.Prelude.{
  ℕ, String, Bool, false, not, if◌then◌else◌, ◌≡◌, ◌≢◌, ◌⊎◌, inl, inr, arith, ◌==◌, Option, none,
  some, got, List, [], ◌∷◌, Option-cases, Reply-cases, Bool-cases,
}
use tenderduty_nos.Config.{ChainConfig, Config, ValInfo}
use tenderduty_nos.Validator.Refresh.{
  Queries, ValidatorRecord, SigningInfo, valcons_for, get_val_info, window_for,
  publish_validator_info, known_window,
}

-- The series of refreshes after the first, each with what the client answers.
unfoldable pub refreshes : Config → List Queries → ChainConfig → ChainConfig
refreshes td [] chain = chain
refreshes td (q ∷ qs) chain = refreshes td qs (get_val_info q td false chain).chain

get_val_info-chain :
    (q : Queries) (td : Config) (first : Bool) (chain : ChainConfig) (e : String)
    → (get_val_info q td first chain).error ≡ some e
    → (get_val_info q td first chain).chain ≡ chain
unfolding get_val_info
get_val_info-chain q td first chain e h = ground arith

-- The whole state that the answers make.
abbrev pub answered : ValidatorRecord → SigningInfo → ℕ → String → ValInfo
answered found signing window valcons = record {
  moniker = found.moniker;
  bonded = found.bonded;
  jailed = found.jailed;
  tombstoned = signing.tombstoned;
  missed = signing.missed_blocks;
  window = window;
  conspub = found.consensus_address;
  valcons = valcons;
}

-- The window is the one that was known, or the client's where none was.
pub IsWindow : Queries → String → ChainConfig → ℕ → Type 0
IsWindow q client chain window =
    ((known_window chain.val_info ≢ 0) × (window ≡ known_window chain.val_info))
    ⊎ ((known_window chain.val_info ≡ 0) × (q.slashing_params client ≡ got window))

-- The client gave every answer, and the chain has the state that they make, and nothing else that is
-- new.
pub IsPublished : Queries → ChainConfig → Option ValInfo → ChainConfig → Type 0
IsPublished q chain last chain' =
    (client : String) × (found : ValidatorRecord) × (signing : SigningInfo) × (window : ℕ)
    × (valcons : String) × (chain.client ≡ some client)
    × (q.validator client chain.val_address ≡ got found)
    × (valcons_for q chain.val_address found.consensus_address ≡ got valcons)
    × (q.signing_info client valcons ≡ got signing)
    × IsWindow q client chain window
    × (chain' ≡ record chain {
      last_val_info = last;
      val_info = some (answered found signing window valcons);
    })

window_for-got :
    (q : Queries) (client : String) (chain : ChainConfig) (window : ℕ)
    → window_for q client chain.val_info ≡ got window
    → IsWindow q client chain window
unfolding window_for IsWindow
window_for-got q client chain window h = elim (Bool-cases (known_window chain.val_info == 0)) [
  | inl e ↦ inr (ground (arith, e), ground (arith, h, e))
  | inr e ↦ inl ((λ z. ground (arith, e, z)), ground (arith, h, e))
]

get_val_info-IsPublished :
    (q : Queries) (td : Config) (first : Bool) (chain : ChainConfig)
    → (get_val_info q td first chain).error ≡ none
    → IsPublished q chain
        (if not first then chain.val_info else chain.last_val_info)
        (get_val_info q td first chain).chain
unfolding get_val_info publish_validator_info IsPublished
get_val_info-IsPublished q td first chain h = elim (Option-cases chain.client) [
  | inl c ↦ absurd (ground (arith, h, c))
  | inr (client, c) ↦ elim (Reply-cases (q.validator client chain.val_address)) [
    | inr (e, f) ↦ absurd (ground (arith, h, c, f))
    | inl (found, f) ↦
        elim (Reply-cases (valcons_for q chain.val_address found.consensus_address)) [
          | inr (e, v) ↦ absurd (ground (arith, h, c, f, v))
          | inl (valcons, v) ↦ elim (Reply-cases (q.signing_info client valcons)) [
            | inr (e, g) ↦ absurd (ground (arith, h, c, f, v, g))
            | inl (signing, g) ↦ elim (Reply-cases (window_for q client chain.val_info)) [
              | inr (e, n) ↦ absurd (ground (arith, h, c, f, v, g, n))
              | inl (window, n) ↦ (
                client,
                found,
                signing,
                window,
                valcons,
                c,
                f,
                v,
                g,
                window_for-got q client chain window n,
                ground (arith, c, f, v, g, n),
              )
            ]
          ]
        ]
  ]
]

-- A refresh either fails and leaves the chain as it was, or reports no error: then the client gave every
-- answer, the validator's state is the one that the answers make, with the slashing window that was
-- known or else the client's, the state before is kept as the last one except on the first refresh, and
-- nothing else of the chain has changed. No part of an answer is published alone.
pub get_val_info-IsWhole :
    (q : Queries) (td : Config) (first : Bool) (chain : ChainConfig)
    → let r = get_val_info q td first chain in
      ((e : String) × (r.error ≡ some e) × (r.chain ≡ chain))
      ⊎ ((r.error ≡ none)
          × IsPublished q chain (if not first then chain.val_info else chain.last_val_info) r.chain)
get_val_info-IsWhole q td first chain = elim (Option-cases (get_val_info q td first chain).error) [
  | inr (e, h) ↦ inl (e, h, get_val_info-chain q td first chain e h)
  | inl h ↦ inr (h, get_val_info-IsPublished q td first chain h)
]
