-- ===== src/Validator/Answers.antt =====
-- What the adapter's validator query answers (seer/cometbft_adapter.go), and what the refresh makes of it.
use tenderduty_nos.Prelude.{
  ℕ, String, true, false, ◌≡◌, ◌⊎◌, inl, inr, refl, sym, ap, subst, ◌∙◌, arith, none, some, [], ◌∷◌,
  str_eq, contains, length, got, Reply-cases, Option-cases, Bool-cases,
}
use tenderduty_nos.Validator.Refresh.{ValidatorRecord}
use tenderduty_nos.Validator.Adapter.{
  Payload, PublicKey, StakingValidator, Node, staking_validator_query, ed25519_type, secp256k1_type,
  key_address, record_of, read_validator, query_validator, BondStatus, unspecified, unbonded,
  unbonding, bonded, is_bonded,
}

-- The addresses of keys have 20 bytes, as their packages document.
pub record IsSized (n : Node) : Type 0 where
  pub ed25519 : (key address : Payload) → n.ed25519_address key ≡ got address → length address ≡ 20
  pub secp256k1 :
      (key address : Payload) → n.secp256k1_address key ≡ got address → length address ≡ 20

key_address-length :
    (n : Node) (k : PublicKey) (b : ℕ) (bs : Payload)
    → IsSized n
    → key_address n k ≡ got (b ∷ bs)
    → length (b ∷ bs) ≡ 20
unfolding key_address
key_address-length n k b bs sized h = elim (Bool-cases (str_eq k.type_url ed25519_type)) [
  | inl e ↦ sized.ed25519 k.key (b ∷ bs) (rw e at h)
  | inr e ↦ elim (Bool-cases (str_eq k.type_url secp256k1_type)) [
    | inl f ↦ sized.secp256k1 k.key (b ∷ bs) (rw (e, f) at h)
    | inr f ↦ absurd (ground (arith, h, e, f))
  ]
]

-- The record is that of the staking module's validator, with the address of its key.
pub IsStaking : Node → String → ValidatorRecord → Type 0
IsStaking n address r =
    (payload : Payload) × (value : Payload) × (v : StakingValidator) × (k : PublicKey)
    × (n.marshal_validator address ≡ got payload)
    × (n.abci_query staking_validator_query payload ≡ got (some value))
    × (n.unmarshal_validator value ≡ got v)
    × (v.consensus_pubkey ≡ some k)
    × (key_address n k ≡ got r.consensus_address)
    × (r.moniker ≡ v.moniker)
    × (r.jailed ≡ v.jailed)
    × ((r.bonded ≡ true) → v.status ≡ bonded)
    × (length r.consensus_address ≡ 20)

is_bonded-eq : (s : BondStatus) → is_bonded s ≡ true → s ≡ bonded
is_bonded-eq unspecified h = cc
is_bonded-eq unbonded h = cc
is_bonded-eq unbonding h = cc
is_bonded-eq bonded h = refl

record_of-got :
    (address : String) (v : StakingValidator) (b : ℕ) (bs : Payload) (r : ValidatorRecord)
    → record_of address v (b ∷ bs) ≡ got r
    → (r.consensus_address ≡ b ∷ bs)
      × (r.moniker ≡ v.moniker)
      × (r.jailed ≡ v.jailed)
      × (r.bonded ≡ is_bonded v.status)
unfolding record_of
record_of-got address v b bs r h =
    (ground (arith, h), ground (arith, h), ground (arith, h), ground (arith, h))

read_validator-got :
    (n : Node) (address : String) (v : StakingValidator) (r : ValidatorRecord)
    → IsSized n
    → read_validator n address v ≡ got r
    → (k : PublicKey) × (v.consensus_pubkey ≡ some k)
      × (key_address n k ≡ got r.consensus_address)
      × (r.moniker ≡ v.moniker)
      × (r.jailed ≡ v.jailed)
      × ((r.bonded ≡ true) → v.status ≡ bonded)
      × (length r.consensus_address ≡ 20)
unfolding read_validator
read_validator-got n address v r sized h = elim (Option-cases v.consensus_pubkey) [
  | inl e ↦ absurd (ground (arith, h, e))
  | inr (k, e) ↦ elim (Reply-cases (key_address n k)) [
    | inr (t, f) ↦ absurd (ground (arith, h, e, f))
    | inl ([], f) ↦ absurd (ground (arith, h, e, f))
    | inl (b ∷ bs, f) ↦
        let g : record_of address v (b ∷ bs) ≡ got r = ground (arith, h, e, f) in
        let (own, moniker, jailed, kind) = record_of-got address v b bs r g in
        (
          k,
          e,
          f ∙ ap (λ a. got a) (sym own),
          moniker,
          jailed,
          (λ t. is_bonded-eq v.status (sym kind ∙ t)),
          subst (λ a. length a ≡ 20) (sym own) (key_address-length n k b bs sized f),
        )
  ]
]

-- What the adapter answers for an address. For a consensus address it is the decoded address itself,
-- which counts as bonded and not jailed. For any other it is the validator that the staking module has:
-- its name, whether it is jailed, bonded only in the bonded state, and the address of its key, which
-- has the 20 bytes that the refresh cuts it to, as the key packages make it.
pub query_validator-got :
    (n : Node) (address : String) (r : ValidatorRecord)
    → IsSized n
    → query_validator n address ≡ got r
    → ((contains address "valcons" ≡ true)
        × (prefix : String) × (n.decode_bech32 address ≡ got (prefix, r.consensus_address))
        × (r.bonded ≡ true)
        × (r.jailed ≡ false))
      ⊎ ((contains address "valcons" ≡ false) × IsStaking n address r)
unfolding query_validator IsStaking
query_validator-got n address r sized h = elim (Bool-cases (contains address "valcons")) [
  | inl e ↦ elim (Reply-cases (n.decode_bech32 address)) [
    | inr (t, f) ↦ absurd (ground (arith, h, e, f))
    | inl ((prefix, decoded), f) ↦
        inl (e, prefix, ground (arith, h, e, f), ground (arith, h, e, f), ground (arith, h, e, f))
  ]
  | inr e ↦ elim (Reply-cases (n.marshal_validator address)) [
    | inr (t, f) ↦ absurd (ground (arith, h, e, f))
    | inl (payload, f) ↦ elim (Reply-cases (n.abci_query staking_validator_query payload)) [
      | inr (t, g) ↦ absurd (ground (arith, h, e, f, g))
      | inl (none, g) ↦ absurd (ground (arith, h, e, f, g))
      | inl (some value, g) ↦ elim (Reply-cases (n.unmarshal_validator value)) [
        | inr (t, k) ↦ absurd (ground (arith, h, e, f, g, k))
        | inl (v, k) ↦
            let whole : read_validator n address v ≡ got r = ground (arith, h, e, f, g, k) in
            let (key, a, b, c, d, i, j) = read_validator-got n address v r sized whole in
            inr (e, (payload, value, v, key, f, g, k, a, b, c, d, i, j))
      ]
    ]
  ]
]
