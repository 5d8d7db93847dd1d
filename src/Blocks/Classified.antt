-- ===== src/Blocks/Classified.antt =====
-- What a block event means for the validator (seer/rpc_contract.go).
use mathlib.Core.Logic.Or
use mathlib.Core.Bool.{Bool-set, false≢true}
use mathlib.Core.List.{Mem, mem-cons, not-mem-nil}
use tenderduty_nos.Prelude.{
  ◌∙◌, ◌⊎◌, sym, str_eq→eq, str_eq_refl, ◌≢◌, true, false, ◌≡◌, ap, arith, List, [], ◌∷◌, str_eq,
  ◌↔◌, String, inl, inr, Bool-cases,
}
use tenderduty_nos.Blocks.Events.{
  missed, signed, proposed, BlockEvent, has_signer, classify_block_event,
}

has_signer-mem :
    (signers : List String) (a : String) → (has_signer signers a ≡ true) ↔ Mem a signers
unfolding has_signer
has_signer-mem [] a = (λ h. cc, λ m. absurd (not-mem-nil m))
has_signer-mem (x ∷ xs) a = (
  λ h. elim (Bool-cases (str_eq x a)) [
    | inl e ↦ mem-cons.1 (Or.inl (sym (str_eq→eq x a e)))
    | inr e ↦ mem-cons.1 (Or.inr ((has_signer-mem xs a).0 (ground arith)))
  ],
  λ m.
      Or.elim (Bool-set _ _) (mem-cons.0 m) (λ e. ground (arith, e, str_eq_refl x))
        (λ n. ground (arith, (has_signer-mem xs a).1 n)),
)

block_status :
    (e : BlockEvent) (a : String)
    → ((e.proposer_address ≡ a) × ((classify_block_event e a).status ≡ proposed))
      ⊎ ((e.proposer_address ≢ a)
          × Mem a e.validator_addresses
          × ((classify_block_event e a).status ≡ signed))
      ⊎ ((e.proposer_address ≢ a)
          × ¬ (Mem a e.validator_addresses)
          × ((classify_block_event e a).status ≡ missed))
unfolding classify_block_event
block_status e a = elim (Bool-cases (str_eq e.proposer_address a)) [
  | inl p ↦ inl (str_eq→eq _ _ p, rw p)
  | inr p ↦ elim (Bool-cases (has_signer e.validator_addresses a)) [
    | inl q ↦ inr (inl (not_same p, (has_signer-mem _ a).0 q, rw (p, q)))
    | inr q ↦
        inr (inr (not_same p, (λ m. false≢true (sym q ∙ (has_signer-mem _ a).1 m)), rw (p, q)))
  ]
]
  where
    not_same : str_eq e.proposer_address a ≡ false → e.proposer_address ≢ a
    not_same p h = false≢true (sym p ∙ ap (λ x. str_eq x a) h ∙ str_eq_refl a)

-- The status of a block event: proposed exactly when the validator is the proposer, signed exactly
-- when it is not and is among the signers of the last commit, missed in every other case.
pub classify_block_event_iff :
    (e : BlockEvent) (address : String)
    → (((classify_block_event e address).status ≡ proposed) ↔ (e.proposer_address ≡ address))
      × (((classify_block_event e address).status ≡ signed)
          ↔ ((e.proposer_address ≢ address) × Mem address e.validator_addresses))
      × (((classify_block_event e address).status ≡ missed)
          ↔ ((e.proposer_address ≢ address) × ¬ (Mem address e.validator_addresses)))
classify_block_event_iff e address = elim (block_status e address) [
  | inl (p, s) ↦ ((λ _. p, λ _. s), (λ h. cc, λ h. absurd (h.0 p)), (λ h. cc, λ h. absurd (h.0 p)))
  | inr (inl (p, m, s)) ↦
      ((λ h. cc, λ h. absurd (p h)), (λ _. (p, m), λ _. s), (λ h. cc, λ h. absurd (h.1 m)))
  | inr (inr (p, m, s)) ↦
      ((λ h. cc, λ h. absurd (p h)), (λ h. cc, λ h. absurd (m h.1)), (λ _. (p, m), λ _. s))
]
