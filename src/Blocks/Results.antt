-- ===== src/Blocks/Results.antt =====
-- The window of block results and the counters of seer/ws.go and seer/runtime_state.go.
use tenderduty_nos.Prelude.{
  ℕ, suc, Bool, not, ◌&&◌, ◌≡◌, refl, ap, arith, if◌then◌else◌, List, [], ◌∷◌, length, take, ltb, ℤ,
  drop_last, ◌==◌,
}
use tenderduty_nos.Config.{ChainConfig}
use tenderduty_nos.Blocks.Events.{
  StatusType, unset, missed, prevote, precommit, signed, proposed, rank,
}
use tenderduty_nos.Blocks.Worker.{record_block_result, count_result}

take-drop_last : (b : ℤ) (bs : List ℤ) → drop_last (b ∷ bs) ≡ take (length bs) (b ∷ bs)
take-drop_last b [] = refl
take-drop_last b (c ∷ cs) = ap (λ xs. b ∷ xs) (take-drop_last c cs)

-- A window of n + 1 results stays that long: the newest goes in front and the oldest falls out.
pub record_block_result-take :
    (result b : ℤ) (bs : List ℤ)
    → record_block_result result (b ∷ bs) ≡ take (suc (length bs)) (result ∷ b ∷ bs)
unfolding record_block_result
record_block_result-take result b bs = ap (λ xs. result ∷ xs) (take-drop_last b bs)

-- The counters after a series of final results, the newest in front.
unfoldable pub tally : List StatusType → ChainConfig → ChainConfig
tally [] cc = cc
tally (r ∷ rs) cc = count_result r (tally rs cc)

abbrev pub is_sign : StatusType → Bool
is_sign r = ltb (rank precommit) (rank r)

abbrev pub is_miss : StatusType → Bool
is_miss r = ltb (rank unset) (rank r) && not (is_sign r)

pub count_of : (StatusType → Bool) → List StatusType → ℕ
count_of p [] = 0
count_of p (r ∷ rs) = let rest = count_of p rs in if p r then suc rest else rest

-- The misses since the last signature; a block on which the validator was not bonded does not count.
pub misses_in_a_row : List StatusType → ℕ
misses_in_a_row [] = 0
misses_in_a_row (r ∷ rs) =
    let rest = misses_in_a_row rs in if is_sign r then 0 else if is_miss r then suc rest else rest

abbrev pub is_status : StatusType → StatusType → Bool
is_status r q = rank q == rank r

-- A chain whose counters have not moved yet.
pub record IsFresh (cc : ChainConfig) : Type 0 where
  pub signs : cc.stat_total_signs ≡ 0
  pub props : cc.stat_total_props ≡ 0
  pub miss : cc.stat_total_miss ≡ 0
  pub prevotes : cc.stat_prevote_miss ≡ 0
  pub precommits : cc.stat_precommit_miss ≡ 0
  pub in_a_row : cc.stat_consecutive_miss ≡ 0

abbrev Counts : List StatusType → ChainConfig → Type 0
Counts rs cc =
    (cc.stat_total_signs ≡ count_of is_sign rs)
    × (cc.stat_total_props ≡ count_of (is_status proposed) rs)
    × (cc.stat_total_miss ≡ count_of is_miss rs)
    × (cc.stat_prevote_miss ≡ count_of (is_status prevote) rs)
    × (cc.stat_precommit_miss ≡ count_of (is_status precommit) rs)
    × (cc.stat_consecutive_miss ≡ misses_in_a_row rs)

count_result-Counts :
    (r : StatusType) (rs : List StatusType) (cc : ChainConfig)
    → Counts rs cc
    → Counts (r ∷ rs) (count_result r cc)
unfolding count_result count_of misses_in_a_row
count_result-Counts unset rs cc h = ground arith
count_result-Counts missed rs cc h = ground arith
count_result-Counts prevote rs cc h = ground arith
count_result-Counts precommit rs cc h = ground arith
count_result-Counts signed rs cc h = ground arith
count_result-Counts proposed rs cc h = ground arith

-- From a fresh chain the six counters are, for any series of results: the signatures (proposals among
-- them), the proposals, all misses (those with a prevote or a precommit among them), the misses with a
-- prevote, those with a precommit, and the misses since the last signature.
pub tally-counts :
    (rs : List StatusType) (cc : ChainConfig)
    → IsFresh cc
    → ((tally rs cc).stat_total_signs ≡ count_of is_sign rs)
      × ((tally rs cc).stat_total_props ≡ count_of (is_status proposed) rs)
      × ((tally rs cc).stat_total_miss ≡ count_of is_miss rs)
      × ((tally rs cc).stat_prevote_miss ≡ count_of (is_status prevote) rs)
      × ((tally rs cc).stat_precommit_miss ≡ count_of (is_status precommit) rs)
      × ((tally rs cc).stat_consecutive_miss ≡ misses_in_a_row rs)
unfolding tally count_of misses_in_a_row
tally-counts [] cc f = (f.signs, f.props, f.miss, f.prevotes, f.precommits, f.in_a_row)
tally-counts (r ∷ rs) cc f = count_result-Counts r rs (tally rs cc) (tally-counts rs cc f)
