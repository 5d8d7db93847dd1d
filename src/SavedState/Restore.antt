-- ===== src/SavedState/Restore.antt =====
-- restoreSavedState and snapshotSavedState (seer/state.go), and clearStale (seer/types.go).
--
-- A loop over a Go map runs over the association list; a copy of a map is built by insertions.
use tenderduty_nos.Prelude.{
  ℕ, ◌+◌, ◌*◌, String, Bool, true, if◌then◌else◌, Option, none, some, List, [], ◌∷◌, ◌==◌, leb, ℤ,
  Map, lookup, insert, erase, time_at, str_eq, length, Time, is_zero, minute,
}
use tenderduty_nos.AlarmCache.{AlarmCache, new_alarm_cache}
use tenderduty_nos.Config.{ChainConfig, Config, NodeConfig}
use tenderduty_nos.SavedState.Decode.{SavedAlarms, SavedState}

-- Twenty-four hours, in nanoseconds.
abbrev pub stale_age : ℕ
stale_age = 24 * (60 * minute)

abbrev pub is_stale : Time → Time → Bool
is_stale now t = leb (t + stale_age) now

unfoldable pub clear_loop : Time → Map Time → Map Time → Map Time
clear_loop now [] m = m
clear_loop now ((k, t) ∷ ks) m =
    clear_loop now ks (if is_stale now (time_at k m) then erase k m else m)

unfoldable pub clear_stale : Time → Map Time → Map Time
unfolding clear_loop
clear_stale now m = clear_loop now m m

unfoldable pub clear_all_stale : Time → Map (Map Time) → Map (Map Time)
clear_all_stale now [] = []
clear_all_stale now ((k, m) ∷ ms) = (k, clear_stale now m) ∷ clear_all_stale now ms

-- A map that the file does not have leaves the cache's own.
abbrev restored {ℓ} : {A : Type ℓ} → Option A → (A → A) → A → A
restored none f a = a
restored (some b) f a = f b

unfoldable pub restore_alarms : Time → Option SavedAlarms → AlarmCache → AlarmCache
restore_alarms now none cache = cache
restore_alarms now (some saved) cache = record cache {
  sent_tg_alarms = restored saved.sent_tg_alarms (clear_stale now) cache.sent_tg_alarms;
  sent_pd_alarms = restored saved.sent_pd_alarms (clear_stale now) cache.sent_pd_alarms;
  sent_di_alarms = restored saved.sent_di_alarms (clear_stale now) cache.sent_di_alarms;
  sent_slk_alarms = restored saved.sent_slk_alarms (clear_stale now) cache.sent_slk_alarms;
  all_alarms = restored saved.all_alarms (clear_all_stale now) cache.all_alarms;
}

-- `m[k]` changed in place, where the map has it.
unfoldable pub update {ℓ} : {A : Type ℓ} → String → (A → A) → Map A → Map A
update k f m = elim (lookup k m) [ none ↦ m | some a ↦ insert k (f a) m ]

unfoldable pub restore_blocks : Map (List ℤ) → Map ChainConfig → Map ChainConfig
restore_blocks [] chains = chains
restore_blocks ((name, blocks) ∷ rest) chains =
    update name (λ cc. record cc { blocks_results = blocks }) (restore_blocks rest chains)

-- The loop over a chain's nodes for one address that was down.
unfoldable pub mark_down : String → Time → List NodeConfig → List NodeConfig
mark_down url since [] = []
mark_down url since (n ∷ ns) =
    let rest = mark_down url since ns in
    if str_eq n.url url
    then (record n { down = true; was_down = true; down_since = since }) ∷ rest
    else n ∷ rest

-- The loop over the addresses that were down in one chain.
unfoldable pub mark_all : Map Time → List NodeConfig → List NodeConfig
mark_all [] ns = ns
mark_all ((url, since) ∷ rest) ns =
    let ns' = mark_all rest ns in if is_zero since then ns' else mark_down url since ns'

unfoldable pub restore_nodes : Map (Map Time) → Map ChainConfig → Map ChainConfig
restore_nodes [] chains = chains
restore_nodes ((name, nodes) ∷ rest) chains =
    update name (λ cc. record cc { nodes = mark_all nodes cc.nodes }) (restore_nodes rest chains)

unfoldable pub count_down : List NodeConfig → ℕ
count_down [] = 0
count_down (n ∷ ns) = let rest = count_down ns in if n.down then 1 + rest else rest

unfoldable pub note_no_nodes : Map ChainConfig → Map ChainConfig
note_no_nodes [] = []
note_no_nodes ((name, cc) ∷ rest) =
    let rest' = note_no_nodes rest in
    if count_down cc.nodes == length cc.nodes
    then (name, record cc { no_nodes = true }) ∷ rest'
    else (name, cc) ∷ rest'

abbrev with_nodes : Option (Map (Map Time)) → Map ChainConfig → Map ChainConfig
with_nodes none chains = chains
with_nodes (some nodes_down) chains = note_no_nodes (restore_nodes nodes_down chains)

abbrev or_empty {ℓ} : {A : Type ℓ} → Option (List A) → List A
or_empty none = []
or_empty (some m) = m

unfoldable pub restore_saved_state :
    Time → Option SavedState → Config × AlarmCache → Config × AlarmCache
restore_saved_state now none (config, cache) = (config, cache)
restore_saved_state now (some saved) (config, cache) = (
  record config {
    chains = with_nodes saved.nodes_down (restore_blocks (or_empty saved.blocks) config.chains);
  },
  restore_alarms now saved.alarms cache,
)

unfoldable pub clone_map {ℓ} : {A : Type ℓ} → Map A → Map A
clone_map [] = []
clone_map ((k, a) ∷ m) = insert k a (clone_map m)

unfoldable pub clone_all : Map (Map Time) → Map (Map Time)
clone_all [] = []
clone_all ((k, a) ∷ m) = insert k (clone_map a) (clone_all m)

-- The fields of the copy that the file keeps; the others are those of a new cache.
unfoldable pub clone_alarm_state : AlarmCache → AlarmCache
unfolding new_alarm_cache
clone_alarm_state source = record new_alarm_cache {
  sent_pd_alarms = clone_map source.sent_pd_alarms;
  sent_tg_alarms = clone_map source.sent_tg_alarms;
  sent_di_alarms = clone_map source.sent_di_alarms;
  sent_slk_alarms = clone_map source.sent_slk_alarms;
  all_alarms = clone_all source.all_alarms;
}

unfoldable pub snapshot_blocks : Map ChainConfig → Map (List ℤ)
snapshot_blocks [] = []
snapshot_blocks ((name, cc) ∷ rest) = insert name cc.blocks_results (snapshot_blocks rest)

unfoldable pub down_loop : List NodeConfig → Map Time → Map Time
down_loop [] m = m
down_loop (n ∷ ns) m = down_loop ns (if n.down then insert n.url n.down_since m else m)

unfoldable pub snapshot_nodes : Map ChainConfig → Map (Map Time)
snapshot_nodes [] = []
snapshot_nodes ((name, cc) ∷ rest) =
    let rest' = snapshot_nodes rest in
    elim (down_loop cc.nodes []) [ [] ↦ rest' | x ∷ xs ↦ insert name (x ∷ xs) rest' ]

-- The alarms as `alarmCache.MarshalJSON` writes them.
abbrev saved_alarms : AlarmCache → SavedAlarms
saved_alarms a = record {
  sent_pd_alarms = some a.sent_pd_alarms;
  sent_tg_alarms = some a.sent_tg_alarms;
  sent_di_alarms = some a.sent_di_alarms;
  sent_slk_alarms = some a.sent_slk_alarms;
  all_alarms = some a.all_alarms;
}

unfoldable pub snapshot_saved_state : Config × AlarmCache → SavedState
unfolding clone_alarm_state
snapshot_saved_state (config, cache) = record {
  alarms = some (saved_alarms (clone_alarm_state cache));
  blocks = some (snapshot_blocks config.chains);
  nodes_down = some (snapshot_nodes config.chains);
}
