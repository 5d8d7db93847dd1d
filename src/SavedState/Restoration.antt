-- ===== src/SavedState/Restoration.antt =====
-- What a restart takes over from the state that the process before it saved (seer/state.go).
use tenderduty_nos.Prelude.{
  String, ◌&&◌, if◌then◌else◌, ◌≡◌, inl, inr, refl, arith, Option, none, some, List, [], ◌∷◌, ℤ,
  Map, lookup, erase, has, has-cons, has-nil, time_at, time_at-erase, lookup-insert, lookup-erase,
  str_eq, str_eq→eq, Bool-cases, Option-cases, Time,
}
use tenderduty_nos.AlarmCache.{AlarmCache, NotifyDest, sent_map, pd, tg, di, slk}
use tenderduty_nos.Config.{ChainConfig, Config}
use tenderduty_nos.SavedState.Restore.{
  is_stale, clear_loop, clear_stale, restore_alarms, update, restore_blocks, restore_nodes,
  note_no_nodes, restore_saved_state, clone_map, clone_alarm_state, snapshot_blocks, snapshot_nodes,
  snapshot_saved_state, mark_all,
}

lookup-clear_loop :
    (now : Time) (ks m : Map Time) (j : String)
    → lookup j (clear_loop now ks m)
      ≡ (if has j ks && is_stale now (time_at j m) then none else lookup j m)
unfolding clear_loop
lookup-clear_loop now [] m j = rw (has-nil Time j) refl
lookup-clear_loop now ((k, t) ∷ ks) m j = elim (Bool-cases (is_stale now (time_at k m))) [
  | inr e ↦
      rw (e, lookup-clear_loop now ks m j, has-cons j k t ks)
        (elim (Bool-cases (str_eq j k)) [
          | inr f ↦ rw f refl
          | inl f ↦ rw (f, str_eq→eq j k f, e) (ground arith)
        ])
  | inl e ↦
      rw
        (
          e,
          lookup-clear_loop now ks (erase k m) j,
          has-cons j k t ks,
          lookup-erase k j m,
          time_at-erase k j m,
        )
        (elim (Bool-cases (str_eq j k)) [
          | inr f ↦ rw f refl
          | inl f ↦ rw (f, str_eq→eq j k f, e) (ground arith)
        ])
]

-- Clearing drops exactly the alarms that are a day old or older.
pub lookup-clear_stale :
    (now : Time) (m : Map Time) (j : String)
    → lookup j (clear_stale now m) ≡ (if is_stale now (time_at j m) then none else lookup j m)
unfolding clear_stale has
lookup-clear_stale now m j = rw (lookup-clear_loop now m m j) (ground arith)

lookup-clone_map {ℓ} : {A : Type ℓ} (m : Map A) (j : String) → lookup j (clone_map m) ≡ lookup j m
unfolding clone_map lookup
lookup-clone_map [] j = refl
lookup-clone_map ((k, a) ∷ m) j = rw (lookup-insert k j a (clone_map m), lookup-clone_map m j) refl

-- The accepted deliveries of a restarted process are those that the saved process had, less the ones
-- that are a day old or older, at every destination: what was delivered is not delivered again.
pub restart-sent_map :
    (now : Time) (old new : Config × AlarmCache) (dest : NotifyDest) (j : String)
    → lookup j (sent_map (restore_saved_state now (some (snapshot_saved_state old)) new).1 dest) ≡ (
        if is_stale now (time_at j (sent_map old.1 dest))
        then none
        else lookup j (sent_map old.1 dest))
unfolding restore_saved_state restore_alarms snapshot_saved_state clone_alarm_state sent_map time_at
restart-sent_map now old new pd j =
    rw
      (
        lookup-clear_stale now (clone_map old.1.sent_pd_alarms) j,
        time_at,
        lookup-clone_map old.1.sent_pd_alarms j,
      )
      refl
restart-sent_map now old new tg j =
    rw
      (
        lookup-clear_stale now (clone_map old.1.sent_tg_alarms) j,
        time_at,
        lookup-clone_map old.1.sent_tg_alarms j,
      )
      refl
restart-sent_map now old new di j =
    rw
      (
        lookup-clear_stale now (clone_map old.1.sent_di_alarms) j,
        time_at,
        lookup-clone_map old.1.sent_di_alarms j,
      )
      refl
restart-sent_map now old new slk j =
    rw
      (
        lookup-clear_stale now (clone_map old.1.sent_slk_alarms) j,
        time_at,
        lookup-clone_map old.1.sent_slk_alarms j,
      )
      refl

-- The block results of a chain, where it is configured.
unfoldable pub blocks_at : String → Map ChainConfig → Option (List ℤ)
blocks_at name chains = elim (lookup name chains) [ none ↦ none | some cc ↦ some cc.blocks_results ]

lookup-snapshot_blocks :
    (chains : Map ChainConfig) (name : String)
    → lookup name (snapshot_blocks chains) ≡ blocks_at name chains
unfolding snapshot_blocks lookup blocks_at
lookup-snapshot_blocks [] name = refl
lookup-snapshot_blocks ((k, cc) ∷ rest) name =
    rw
      (
        lookup-insert k name cc.blocks_results (snapshot_blocks rest),
        lookup-snapshot_blocks rest name,
      )
      (ground arith)

lookup-update {ℓ} :
    {A : Type ℓ} (k j : String) (f : A → A) (m : Map A)
    → lookup j (update k f m)
      ≡ (if str_eq j k then elim (lookup j m) [ none ↦ none | some a ↦ some (f a) ] else lookup j m)
unfolding update
lookup-update k j f m = elim (Option-cases (lookup k m)) [
  | inl e ↦ elim (Bool-cases (str_eq j k)) [
    | inl g ↦ rw (update, e, g, str_eq→eq j k g, e) refl
    | inr g ↦ rw (update, e, g) refl
  ]
  | inr (a, e) ↦
      rw (update, e, lookup-insert k j (f a) m)
        (elim (Bool-cases (str_eq j k)) [
          | inl g ↦ rw (g, str_eq→eq j k g, e) refl
          | inr g ↦ rw g refl
        ])
]

blocks_at-restore_blocks :
    (saved : Map (List ℤ)) (chains : Map ChainConfig) (name : String)
    → blocks_at name (restore_blocks saved chains) ≡ (elim (lookup name saved) [
      | none ↦ blocks_at name chains
      | some b ↦ if has name chains then some b else none
    ])
unfolding restore_blocks blocks_at lookup has
blocks_at-restore_blocks [] chains name = refl
blocks_at-restore_blocks ((k, b) ∷ rest) chains name =
    let ih = blocks_at-restore_blocks rest chains name in
    rw
      (
        blocks_at,
        lookup-update k name (λ cc. record cc { blocks_results = b }) (restore_blocks rest chains),
      )
      (ground (arith, ih))

blocks_at-restore_nodes :
    (down : Map (Map Time)) (chains : Map ChainConfig) (name : String)
    → blocks_at name (restore_nodes down chains) ≡ blocks_at name chains
unfolding restore_nodes blocks_at
blocks_at-restore_nodes [] chains name = refl
blocks_at-restore_nodes ((k, m) ∷ rest) chains name =
    let ih = blocks_at-restore_nodes rest chains name in
    rw
      (
        blocks_at,
        lookup-update k name (λ cc. record cc { nodes = mark_all m cc.nodes })
            (restore_nodes rest chains),
      )
      (ground (arith, ih))

blocks_at-note_no_nodes :
    (chains : Map ChainConfig) (name : String)
    → blocks_at name (note_no_nodes chains) ≡ blocks_at name chains
unfolding note_no_nodes blocks_at lookup
blocks_at-note_no_nodes [] name = refl
blocks_at-note_no_nodes ((k, cc) ∷ rest) name =
    let ih = blocks_at-note_no_nodes rest name in ground (arith, ih)

-- The block results of a chain that both processes are configured with survive the restart, and a chain
-- that only the new one has keeps its own.
pub restart-blocks_at :
    (now : Time) (old new : Config × AlarmCache) (name : String)
    → blocks_at name (restore_saved_state now (some (snapshot_saved_state old)) new).0.chains
      ≡ (elim (blocks_at name old.0.chains) [
        | none ↦ blocks_at name new.0.chains
        | some b ↦ if has name new.0.chains then some b else none
      ])
unfolding restore_saved_state snapshot_saved_state
restart-blocks_at now old new name =
    rw
      (
        blocks_at-note_no_nodes
            (restore_nodes (snapshot_nodes old.0.chains)
              (restore_blocks (snapshot_blocks old.0.chains) new.0.chains))
            name,
        blocks_at-restore_nodes (snapshot_nodes old.0.chains)
            (restore_blocks (snapshot_blocks old.0.chains) new.0.chains) name,
        blocks_at-restore_blocks (snapshot_blocks old.0.chains) new.0.chains name,
        lookup-snapshot_blocks old.0.chains name,
      )
      refl
