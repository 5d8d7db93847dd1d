-- ===== src/Nodes/Paths.antt =====
-- What a refresh of the chain registry does to the paths (seer/chain-details.go).
use tenderduty_nos.Prelude.{
  String, ◌≡◌, ◌≢◌, ◌⊎◌, inl, inr, refl, ◌∙◌, arith, Option, none, some, List, [], ◌∷◌,
  if◌then◌else◌, str_eq, Map, lookup, Reply, got, failed, Option-cases, lookup-insert,
}
use tenderduty_nos.Nodes.Registry.{RegistryChain, add_paths, refresh_registry}

-- The path of the last entry for a chain.
pub last_path : String → List RegistryChain → Option String
last_path id [] = none
last_path id (c ∷ cs) =
    let rest = last_path id cs in
    elim rest [
      | none ↦ (if str_eq id c.chain_id then some c.path else none)
      | some path ↦ some path
    ]

lookup-add_paths :
    (id : String) (cs : List RegistryChain) (paths : Map String)
    → lookup id (add_paths cs paths)
      ≡ (elim (last_path id cs) [ none ↦ lookup id paths | some path ↦ some path ])
unfolding add_paths last_path
lookup-add_paths id [] paths = refl
lookup-add_paths id (c ∷ cs) paths = elim (Option-cases (last_path id cs)) [
  | inl e ↦
      lookup-add_paths id cs _ ∙ rw e (lookup-insert c.chain_id id c.path paths ∙ ground arith)
  | inr (path, e) ↦ lookup-add_paths id cs _ ∙ rw e refl
]

-- A refresh of the registry either reports an error and leaves the paths as they were, or it reports none,
-- the answer had chains, each chain that it names has the last path named for it, and every other
-- chain keeps its own.
pub refresh_registry-paths :
    (fetch : Reply (List RegistryChain)) (paths : Map String) (id : String)
    → let result = refresh_registry fetch paths in
      (((e : String) × (result.1 ≡ some e)) × (result.0 ≡ paths))
      ⊎ ((chains : List RegistryChain) × (fetch ≡ got chains)
          × (chains ≢ [])
          × (result.1 ≡ none)
          × (((path : String) × (last_path id chains ≡ some path)
                × (lookup id result.0 ≡ some path))
              ⊎ ((last_path id chains ≡ none) × (lookup id result.0 ≡ lookup id paths))))
unfolding refresh_registry
refresh_registry-paths (failed e) paths id = inl ((e, refl), refl)
refresh_registry-paths (got []) paths id = inl ((_, refl), refl)
refresh_registry-paths (got (c ∷ cs)) paths id =
    let found = lookup-add_paths id (c ∷ cs) paths in
    inr (
      c ∷ cs,
      refl,
      (λ h. cc),
      refl,
      elim (Option-cases (last_path id (c ∷ cs))) [
        | inl e ↦ inr (e, found ∙ rw e refl)
        | inr (path, e) ↦ inl (path, e, found ∙ rw e refl)
      ],
    )
