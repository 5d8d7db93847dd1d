-- ===== src/Loading/Chains.antt =====
-- Which file a chain's configuration comes from (seer/types.go).
use tenderduty_nos.Prelude.{
  String, true, ◌≡◌, ◌≢◌, ◌⊎◌, inl, inr, refl, sym, ap, subst, ◌∙◌, arith, str_eq, str_eq→eq,
  ne_of_str_eq, List, [], ◌∷◌, ◌++◌, All, got, Reply-cases, Bool-cases, some, Map, lookup, insert,
  lookup-insert_same, lookup-insert_other,
}
use tenderduty_nos.Config.{ChainConfig}
use tenderduty_nos.Loading.Load.{
  Entry, Source, is_chain_file, before_dot, load_chain_config, add_chains,
}

-- No file of these is the chain's.
pub HasNone : String → List Entry → Type 0
HasNone name entries = All (λ e. is_chain_file e ≡ true → before_dot e.name ≢ name) entries

-- The chain comes from a file after which no file of its name follows.
pub IsFrom : Source → String → List Entry → String → ChainConfig → Type 0
IsFrom s directory entries name chain =
    (before : List Entry) × (entry : Entry) × (after : List Entry) × (entries
      ≡ before ++ (entry ∷ after))
    × (is_chain_file entry ≡ true)
    × (before_dot entry.name ≡ name)
    × (load_chain_config s (s.join directory entry.name) ≡ got chain)
    × HasNone name after

IsFrom-later :
    (s : Source) (directory : String) (entry : Entry) (entries : List Entry) (name : String)
    (chain : ChainConfig)
    → IsFrom s directory entries name chain
    → IsFrom s directory (entry ∷ entries) name chain
unfolding IsFrom
IsFrom-later s directory entry entries name chain (before, e, after, split, kind, own, read, away) =
    (entry ∷ before, e, after, ap (λ es. entry ∷ es) split, kind, own, read, away)

-- A chain of the result is the configuration file's own, where no chain file of the directory has the
-- chain's name before its first dot, or is read from the last file that has; so of two such files the
-- earlier is not used.
pub add_chains-lookup :
    (s : Source) (directory : String) (entries : List Entry) (chains result : Map ChainConfig)
    (name : String)
    → add_chains s directory entries chains ≡ got result
    → (HasNone name entries × (lookup name result ≡ lookup name chains))
      ⊎ ((chain : ChainConfig) × IsFrom s directory entries name chain
          × (lookup name result ≡ some chain))
unfolding add_chains HasNone IsFrom
add_chains-lookup s directory [] chains result name h =
    inl (tt, ap (lookup name) (let same : chains ≡ result = ground (arith, h) in sym same))
add_chains-lookup s directory (entry ∷ entries) chains result name h =
    elim (Bool-cases (is_chain_file entry)) [
      | inr e ↦
          elim (add_chains-lookup s directory entries chains result name (ground (arith, h, e))) [
            | inl (away, same) ↦ inl ((λ f. absurd (ground (arith, e, f)), away), same)
            | inr (chain, from, found) ↦
                inr (chain, IsFrom-later s directory entry entries name chain from, found)
          ]
      | inl e ↦ elim (Reply-cases (load_chain_config s (s.join directory entry.name))) [
        | inr (t, f) ↦ absurd (ground (arith, h, e, f))
        | inl (c, f) ↦
            let own = before_dot entry.name in
            elim (add_chains-lookup s directory entries (insert own c chains) result name
              (ground (arith, h, e, f))) [
                | inr (chain, from, found) ↦
                    inr (chain, IsFrom-later s directory entry entries name chain from, found)
                | inl (away, same) ↦ elim (Bool-cases (str_eq own name)) [
                  | inl k ↦
                      let is_own = str_eq→eq own name k in
                      inr (
                        c,
                        ([], entry, entries, refl, e, is_own, f, away),
                        same
                            ∙ subst (λ n. lookup n (insert own c chains) ≡ some c) is_own
                                (lookup-insert_same own c chains),
                      )
                  | inr k ↦
                      let other = ne_of_str_eq own name k in
                      inl (
                        ((λ g. other), away),
                        same ∙ lookup-insert_other own name c chains (λ g. other (sym g)),
                      )
                ]
              ]
      ]
    ]
