-- ===== src/Kvp/Include/View.antt =====
-- src/ut_kvp.c: what the nodes that `process_node_copy` reads and builds stand for, and which nodes
-- include nothing.
use ut_control.Base.{
  ℕ, zero, suc, ◌≡◌, ◌≢◌, ◌⊎◌, true, false, Option, none, some, List, [], ◌∷◌, ◌++◌, map, All,
}
use ut_control.Kvp.Fyaml.{Fyaml}
use ut_control.Kvp.Include.{include_of_entry, is_include_pair, has_include_tag}

-- What a node stands for, in any type that has sequences and mappings, and what libfyaml documents
-- of the functions that read and build nodes, where memory is found.
pub record View (Y : Fyaml) : Type 1 where
  pub Tree : Type 0
  pub sequence : List Tree → Tree
  pub mapping : List (Tree × Tree) → Tree
  pub tree : Y.Node → Tree
  pub tree-copy : (n : Y.Node) → (n' : Y.Node) × (Y.copy n ≡ some n') × (tree n' ≡ tree n)
  pub created_sequence : (s : Y.Node) × (Y.create_sequence ≡ some s) × (tree s ≡ sequence [])
  pub created_mapping : (m : Y.Node) × (Y.create_mapping ≡ some m) × (tree m ≡ mapping [])
  -- An entry is appended at the end.
  pub appended_entry :
      (s x : Y.Node) (ts : List Tree)
      → tree s ≡ sequence ts
      → (s' : Y.Node) × (Y.sequence_append s x ≡ some s') × (tree s' ≡ sequence (ts ++ tree x ∷ []))
  -- A pair is appended at the end where its key is another one than those that are there.
  pub appended_pair :
      (m k v : Y.Node) (ts : List (Tree × Tree))
      → tree m ≡ mapping ts
      → All (λ t. t.0 ≢ tree k) ts
      → (m' : Y.Node) × (Y.mapping_append m k v ≡ some m')
        × (tree m' ≡ mapping (ts ++ (tree k, tree v) ∷ []))

module _ (Y : Fyaml) (view : View Y) where
  abbrev pub PairOf : Option Y.Node × Option Y.Node → view.Tree × view.Tree → Type 0
  PairOf (some k, some v) t = (view.tree k ≡ t.0) × (view.tree v ≡ t.1)
  PairOf _ t = ⊥

  abbrev pub PairsOf : List (Option Y.Node × Option Y.Node) → List (view.Tree × view.Tree) → Type 0
  PairsOf [] [] = Unit
  PairsOf (p ∷ ps) (t ∷ ts) = PairOf p t × PairsOf ps ts
  PairsOf _ _ = ⊥

  -- No key is one of those in front of it.
  abbrev pub Distinct : List (view.Tree × view.Tree) → Type 0
  Distinct [] = Unit
  Distinct (t ∷ ts) = All (λ (u : view.Tree × view.Tree). t.0 ≢ u.0) ts × Distinct ts

  abbrev pub OnPair : (Y.Node → Y.Node → Type 0) → Option Y.Node × Option Y.Node → Type 0
  OnPair P (some k, some v) = P k v
  OnPair P _ = ⊥

  -- A node of a height below `h` without an include: no tag on a scalar is one, no entry of a
  -- sequence is a mapping with a scalar at "include", no key of a mapping contains "include", and
  -- the keys of a mapping are distinct. It stands for the tree of its entries or pairs.
  abbrev pub Plain : ℕ → Y.Node → Type 0
  Plain zero n = ⊥
  Plain (suc h) n =
      ((Y.is_scalar n ≡ true) × (has_include_tag Y n ≡ false))
      ⊎ ((Y.is_scalar n ≡ false)
          × (Y.is_sequence n ≡ true)
          × (view.tree n ≡ view.sequence (map view.tree (Y.items n)))
          × All (λ x. (include_of_entry Y x ≡ none) × Plain h x) (Y.items n))
      ⊎ ((Y.is_scalar n ≡ false)
          × (Y.is_sequence n ≡ false)
          × (Y.is_mapping n ≡ true)
          × (ts : List (view.Tree × view.Tree)) × (view.tree n ≡ view.mapping ts)
          × PairsOf (Y.pairs n) ts
          × Distinct ts
          × All (OnPair (λ k v. (is_include_pair Y k v ≡ false) × Plain h v)) (Y.pairs n))

  -- The result is a node that stands for the same tree.
  abbrev pub Copied : Y.Node → Option (Option Y.Node) → Type 0
  Copied n r = (n' : Y.Node) × (r ≡ some (some n')) × (view.tree n' ≡ view.tree n)
