-- ===== src/Kvp/Include/Expand.antt =====
-- src/ut_kvp.c: the trees that libfyaml's nodes stand for, with what is documented of the functions
-- that read and build nodes.
pub mod Includes
pub mod Sequences
pub mod Merge
pub mod Mappings
pub mod Nodes
pub mod Finite
pub mod Chains
use ut_control.Base.{ℕ, ◌≡◌, refl, ap, Bool, true, false, Option, none, some, List, [], ◌∷◌, ◌>>=◌}
use ut_control.CString.{Text}
use ut_control.Kvp.Fyaml.{Fyaml}
use ut_control.Kvp.Include.{source_document}
use ut_control.Kvp.Include.Tree.{
  Tree, Trees, Pairs, World, scalar, sequence, mapping, nil, cons, end, pair, is_scalar_tree,
  is_sequence_tree, is_mapping_tree, text_of, c_string_of, entries_of, pairs_of, append_trees,
}

-- The tree of a node that may be NULL.
abbrev pub shown : {N : Type 0} → (N → Tree) → Option N → Option Tree
shown tree none = none
shown tree (some n) = some (tree n)

pub shown_null :
    {N : Type 0} (tree : N → Tree) (r : Option N)
    → ◌≡◌ {A = Option (Option N)} (some none) (some r)
    → shown tree r ≡ none
shown_null tree none e = refl
shown_null tree (some n) e = absurd (cc)

pub shown-some :
    {N : Type 0} (tree : N → Tree) (o : Option N) (t : Tree)
    → shown tree o ≡ some t
    → (n : N) × (o ≡ some n) × (tree n ≡ t)
shown-some tree none t e = absurd (cc)
shown-some tree (some n) t e = (n, refl, cc)

pub shown_same :
    {N : Type 0} (tree : N → Tree) (a b : Option N) → some a ≡ some b → shown tree a ≡ shown tree b
shown_same tree a b e = ap (shown tree) e'
  where
    e' : a ≡ b
    e' = cc (e)

abbrev pub ItemsOf : {N : Type 0} → (N → Tree) → List N → Trees → Type 0
ItemsOf tree [] nil = Unit
ItemsOf tree (n ∷ ns) (cons t ts) = (tree n ≡ t) × ItemsOf tree ns ts
ItemsOf tree _ _ = ⊥

abbrev pub PairsOf : {N : Type 0} → (N → Tree) → List (Option N × Option N) → Pairs → Type 0
PairsOf tree [] end = Unit
PairsOf tree ((some k, some v) ∷ ps) (pair k' v' qs) =
    (tree k ≡ k') × (tree v ≡ v') × PairsOf tree ps qs
PairsOf tree _ _ = ⊥

-- Every node stands for a tree, which the functions that read nodes read; those that build nodes
-- find memory, and work on the trees.
pub record TreeView (Y : Fyaml) (w : World) : Type 0 where
  pub tree : Y.Node → Tree
  pub is_scalar_lem : (n : Y.Node) → Y.is_scalar n ≡ is_scalar_tree (tree n)
  pub is_sequence_lem : (n : Y.Node) → Y.is_sequence n ≡ is_sequence_tree (tree n)
  pub is_mapping_lem : (n : Y.Node) → Y.is_mapping n ≡ is_mapping_tree (tree n)
  pub get_tag_lem :
      (n : Y.Node) (tag text string : Option Text)
      → tree n ≡ scalar tag text string
      → Y.get_tag n ≡ tag
  pub get_scalar_lem : (n : Y.Node) → Y.get_scalar n ≡ text_of (tree n)
  pub get_scalar_string_lem : (n : Y.Node) → Y.get_scalar_string n ≡ c_string_of (tree n)
  pub items_lem : (n : Y.Node) → ItemsOf tree (Y.items n) (entries_of (tree n))
  pub pairs_lem : (n : Y.Node) → PairsOf tree (Y.pairs n) (pairs_of (tree n))
  pub lookup_lem :
      (n : Y.Node) (k : Text) → shown tree (Y.lookup_by_string n k) ≡ w.lookup (tree n) k
  pub copy_lem : (n : Y.Node) → shown tree (Y.copy n) ≡ some (tree n)
  pub create_sequence_lem : shown tree Y.create_sequence ≡ some (sequence nil)
  pub create_mapping_lem : shown tree Y.create_mapping ≡ some (mapping end)
  pub sequence_append_lem :
      (s x : Y.Node) (ts : Trees)
      → tree s ≡ sequence ts
      → shown tree (Y.sequence_append s x) ≡ some (sequence (append_trees ts (cons (tree x) nil)))
  pub mapping_append_lem :
      (m k v : Y.Node) → shown tree (Y.mapping_append m k v) ≡ w.put (tree m) (tree k) (tree v)
  pub insert_lem : (m n : Y.Node) → shown tree (Y.insert m n) ≡ w.merge (tree m) (tree n)
  pub source_lem :
      (name : Text) → shown tree (source_document Y name >>= λ d. Y.root (some d)) ≡ w.source name
