-- ===== src/Kvp/Include/Expand/Finite.antt =====
-- src/ut_kvp.c: nodes that stand for trees are finite, and their copies are the expansions.
use ut_control.Base.{
  ℕ, suc, ◌+◌, ◌-◌, ◌≤◌, ◌<◌, ◌≡◌, ap, true, Option, none, some, List, [], ◌∷◌, All, arith,
}
use ut_control.Kvp.Fyaml.{Fyaml}
use ut_control.Kvp.Include.{max_include_depth, process_node_copy}
use ut_control.Kvp.Include.Termination.{OnValue, IsFinite, process_node_copy-Settles}
use ut_control.Kvp.Include.Tree.{
  Tree, Trees, Pairs, scalar, sequence, mapping, nil, cons, end, pair, entries_of, pairs_of, World,
  expansion,
}
use ut_control.Kvp.Include.Expand.{TreeView, shown, ItemsOf, PairsOf}
use ut_control.Kvp.Include.Expand.Nodes.{process_node_copy-Expands}

mutual
  size : Tree → ℕ
  size (scalar tag text string) = 0
  size (sequence ts) = suc (size_entries ts)
  size (mapping ps) = suc (size_pairs ps)

  size_entries : Trees → ℕ
  size_entries nil = 0
  size_entries (cons t ts) = size t + size_entries ts

  size_pairs : Pairs → ℕ
  size_pairs end = 0
  size_pairs (pair k v ps) = size v + size_pairs ps

items_below :
    {N : Type 0} (tree : N → Tree) (ns : List N) (ts : Trees) (bound : ℕ)
    → ItemsOf tree ns ts
    → size_entries ts < bound
    → All (λ n. size (tree n) < bound) ns
unfolding size
items_below tree [] nil bound of h = tt
items_below tree [] (cons t ts) bound of h = absurd of
items_below tree (n ∷ ns) nil bound of h = absurd of
items_below tree (n ∷ ns) (cons t ts) bound of h =
    (omega (arith, ap size of.0), items_below tree ns ts bound of.1 (omega arith))

values_below :
    {N : Type 0} (tree : N → Tree) (ps : List (Option N × Option N)) (qs : Pairs) (bound : ℕ)
    → PairsOf tree ps qs
    → size_pairs qs < bound
    → All (OnValue (λ n. size (tree n) < bound)) ps
unfolding size
values_below tree [] end bound of h = tt
values_below tree [] (pair k v qs) bound of h = absurd of
values_below tree ((none, v) ∷ ps) end bound of h = absurd of
values_below tree ((some k, none) ∷ ps) end bound of h = absurd of
values_below tree ((some k, some v) ∷ ps) end bound of h = absurd of
values_below tree ((none, v) ∷ ps) (pair k' v' qs) bound of h = absurd of
values_below tree ((some k, none) ∷ ps) (pair k' v' qs) bound of h = absurd of
values_below tree ((some k, some v) ∷ ps) (pair k' v' qs) bound of h =
    (omega (arith, ap size of.1), values_below tree ps qs bound of.2 (omega arith))

ItemsOf-tree :
    {N : Type 0} (tree : N → Tree) (ns : List N) (t : Tree)
    → ItemsOf tree ns (entries_of t)
    → All (λ n. size (tree n) < size t) ns
unfolding size
ItemsOf-tree tree [] (scalar tag text string) of = tt
ItemsOf-tree tree (n ∷ ns) (scalar tag text string) of = absurd of
ItemsOf-tree tree [] (mapping ps) of = tt
ItemsOf-tree tree (n ∷ ns) (mapping ps) of = absurd of
ItemsOf-tree tree ns (sequence ts) of = items_below tree ns ts _ of (omega arith)

PairsOf-tree :
    {N : Type 0} (tree : N → Tree) (ps : List (Option N × Option N)) (t : Tree)
    → PairsOf tree ps (pairs_of t)
    → All (OnValue (λ n. size (tree n) < size t)) ps
unfolding size
PairsOf-tree tree [] (scalar tag text string) of = tt
PairsOf-tree tree ((none, v) ∷ ps) (scalar tag text string) of = absurd of
PairsOf-tree tree ((some k, none) ∷ ps) (scalar tag text string) of = absurd of
PairsOf-tree tree ((some k, some v) ∷ ps) (scalar tag text string) of = absurd of
PairsOf-tree tree [] (sequence ts) of = tt
PairsOf-tree tree ((none, v) ∷ ps) (sequence ts) of = absurd of
PairsOf-tree tree ((some k, none) ∷ ps) (sequence ts) of = absurd of
PairsOf-tree tree ((some k, some v) ∷ ps) (sequence ts) of = absurd of
PairsOf-tree tree ps (mapping qs) of = values_below tree ps qs _ of (omega arith)

module _ (Y : Fyaml) (w : World) (view : TreeView Y w) where
  pub TreeView-IsFinite : IsFinite Y
  TreeView-IsFinite = record {
    height = λ n. size (view.tree n);
    items_below = λ n. ItemsOf-tree view.tree (Y.items n) (view.tree n) (view.items_lem n);
    values_below = λ n. PairsOf-tree view.tree (Y.pairs n) (view.tree n) (view.pairs_lem n);
  }

  -- From some fuel on, the call returns NULL or a node, as there is no expansion or one, and the node
  -- stands for it.
  abbrev pub Copies : (src : Option Y.Node) (depth : ℕ) → Option Tree → Type 0
  Copies src depth t =
      (enough : ℕ) × (r : Option Y.Node) × ((fuel : ℕ)
        → enough ≤ fuel
        → process_node_copy Y fuel true src depth ≡ some r)
      × (shown view.tree r ≡ t)

  -- With fuel enough, the copy that `process_node_copy` makes of a node stands for the expansion of
  -- the node's tree, with the levels of includes that are left at its depth: a scalar or an entry
  -- that is an include becomes the expansion of the file or the download that it names, expanded once
  -- more, and a pair that is one is merged from it; where that has no expansion, the scalar has none,
  -- and the entry and the pair are copied as others are. The copy is NULL exactly where there is no
  -- expansion.
  pub process_node_copy-expansion :
      (n : Y.Node) (depth : ℕ)
      → depth ≤ max_include_depth
      → Copies (some n) depth (expansion w (max_include_depth - depth) (view.tree n))
  process_node_copy-expansion n depth h =
      let s = process_node_copy-Settles Y TreeView-IsFinite (some n) depth in
      (
        s.enough,
        s.result,
        s.settled,
        process_node_copy-Expands Y w view s.enough depth (max_include_depth - depth) (omega arith)
            (some n) s.result (s.settled s.enough (omega arith)),
      )
