-- ===== src/Kvp/Include/Expand/Merge.antt =====
-- src/ut_kvp.c: one pair of a mapping, and `merge_nodes`, against trees.
use ut_control.Base.{
  ◌≡◌, refl, ap, ◌∙◌, Bool, false, ◌&&◌, Option, none, some, Option-cases, Bool-cases, inl, inr,
}
use ut_control.CString.{Text}
use ut_control.Kvp.Pattern.{find_pattern_from_buffer}
use ut_control.Kvp.Fyaml.{Fyaml}
use ut_control.Kvp.Include.{
  include_word, is_some, merge_nodes, merged_map, is_include_pair, append_pair,
}
use ut_control.Kvp.Include.Tree.{
  Tree, World, scalar, sequence, mapping, is_scalar_tree, is_mapping_tree, text_of, has_text,
  names_include, or_same, merged, with_pair,
}
use ut_control.Kvp.Include.Expand.{TreeView, shown, shown-some}

-- The test on a pair, from the bytes of its key and of its value.
abbrev includes : (key value : Option Text) → Bool
includes none b = false
includes (some s) b = is_some b && is_some (find_pattern_from_buffer s include_word)

includes_lem : (a b : Tree) → includes (text_of a) (text_of b) ≡ (has_text b && names_include a)
includes_lem a b =
    elim (text_of a)
      as (λ (x : Option Text). includes x (text_of b) ≡ (
        has_text b
        && elim x [ none ↦ false | some s ↦ is_some (find_pattern_from_buffer s include_word) ])) [
          | none ↦ elim (text_of b) as (λ (y : Option Text). false ≡ (is_some y && false)) [
            | none ↦ refl
            | some t ↦ refl
          ]
          | some s ↦ refl
        ]

module _ (Y : Fyaml) (w : World) (view : TreeView Y w) where
  is_include_pair-includes :
      (k v : Y.Node) → is_include_pair Y k v ≡ includes (Y.get_scalar k) (Y.get_scalar v)
  unfolding is_include_pair
  is_include_pair-includes k v = elim (Option-cases (Y.get_scalar k)) [
    | inl none' ↦ rw (none', is_include_pair) refl
    | inr (s, some') ↦ rw (some', is_include_pair) refl
  ]

  pub is_include_pair_lem :
      (k v : Y.Node)
      → is_include_pair Y k v ≡ (has_text (view.tree v) && names_include (view.tree k))
  is_include_pair_lem k v =
      is_include_pair-includes k v
      ∙ ap (λ (a : Option Text). includes a (Y.get_scalar v)) (view.get_scalar_lem k)
      ∙ ap (includes (text_of (view.tree k))) (view.get_scalar_lem v)
      ∙ includes_lem (view.tree k) (view.tree v)

  -- A map that a call has changed, or left as it was.
  changed :
      (m : Y.Node) (o : Option Y.Node) (t : Tree) (u : Option Tree)
      → view.tree m ≡ t
      → shown view.tree o ≡ u
      → view.tree (elim o [ none ↦ m | some n ↦ n ]) ≡ or_same t u
  changed m none t u e shows = e ∙ ap (or_same t) shows
  changed m (some n) t u e shows = ap (or_same t) shows

  is_scalar_known : (n : Y.Node) (t : Tree) → view.tree n ≡ t → Y.is_scalar n ≡ is_scalar_tree t
  is_scalar_known n t e = view.is_scalar_lem n ∙ ap is_scalar_tree e

  is_mapping_known : (n : Y.Node) (t : Tree) → view.tree n ≡ t → Y.is_mapping n ≡ is_mapping_tree t
  is_mapping_known n t e = view.is_mapping_lem n ∙ ap is_mapping_tree e

  pub merge_nodes-merged :
      (m n : Y.Node) (t : Tree)
      → view.tree m ≡ t
      → (m' : Y.Node) × (merge_nodes Y (some m) (some n) ≡ some m')
        × (view.tree m' ≡ merged w t (view.tree n))
  unfolding merge_nodes
  merge_nodes-merged m n (scalar tag text string) e =
      (m, rw (is_scalar_known m (scalar tag text string) e, merge_nodes) refl, e)
  merge_nodes-merged m n (sequence ts) e = (
    m,
    rw (is_scalar_known m (sequence ts) e, merge_nodes)
        (rw (is_mapping_known m (sequence ts) e) refl),
    e,
  )
  merge_nodes-merged m n (mapping ps) e = elim (Bool-cases (is_mapping_tree (view.tree n))) [
    | inr other ↦ (
      m,
      rw (is_scalar_known m (mapping ps) e, merge_nodes)
          (rw (is_mapping_known m (mapping ps) e, view.is_mapping_lem n) (rw other refl)),
      rw other e,
    )
    | inl both ↦ (
      elim (Y.insert m n) [ none ↦ m | some m' ↦ m' ],
      rw (is_scalar_known m (mapping ps) e, merge_nodes)
          (rw (is_mapping_known m (mapping ps) e, view.is_mapping_lem n) (rw both refl)),
      rw both (
          changed m (Y.insert m n) (mapping ps) _ e
            (view.insert_lem m n ∙ ap (λ (t : Tree). w.merge t (view.tree n)) e)),
    )
  ]

  pub merged_map-merged :
      (m n : Y.Node) (t : Tree)
      → view.tree m ≡ t
      → view.tree (merged_map Y m n) ≡ merged w t (view.tree n)
  unfolding merged_map
  merged_map-merged m n t e =
      let (m', merges, shows) = merge_nodes-merged m n t e in rw (merges, merged_map) shows

  pub append_pair_lem :
      (m k : Y.Node) (v : Option Y.Node) (t : Tree)
      → view.tree m ≡ t
      → view.tree (append_pair Y m (Y.copy k) v)
        ≡ with_pair w t (view.tree k) none (shown view.tree v)
  unfolding append_pair
  append_pair_lem m k v t e =
      let (k', copied, same) = shown-some view.tree (Y.copy k) (view.tree k) (view.copy_lem k) in
      rw copied
        (elim v
          as (λ (o : Option Y.Node).
            view.tree (append_pair Y m (some k') o)
            ≡ with_pair w t (view.tree k) none (shown view.tree o)) [
              | none ↦ e
              | some n ↦ changed m (Y.mapping_append m k' n) t _ e (
                  view.mapping_append_lem m k' n
                  ∙ ap (λ (x : Tree). w.put x (view.tree k') (view.tree n)) e
                  ∙ ap (λ (x : Tree). w.put t x (view.tree n)) same)
            ])
