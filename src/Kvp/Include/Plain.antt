-- ===== src/Kvp/Include/Plain.antt =====
-- src/ut_kvp.c: `process_node_copy` on a node that includes nothing.
use ut_control.Base.{
  ℕ, zero, suc, ◌≤◌, ◌<◌, ◌≡◌, ◌≢◌, inl, inr, refl, subst, ap, sym, ◌∙◌, true, false, Option, none,
  some, List, [], ◌∷◌, ◌++◌, map, All, All-imp, arith, leb, append_assoc, append-nil,
}
use ut_control.Kvp.Fyaml.{Fyaml}
use ut_control.Kvp.Include.{
  max_include_depth, Copy, include_and_process, include_of_entry, or_copy, copy_entry, append_entry,
  copy_entries, is_include_pair, include_of_pair, append_pair, merge_or_copy, copy_pair, copy_pairs,
  has_include_tag, new_sequence, new_mapping, copy_node, process_node_copy,
}
use ut_control.Kvp.Include.Tag.{has_include_tag-other}
use ut_control.Kvp.Include.View.{View, PairsOf, Distinct, OnPair, Plain, Copied}

module _ (Y : Fyaml) (view : View Y) where
  All-middle :
      (P : view.Tree × view.Tree → Type 0) (xs : List (view.Tree × view.Tree))
      (y : view.Tree × view.Tree) (ys : List (view.Tree × view.Tree))
      → All P (xs ++ y ∷ ys)
      → P y
  All-middle P [] y ys all = all.0
  All-middle P (x ∷ xs) y ys all = All-middle P xs y ys all.1

  Distinct-middle :
      (xs : List (view.Tree × view.Tree)) (y : view.Tree × view.Tree)
      (ys : List (view.Tree × view.Tree))
      → Distinct Y view (xs ++ y ∷ ys)
      → All (λ x. x.0 ≢ y.0) xs
  Distinct-middle [] y ys d = tt
  Distinct-middle (x ∷ xs) y ys d =
      (All-middle (λ u. x.0 ≢ u.0) xs y ys d.0, Distinct-middle xs y ys d.1)

  module _ (copy : Copy Y) (depth : ℕ) where
    plain_entry :
        (x : Y.Node)
        → include_of_entry Y x ≡ none
        → Copied Y view x (copy (some x) depth)
        → Copied Y view x (copy_entry Y copy x depth)
    unfolding copy_entry include_and_process or_copy
    plain_entry x none' (x', e, same) = (x', rw none' e, same)

    plain_entries :
        (xs : List Y.Node) (s : Y.Node) (ts : List view.Tree)
        → view.tree s ≡ view.sequence ts
        → All (λ x. (include_of_entry Y x ≡ none) × Copied Y view x (copy (some x) depth)) xs
        → (s' : Y.Node) × (copy_entries Y copy xs depth s ≡ some s')
          × (view.tree s' ≡ view.sequence (ts ++ map view.tree xs))
    unfolding copy_entries append_entry
    plain_entries [] s ts e all = (s, refl, e ∙ ap view.sequence (sym (append-nil ts)))
    plain_entries (x ∷ xs) s ts e all =
        let (x', c, same) = plain_entry x all.0.0 all.0.1 in
        let (s', a, e') = view.appended_entry s x' ts e in
        let (s'', rest, e'') =
          plain_entries xs s' (ts ++ view.tree x ∷ [])
            (e' ∙ ap (λ (t : view.Tree). view.sequence (ts ++ t ∷ [])) same) all.1 in
        (
          s'',
          rw c (rw (a, append_entry) rest),
          e'' ∙ ap view.sequence (append_assoc ts (view.tree x ∷ []) (map view.tree xs)),
        )

    plain_pair :
        (k v m : Y.Node) (ts : List (view.Tree × view.Tree))
        → is_include_pair Y k v ≡ false
        → Copied Y view v (copy (some v) depth)
        → view.tree m ≡ view.mapping ts
        → All (λ t. t.0 ≢ view.tree k) ts
        → (m' : Y.Node) × (copy_pair Y copy (some k) (some v) depth m ≡ some m')
          × (view.tree m' ≡ view.mapping (ts ++ (view.tree k, view.tree v) ∷ []))
    unfolding copy_pair include_of_pair merge_or_copy append_pair
    plain_pair k v m ts plain (v', c, same) e fresh =
        let (k', ck, same_key) = view.tree-copy k in
        let (m', a, e') = view.appended_pair m k' v' ts e (
          subst (λ (t : view.Tree). All (λ (u : view.Tree × view.Tree). u.0 ≢ t) ts) (sym same_key)
            fresh) in
        (
          m',
          rw plain (rw (c, ck) (rw (a, append_pair))),
          e'
              ∙ ap (λ (t : view.Tree × view.Tree). view.mapping (ts ++ t ∷ []))
                  (ap (λ (t : view.Tree). (t, view.tree v')) same_key
                    ∙ ap (λ (t : view.Tree). (view.tree k, t)) same),
        )

    plain_pairs :
        (ps : List (Option Y.Node × Option Y.Node)) (ts acc : List (view.Tree × view.Tree))
        (m : Y.Node)
        → view.tree m ≡ view.mapping acc
        → PairsOf Y view ps ts
        → Distinct Y view (acc ++ ts)
        → All
            (OnPair Y view
              (λ k v. (is_include_pair Y k v ≡ false) × Copied Y view v (copy (some v) depth)))
            ps
        → (m' : Y.Node) × (copy_pairs Y copy ps depth m ≡ some m')
          × (view.tree m' ≡ view.mapping (acc ++ ts))
    unfolding copy_pairs
    plain_pairs [] [] acc m e of d all = (m, refl, e ∙ ap view.mapping (sym (append-nil acc)))
    plain_pairs [] (t ∷ ts) acc m e of d all = absurd of
    plain_pairs (p ∷ ps) [] acc m e of d all = absurd of
    plain_pairs ((none, v) ∷ ps) (t ∷ ts) acc m e of d all = absurd of.0
    plain_pairs ((some k, none) ∷ ps) (t ∷ ts) acc m e of d all = absurd of.0
    plain_pairs ((some k, some v) ∷ ps) ((tk, tv) ∷ ts) acc m e of d all =
        let fresh = Distinct-middle acc (tk, tv) ts d in
        let (m', c, e') = plain_pair k v m acc all.0.0 all.0.1 e (
          subst (λ (t : view.Tree). All (λ (u : view.Tree × view.Tree). u.0 ≢ t) acc) (sym of.0.0)
            fresh) in
        let grown : view.tree m' ≡ view.mapping (acc ++ (tk, tv) ∷ []) =
          e'
          ∙ ap (λ (t : view.Tree × view.Tree). view.mapping (acc ++ t ∷ []))
              (ap (λ (t : view.Tree). (t, view.tree v)) of.0.0
                ∙ ap (λ (t : view.Tree). (tk, t)) of.0.1) in
        let (m'', rest, e'') =
          plain_pairs ps ts (acc ++ (tk, tv) ∷ []) m' grown of.1
            (subst (Distinct Y view) (sym (append_assoc acc ((tk, tv) ∷ []) ts)) d) all.1 in
        (m'', rw c rest, e'' ∙ ap view.mapping (append_assoc acc ((tk, tv) ∷ []) ts))

    plain_sequence :
        (n : Y.Node)
        → view.tree n ≡ view.sequence (map view.tree (Y.items n))
        → All
            (λ x. (include_of_entry Y x ≡ none) × Copied Y view x (copy (some x) depth))
            (Y.items n)
        → Copied Y view n (new_sequence Y copy Y.create_sequence n depth)
    unfolding new_sequence
    plain_sequence n e all =
        let (s, c, empty) = view.created_sequence in
        let (s', r, e') = plain_entries (Y.items n) s [] empty all in
        (s', rw (c, new_sequence) (rw r), e' ∙ sym e)

    plain_mapping :
        (n : Y.Node) (ts : List (view.Tree × view.Tree))
        → view.tree n ≡ view.mapping ts
        → PairsOf Y view (Y.pairs n) ts
        → Distinct Y view ts
        → All
            (OnPair Y view
              (λ k v. (is_include_pair Y k v ≡ false) × Copied Y view v (copy (some v) depth)))
            (Y.pairs n)
        → Copied Y view n (new_mapping Y copy Y.create_mapping n depth)
    unfolding new_mapping
    plain_mapping n ts e of d all =
        let (m, c, empty) = view.created_mapping in
        let (m', r, e') = plain_pairs (Y.pairs n) ts [] m empty of d all in
        (m', rw (c, new_mapping) (rw r), e' ∙ sym e)

  OnPair-imp :
      (P Q : Y.Node → Y.Node → Type 0)
      → ((k v : Y.Node) → P k v → Q k v)
      → (p : Option Y.Node × Option Y.Node) → OnPair Y view P p
      → OnPair Y view Q p
  OnPair-imp P Q h (some k, some v) x = h k v x
  OnPair-imp P Q h (some k, none) x = absurd x
  OnPair-imp P Q h (none, v) x = absurd x

  shallow : (depth : ℕ) → depth < max_include_depth → leb max_include_depth depth ≡ false
  shallow depth h = ground arith

  kept_scalar :
      (copy : Copy Y) (depth : ℕ) (n : Y.Node)
      → Y.is_scalar n ≡ true
      → has_include_tag Y n ≡ false
      → Copied Y view n (copy_node Y copy n depth)
  unfolding copy_node
  kept_scalar copy depth n scalar untagged =
      let (n', c, same) = view.tree-copy n in (n', rw (untagged, scalar, copy_node) (rw c), same)

  kept_sequence :
      (copy : Copy Y) (depth : ℕ) (n : Y.Node)
      → Y.is_scalar n ≡ false
      → Y.is_sequence n ≡ true
      → Copied Y view n (new_sequence Y copy Y.create_sequence n depth)
      → Copied Y view n (copy_node Y copy n depth)
  unfolding copy_node
  kept_sequence copy depth n scalar seq c =
      rw (has_include_tag-other Y n scalar, copy_node) (rw (scalar, seq) c)

  kept_mapping :
      (copy : Copy Y) (depth : ℕ) (n : Y.Node)
      → Y.is_scalar n ≡ false
      → Y.is_sequence n ≡ false
      → Y.is_mapping n ≡ true
      → Copied Y view n (new_mapping Y copy Y.create_mapping n depth)
      → Copied Y view n (copy_node Y copy n depth)
  unfolding copy_node
  kept_mapping copy depth n scalar seq mapping' c =
      rw (has_include_tag-other Y n scalar, copy_node) (rw (scalar, seq, mapping') c)

  -- Where a node includes nothing, the copy that `process_node_copy` makes of it stands for the same
  -- tree as the node, at every depth below the limit and with fuel for its height.
  pub process_node_copy-Plain :
      (h fuel depth : ℕ) (n : Y.Node)
      → Plain Y view h n
      → h ≤ fuel
      → depth < max_include_depth
      → Copied Y view n (process_node_copy Y fuel true (some n) depth)
  unfolding process_node_copy copy_node
  process_node_copy-Plain zero fuel depth n p le lt = absurd p
  process_node_copy-Plain (suc h) zero depth n p le lt = absurd (omega arith)
  process_node_copy-Plain (suc h) (suc fuel) depth n (inl (scalar, untagged)) le lt =
      rw (shallow depth lt) (kept_scalar (process_node_copy Y fuel true) depth n scalar untagged)
  process_node_copy-Plain (suc h) (suc fuel) depth n (inr (inl (scalar, seq, e, all))) le lt =
      let below : (x : Y.Node)
          → (include_of_entry Y x ≡ none) × Plain Y view h x
          → (include_of_entry Y x ≡ none)
            × Copied Y view x (process_node_copy Y fuel true (some x) depth) =
        λ x p. (p.0, process_node_copy-Plain h fuel depth x p.1 (omega arith) lt) in
      rw (shallow depth lt) (
        kept_sequence (process_node_copy Y fuel true) depth n scalar seq (
          plain_sequence (process_node_copy Y fuel true) depth n e
            (All-imp _ _ (Y.items n) below all)))
  process_node_copy-Plain (suc h) (suc fuel) depth n
        (inr (inr (scalar, seq, mapping', ts, e, of, d, all))) le lt =
      let below : (k v : Y.Node)
          → (is_include_pair Y k v ≡ false) × Plain Y view h v
          → (is_include_pair Y k v ≡ false)
            × Copied Y view v (process_node_copy Y fuel true (some v) depth) =
        λ k v p. (p.0, process_node_copy-Plain h fuel depth v p.1 (omega arith) lt) in
      rw (shallow depth lt) (
        kept_mapping (process_node_copy Y fuel true) depth n scalar seq mapping' (
          plain_mapping (process_node_copy Y fuel true) depth n ts e of d
            (All-imp _ _ (Y.pairs n) (OnPair-imp _ _ below) all)))
