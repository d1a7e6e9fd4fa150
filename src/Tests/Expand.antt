-- ===== src/Tests/Expand.antt =====
-- Loads of src/ut_kvp.c from files that include each other.
use ut_control.Base.{ℕ, ◌≤◌, ◌≡◌, refl, true, none, some, [], ◌∷◌, arith}
use ut_control.CString.{Text, strcmp_eq}
use ut_control.CString.Literal.{codes}
use ut_control.Kvp.Include.{source_document, is_url, include_word}
use ut_control.Kvp.Include.Tree.{
  Tree, sequence, mapping, nil, cons, end, pair, expansion, expand_tree,
}
use ut_control.Kvp.Open.Loads.{Readable, Loads, tree_in, ut_kvp_open-Loads}
use ut_control.Kvp.Open.Answers.{ut_kvp_open-Answers}
use ut_control.Kvp.Open.Chains.{ut_kvp_open-Chain, ut_kvp_open-IsEndless}
use ut_control.Kvp.Include.Expand.Chains.{IsUnchanged, Chain, whole, link, IsEndless}
use ut_control.Kvp.Include.Expand.Finite.{Copies, process_node_copy-expansion}
use ut_control.Kvp.Open.{done, ut_kvp_open}
use ut_control.Kvp.Instance.{success, parsing_error, Instance, kvp_magic}
use ut_control.Kvp.Nodes.{ut_kvp_field_present, ut_kvp_get_string_field}
use ut_control.Kvp.Key.{dot_to_slash}
use ut_control.Kvp.Pattern.{find_pattern_from_buffer}
use ut_control.CString.{strncmp_eq, starts_with}
use ut_control.CString.Buffer.{read_string, read_string-append, strncpy_bytes}
use ut_control.Tests.Files.{
  includes_k, k-Parses, plain, include_of, leaf, main, file, files, world, view, laws, paths,
}
use ut_control.Base.{◌++◌}
use ut_control.Kvp.Open.{ut_kvp_open_memory}
use ut_control.Kvp.Open.Memory.{Leaves, ut_kvp_open_memory-Leaves}

-- {a: [{k: 2}, x], k: 2}
abbrev expanded : Tree
expanded = mapping (
    pair (plain (codes "a")) (sequence (cons leaf (cons (plain (codes "x")) nil)))
      (pair (plain (codes "k")) (plain (codes "2")) end))

process_node_copy-expansion_example : Copies files world view (some main) 1 (some expanded)
unfolding expansion expand_tree source_document is_url strncmp_eq strcmp_eq find_pattern_from_buffer
    starts_with
process_node_copy-expansion_example =
    process_node_copy-expansion files world view main 1 (omega arith)

-- An instance that holds {c: 3}.
abbrev holding : Instance files
holding = record {
  magic = kvp_magic;
  fy_handle = some (some (mapping (pair (plain (codes "c")) (plain (codes "3")) end)));
}

readable : (f : Text) → Readable files f (file f)
readable f = record {
  built = some (file f);
  doc = some (file f);
  accessed = refl;
  parsed = refl;
  resolved = refl;
  rooted = refl;
}

-- {c: 3, a: [{k: 2}, x], k: 2}
abbrev both : Tree
both = mapping (
    pair (plain (codes "c")) (plain (codes "3")) (
      pair (plain (codes "a")) (sequence (cons leaf (cons (plain (codes "x")) nil)))
        (pair (plain (codes "k")) (plain (codes "2")) end)))

ut_kvp_open-Loads_example :
    (enough : ℕ) × ((fuel : ℕ)
      → enough ≤ fuel
      → (p' : Instance files) × (ut_kvp_open files fuel (some holding) (some (codes "main"))
          ≡ done (success, some p'))
        × (p'.magic ≡ kvp_magic)
        × (tree_in view p'.fy_handle ≡ some both))
unfolding expansion expand_tree source_document is_url strncmp_eq strcmp_eq find_pattern_from_buffer
    starts_with
ut_kvp_open-Loads_example =
    ut_kvp_open-Loads files world view laws holding (codes "main") main refl
      (readable (codes "main"))

ut_kvp_open-Answers_example :
    (enough : ℕ) × ((fuel : ℕ)
      → enough ≤ fuel
      → (p' : Instance files) × (ut_kvp_open files fuel (some holding) (some (codes "main"))
          ≡ done (success, some p'))
        × ((ut_kvp_field_present files (some p') (some (codes "k")) ≡ some true)
            × (ut_kvp_get_string_field files (some p') (some (codes "k")) (some (7 ∷ 7 ∷ 7 ∷ [])) 3
                ≡ some (success, b'2' ∷ 0 ∷ 0 ∷ []))))
unfolding expansion expand_tree source_document is_url strncmp_eq strcmp_eq find_pattern_from_buffer
    starts_with dot_to_slash read_string strncpy_bytes
ut_kvp_open-Answers_example =
    ut_kvp_open-Answers files world view paths laws holding (codes "main") main expanded (codes "k")
      3 (7 ∷ 7 ∷ 7 ∷ []) refl (readable (codes "main")) refl (omega arith) (omega arith)
      (omega arith) (omega arith)

leaf-IsUnchanged : IsUnchanged world leaf
unfolding expansion expand_tree find_pattern_from_buffer
leaf-IsUnchanged room = refl

link-Chain : Chain world leaf (include_of (codes "k")) 1
unfolding source_document is_url strncmp_eq strcmp_eq
link-Chain = link (some (b'!' ∷ include_word)) (some (codes "k")) (codes "k") refl refl whole

ut_kvp_open-Chain_example :
    (enough : ℕ) × ((fuel : ℕ)
      → enough ≤ fuel
      → Loads files world view laws holding
          (some leaf)
          (ut_kvp_open files fuel (some holding) (some (codes "link"))))
unfolding strcmp_eq
ut_kvp_open-Chain_example =
    ut_kvp_open-Chain files world view laws holding (codes "link") (include_of (codes "k")) leaf 1
      refl (readable (codes "link")) leaf-IsUnchanged link-Chain

-- The file "me", which includes itself.
abbrev IsMe : Tree → Type 0
IsMe t = t ≡ include_of (codes "me")

IsMe-IsEndless : IsEndless world IsMe
unfolding source_document is_url strncmp_eq strcmp_eq
IsMe-IsEndless = record {
  includes_next = λ t e. (
    some (b'!' ∷ include_word),
    some (codes "me"),
    codes "me",
    include_of (codes "me"),
    e,
    refl,
    refl,
    refl,
  );
}

ut_kvp_open-IsEndless_example :
    (enough : ℕ) × ((fuel : ℕ)
      → enough ≤ fuel
      → (p' : Instance files) × (ut_kvp_open files fuel (some holding) (some (codes "me"))
          ≡ done (parsing_error, some p'))
        × (p'.fy_handle ≡ none))
unfolding strcmp_eq
ut_kvp_open-IsEndless_example =
    ut_kvp_open-IsEndless files world view laws holding (codes "me") (include_of (codes "me")) IsMe
      refl (readable (codes "me")) IsMe-IsEndless refl

ut_kvp_open_memory-Leaves_example :
    (enough : ℕ) × ((fuel : ℕ)
      → enough ≤ fuel
      → Leaves files world view laws
          (some leaf)
          (ut_kvp_open_memory files fuel (some holding) (some (codes "k" ++ 0 ∷ [])) 1))
unfolding expansion expand_tree source_document is_url strncmp_eq strcmp_eq find_pattern_from_buffer
    starts_with
ut_kvp_open_memory-Leaves_example =
    ut_kvp_open_memory-Leaves files world view laws holding (codes "k" ++ 0 ∷ []) (codes "k") 1
      includes_k refl (read_string-append (codes "k") [] (omega arith, tt)) k-Parses
