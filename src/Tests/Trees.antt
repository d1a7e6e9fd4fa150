-- ===== src/Tests/Trees.antt =====
-- A YAML library whose nodes are trees, and a tree that `process_node_copy` copies.
use ut_control.Base.{
  ℕ, ◌≡◌, refl, ap, ◌∙◌, Bool, true, false, Option, none, some, List, [], ◌∷◌, ◌++◌, arith,
  if◌then◌else◌, length, inl, inr,
}
use ut_control.Base.Int.{pos}
use ut_control.CString.{Text, strcmp_eq}
use ut_control.CString.Literal.{codes}
use ut_control.Kvp.Fyaml.{Fyaml}
use ut_control.Kvp.Include.{process_node_copy, include_of_entry, is_include_pair, has_include_tag}
use ut_control.Kvp.Include.View.{View, Plain, Copied}
use ut_control.Kvp.Include.Plain.{process_node_copy-Plain}
use ut_control.Kvp.Pattern.{find_pattern_from_buffer}
use ut_control.Kvp.Include.{source_document}
use ut_control.Kvp.Include.Source.{SourceOf, source_document_lem}
use ut_control.Kvp.Key.{dot_to_slash}
use ut_control.Kvp.Instance.{Instance, kvp_magic}
use ut_control.Kvp.Nodes.{ut_kvp_get_list_count}
use ut_control.Kvp.Nodes.Strings.{Leads}
use ut_control.Kvp.Nodes.Counts.{list_count}

-- A sequence is built from the empty one, entry by entry, and a mapping pair by pair.
pub data Tree : Type 0 where
  text : Text → Tree
  no_entries no_pairs : Tree
  entry : (before last : Tree) → Tree
  pair : (before key value : Tree) → Tree

abbrev is_text : Tree → Bool
is_text (text t) = true
is_text _ = false

abbrev is_sequence : Tree → Bool
is_sequence no_entries = true
is_sequence (entry s x) = true
is_sequence _ = false

abbrev is_mapping : Tree → Bool
is_mapping no_pairs = true
is_mapping (pair m k v) = true
is_mapping _ = false

abbrev entries : Tree → List Tree
entries (entry s x) = entries s ++ x ∷ []
entries _ = []

abbrev pairs_of : Tree → List (Option Tree × Option Tree)
pairs_of (pair m k v) = pairs_of m ++ (some k, some v) ∷ []
pairs_of _ = []

abbrev text_of : Tree → Option Text
text_of (text t) = some t
text_of _ = none

abbrev is_key : Text → Tree → Bool
is_key k (text t) = strcmp_eq t k
is_key k _ = false

abbrev find : Tree → Text → Option Tree
find (pair m k v) t = let rest = find m t in if is_key t k then some v else rest
find _ t = none

-- The functions of libfyaml that read or build nodes; no node has a tag.
abbrev tree_yaml : Fyaml
tree_yaml = record {
  Node = Tree;
  Document = Tree;
  create = some no_pairs;
  build_from_string = λ t n. none;
  resolve = λ d. some d;
  root = λ d. d;
  set_root = λ d n. n;
  with_changed_root = λ d n. n;
  scanf = λ d t. (pos 0, []);
  emit = λ d. none;
  is_scalar = is_text;
  is_sequence = is_sequence;
  is_mapping = is_mapping;
  get_tag = λ n. none;
  get_scalar = text_of;
  get_scalar_string = text_of;
  get_scalar0 = text_of;
  by_path = find;
  item_count = λ n. pos (length (entries n));
  items = entries;
  pairs = pairs_of;
  lookup_by_string = find;
  copy = λ n. some n;
  create_scalar_copy = λ t. some (text t);
  create_sequence = some no_entries;
  create_mapping = some no_pairs;
  sequence_append = λ s x. some (entry s x);
  mapping_append = λ m k v. some (pair m k v);
  insert = λ n m. none;
  accessible = λ f. false;
  can_open = λ f. false;
  build_from_file = λ f. none;
  build_from_fp = λ b. none;
  malloc_ok = λ n. true;
  curl_init = true;
  curl_blocks = λ u. [];
  curl_ok = λ u. true;
  response_code = λ u. 200;
  tmpfile_ok = true;
  fwrite = λ b. length b;
}

abbrev with_entries : Tree → List Tree → Tree
with_entries s [] = s
with_entries s (t ∷ ts) = with_entries (entry s t) ts

abbrev with_pairs : Tree → List (Tree × Tree) → Tree
with_pairs m [] = m
with_pairs m ((k, v) ∷ ts) = with_pairs (pair m k v) ts

with_entries-last :
    (s x : Tree) (ts : List Tree) → entry (with_entries s ts) x ≡ with_entries s (ts ++ x ∷ [])
with_entries-last s x [] = refl
with_entries-last s x (t ∷ ts) = with_entries-last (entry s t) x ts

with_pairs-last :
    (m k v : Tree) (ts : List (Tree × Tree))
    → pair (with_pairs m ts) k v ≡ with_pairs m (ts ++ (k, v) ∷ [])
with_pairs-last m k v [] = refl
with_pairs-last m k v ((k', v') ∷ ts) = with_pairs-last (pair m k' v') k v ts

-- A node stands for itself.
abbrev tree_view : View tree_yaml
tree_view = record {
  Tree = Tree;
  sequence = with_entries no_entries;
  mapping = with_pairs no_pairs;
  tree = λ n. n;
  tree-copy = λ n. (n, refl, refl);
  created_sequence = (no_entries, refl, refl);
  created_mapping = (no_pairs, refl, refl);
  appended_entry = λ s x ts e.
      (entry s x, refl, ap (λ (b : Tree). entry b x) e ∙ with_entries-last no_entries x ts);
  appended_pair = λ m k v ts e d.
      (pair m k v, refl, ap (λ (b : Tree). pair b k v) e ∙ with_pairs-last no_pairs k v ts);
}

abbrev k_and_v : Tree
k_and_v = pair no_pairs (text (codes "k")) (text (codes "v"))

-- [a, {k: v}]
abbrev nested : Tree
nested = entry (entry no_entries (text (codes "a"))) k_and_v

abbrev PlainTree : ℕ → Tree → Type 0
PlainTree h n = Plain tree_yaml tree_view h n

plain_text : (t : Text) → PlainTree 1 (text t)
unfolding has_include_tag
plain_text t = inl (refl, refl)

plain_text2 : (t : Text) → PlainTree 2 (text t)
unfolding has_include_tag
plain_text2 t = inl (refl, refl)

k_and_v-Plain : PlainTree 2 k_and_v
unfolding is_include_pair find_pattern_from_buffer
k_and_v-Plain = inr (
    inr (
      refl,
      refl,
      refl,
      (text (codes "k"), text (codes "v")) ∷ [],
      refl,
      ((refl, refl), tt),
      (tt, tt),
      ((refl, plain_text (codes "v")), tt),
    ))

nested-Plain : PlainTree 3 nested
unfolding include_of_entry strcmp_eq
nested-Plain =
    inr (inl (refl, refl, refl, ((refl, plain_text2 (codes "a")), ((refl, k_and_v-Plain), tt))))

process_node_copy-Plain_example :
    Copied tree_yaml tree_view nested (process_node_copy tree_yaml 3 true (some nested) 0)
process_node_copy-Plain_example =
    process_node_copy-Plain tree_yaml tree_view 3 3 0 nested nested-Plain (omega arith)
      (omega arith)

-- {k: [a, {k: v}]}
abbrev rooted : Instance tree_yaml
rooted = record { magic = kvp_magic; fy_handle = some (pair no_pairs (text (codes "k")) nested) }

nested-Leads : Leads tree_yaml rooted (codes "k") nested
unfolding dot_to_slash strcmp_eq
nested-Leads = record {
  doc = pair no_pairs (text (codes "k")) nested;
  top = pair no_pairs (text (codes "k")) nested;
  valid = refl;
  opened = refl;
  key_text = omega arith;
  key_fits = omega arith;
  rooted = refl;
  path = refl;
}

list_count_example : ut_kvp_get_list_count tree_yaml (some rooted) (some (codes "k")) ≡ some 2
list_count_example = list_count (pos 2) nested-Leads refl (omega arith)

-- Every download is "ab", in two blocks, and a file is parsed as one text.
abbrev online : Fyaml
online = record tree_yaml {
  curl_blocks = λ u. codes "a" ∷ codes "b" ∷ [];
  build_from_fp = λ b. some (text b);
}

source_document_lem_example :
    SourceOf online (codes "http://x") (source_document online (codes "http://x"))
source_document_lem_example = source_document_lem online (codes "http://x") (λ n. refl) refl
