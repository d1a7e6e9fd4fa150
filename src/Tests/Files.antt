-- ===== src/Tests/Files.antt =====
-- A YAML library whose nodes are trees and whose files include each other.
use ut_control.Base.{
  ◌≡◌, refl, ap, ◌∙◌, Bool, true, false, Option, none, some, List, [], ◌∷◌, ◌>>=◌, if◌then◌else◌,
  length,
}
use ut_control.Base.Int.{pos}
use ut_control.CString.{Text, strcmp_eq}
use ut_control.CString.Literal.{codes}
use ut_control.Kvp.Fyaml.{Fyaml}
use ut_control.Kvp.Include.{source_document, include_word}
use ut_control.Kvp.Include.Tree.{
  Tree, Trees, Pairs, World, scalar, sequence, mapping, nil, cons, end, pair, is_scalar_tree,
  is_sequence_tree, is_mapping_tree, text_of, c_string_of, entries_of, pairs_of, append_trees,
}
use ut_control.Kvp.Include.Expand.{TreeView, shown, ItemsOf, PairsOf}
use ut_control.Kvp.Open.Memory.{Parses}
use ut_control.Kvp.Open.Loads.{DocumentLaws}
use ut_control.Kvp.Open.Answers.{c_string, PathLaws}

abbrev tag_of : Tree → Option Text
tag_of (scalar tag text string) = tag
tag_of _ = none

abbrev entry_list : Trees → List Tree
entry_list nil = []
entry_list (cons t ts) = t ∷ entry_list ts

abbrev pair_list : Pairs → List (Option Tree × Option Tree)
pair_list end = []
pair_list (pair k v ps) = (some k, some v) ∷ pair_list ps

abbrev append_pairs : Pairs → Pairs → Pairs
append_pairs end qs = qs
append_pairs (pair k v ps) qs = pair k v (append_pairs ps qs)

abbrev has_key : Text → Tree → Bool
has_key k (scalar tag (some s) string) = strcmp_eq s k
has_key k _ = false

abbrev find_pair : Pairs → Text → Option Tree
find_pair end k = none
find_pair (pair key v ps) k = let rest = find_pair ps k in if has_key k key then some v else rest

abbrev append_to : Tree → Tree → Option Tree
append_to (sequence ts) t = some (sequence (append_trees ts (cons t nil)))
append_to _ t = none

abbrev put : Tree → Tree → Tree → Option Tree
put (mapping ps) k v = some (mapping (append_pairs ps (pair k v end)))
put _ k v = none

abbrev join_maps : Tree → Tree → Option Tree
join_maps (mapping ps) (mapping qs) = some (mapping (append_pairs ps qs))
join_maps _ _ = none

abbrev pub plain : Text → Tree
plain s = scalar none (some s) (some s)

abbrev pub include_of : Text → Tree
include_of f = scalar (some (b'!' ∷ include_word)) (some f) (some f)

-- {k: 2}
abbrev pub leaf : Tree
leaf = mapping (pair (plain (codes "k")) (plain (codes "2")) end)

-- {a: [{include: k}, x], include: k}
abbrev pub main : Tree
main = mapping (
    pair (plain (codes "a"))
      (sequence (
        cons (mapping (pair (plain include_word) (plain (codes "k")) end))
          (cons (plain (codes "x")) nil)))
      (pair (plain include_word) (plain (codes "k")) end))

-- Any other file is an include of itself.
abbrev pub file : Text → Tree
file f =
    if strcmp_eq f (codes "k")
    then leaf
    else if strcmp_eq f (codes "main")
    then main
    else if strcmp_eq f (codes "link")
    then include_of (codes "k")
    else include_of f

-- A string is parsed as a mapping that includes the file of that name.
abbrev pub files : Fyaml
files = record {
  Node = Tree;
  Document = Option Tree;
  create = some none;
  build_from_string = λ t n. some (some (mapping (pair (plain include_word) (plain t) end)));
  resolve = λ d. some d;
  root = λ d. d >>= λ t. t;
  set_root = λ d n. some n;
  with_changed_root = λ d n. some n;
  scanf = λ d t. (pos 0, []);
  emit = λ d. none;
  is_scalar = is_scalar_tree;
  is_sequence = is_sequence_tree;
  is_mapping = is_mapping_tree;
  get_tag = tag_of;
  get_scalar = text_of;
  get_scalar_string = c_string_of;
  get_scalar0 = λ n. text_of n >>= c_string;
  by_path = λ n z. find_pair (pairs_of n) z;
  item_count = λ n. pos (length (entry_list (entries_of n)));
  items = λ n. entry_list (entries_of n);
  pairs = λ n. pair_list (pairs_of n);
  lookup_by_string = λ n z. find_pair (pairs_of n) z;
  copy = λ n. some n;
  create_scalar_copy = λ t. some (plain t);
  create_sequence = some (sequence nil);
  create_mapping = some (mapping end);
  sequence_append = append_to;
  mapping_append = put;
  insert = join_maps;
  accessible = λ f. true;
  can_open = λ f. true;
  build_from_file = λ f. some (some (file f));
  build_from_fp = λ b. none;
  malloc_ok = λ n. true;
  curl_init = true;
  curl_blocks = λ u. [];
  curl_ok = λ u. true;
  response_code = λ u. 200;
  tmpfile_ok = true;
  fwrite = λ b. length b;
}

abbrev pub world : World
world = record {
  source = λ f. source_document files f >>= λ d. d;
  lookup = λ t z. find_pair (pairs_of t) z;
  put = put;
  merge = join_maps;
}

pub entry_list-ItemsOf : (ts : Trees) → ItemsOf (λ t. t) (entry_list ts) ts
entry_list-ItemsOf nil = tt
entry_list-ItemsOf (cons t ts) = (refl, entry_list-ItemsOf ts)

pub pair_list-PairsOf : (ps : Pairs) → PairsOf (λ t. t) (pair_list ps) ps
pair_list-PairsOf end = tt
pair_list-PairsOf (pair k v ps) = (refl, refl, pair_list-PairsOf ps)

pub shown_itself : (o : Option Tree) → shown (λ t. t) o ≡ o
shown_itself none = refl
shown_itself (some t) = refl

pub appended :
    (s x : Tree) (ts : Trees) → s ≡ sequence ts → append_to s x ≡ append_to (sequence ts) x
appended s x ts e = ap (λ (t : Tree). append_to t x) e

-- A node is its tree.
abbrev pub view : TreeView files world
view = record {
  tree = λ n. n;
  is_scalar_lem = λ n. refl;
  is_sequence_lem = λ n. refl;
  is_mapping_lem = λ n. refl;
  get_tag_lem = λ n tag text string e. ap tag_of e;
  get_scalar_lem = λ n. refl;
  get_scalar_string_lem = λ n. refl;
  items_lem = λ n. entry_list-ItemsOf (entries_of n);
  pairs_lem = λ n. pair_list-PairsOf (pairs_of n);
  lookup_lem = λ n k. shown_itself (find_pair (pairs_of n) k);
  copy_lem = λ n. refl;
  create_sequence_lem = refl;
  create_mapping_lem = refl;
  sequence_append_lem = λ s x ts e. shown_itself (append_to s x) ∙ appended s x ts e;
  mapping_append_lem = λ m k v. shown_itself (put m k v);
  insert_lem = λ m n. shown_itself (join_maps m n);
  source_lem = λ name. shown_itself (source_document files name >>= λ d. d);
}

abbrev pub laws : DocumentLaws files
laws = record {
  created = (none, refl, refl);
  root_of_set = λ doc n. refl;
  root_of_changed = λ doc n. refl;
}

abbrev pub paths : PathLaws files world view
paths = record {
  path = λ t z. find_pair (pairs_of t) z;
  by_path_lem = λ n z. shown_itself (find_pair (pairs_of n) z);
  get_scalar0_lem = λ n. refl;
}

-- {include: k}
abbrev pub includes_k : Tree
includes_k = mapping (pair (plain include_word) (plain (codes "k")) end)

abbrev pub k-Parses : Parses files (codes "k") 1 includes_k
k-Parses = record { doc = some includes_k; allocated = refl; resolved = refl; rooted = refl }
