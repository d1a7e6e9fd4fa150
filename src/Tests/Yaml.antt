-- ===== src/Tests/Yaml.antt =====
-- A small YAML library: documents are nodes of one level, and two files include themselves.
use ut_control.Base.{
  ℕ, ◌-◌, ◌<◌, Bool, true, false, Option, none, some, List, [], ◌∷◌, if◌then◌else◌, length, take,
  map, All, arith,
}
use ut_control.Base.Int.{ℤ, pos}
use ut_control.CString.{Text, strcmp_eq}
use ut_control.Kvp.Fyaml.{Fyaml}
use ut_control.Kvp.Instance.{Instance, kvp_magic}
use ut_control.Kvp.Include.{include_word}
use ut_control.Kvp.Include.Termination.{OnValue, IsFinite}

-- A scalar; a scalar with the tag "!include"; a sequence of such; a mapping of scalars.
pub data Node : Type 0 where
  scalar including : Text → Node
  sequence : List Text → Node
  mapping : List (Text × Text) → Node

abbrev pub text_of : Node → Option Text
text_of (scalar t) = some t
text_of (including t) = some t
text_of _ = none

abbrev pub is_scalar : Node → Bool
is_scalar (scalar t) = true
is_scalar (including t) = true
is_scalar _ = false

abbrev pub is_sequence : Node → Bool
is_sequence (sequence ts) = true
is_sequence _ = false

abbrev pub is_mapping : Node → Bool
is_mapping (mapping es) = true
is_mapping _ = false

abbrev pub tag_of : Node → Option Text
tag_of (including t) = some (b'!' ∷ include_word)
tag_of _ = none

abbrev pub items : Node → List Node
items (sequence ts) = map including ts
items _ = []

abbrev pub to_pair : Text × Text → Option Node × Option Node
to_pair (k, v) = (some (scalar k), some (scalar v))

abbrev pub pairs : Node → List (Option Node × Option Node)
pairs (mapping es) = map to_pair es
pairs _ = []

abbrev pub find_entry : List (Text × Text) → Text → Option Text
find_entry [] k = none
find_entry ((k', v) ∷ es) k = let rest = find_entry es k in if strcmp_eq k' k then some v else rest

abbrev pub find_text : Node → Text → Option Text
find_text (mapping es) k = find_entry es k
find_text _ k = none

abbrev pub append_to : Node → Node → Option Node
append_to (sequence ts) (scalar t) = some (sequence (t ∷ ts))
append_to (sequence ts) (including t) = some (sequence (t ∷ ts))
append_to _ _ = none

abbrev pub put : Node → Node → Node → Option Node
put (mapping es) (scalar k) (scalar v) = some (mapping ((k, v) ∷ es))
put _ _ _ = none

abbrev pub join_maps : Node → Node → Option Node
join_maps (mapping es) (mapping ((k, v) ∷ fs)) = some (mapping ((k, v) ∷ es))
join_maps _ _ = none

-- The only file that is there, "f", includes itself twice.
abbrev pub file_f : Text
file_f = b'f' ∷ []

abbrev pub root_f : Node
root_f = sequence (file_f ∷ file_f ∷ [])

abbrev pub stored_text : Option Text → ℤ × Text
stored_text none = (pos 0, [])
stored_text (some t) = (pos 1, t)

abbrev pub scan_at : Node → Text → ℤ × Text
scan_at doc format = stored_text (find_text doc (take (length format - 3) format))

abbrev pub to_node : Option Text → Option Node
to_node none = none
to_node (some t) = some (scalar t)

-- A string is parsed as the mapping of that string, as a key, to "1".
abbrev pub yaml : Fyaml
yaml = record {
  Node = Node;
  Document = Node;
  create = some (mapping []);
  build_from_string = λ t n. some (mapping ((t, b'1' ∷ []) ∷ []));
  resolve = λ d. some d;
  root = λ d. d;
  set_root = λ d n. n;
  with_changed_root = λ d n. n;
  scanf = scan_at;
  emit = text_of;
  is_scalar = is_scalar;
  is_sequence = is_sequence;
  is_mapping = is_mapping;
  get_tag = tag_of;
  get_scalar = text_of;
  get_scalar_string = text_of;
  get_scalar0 = text_of;
  by_path = λ n path. to_node (find_text n path);
  item_count = λ n. pos (length (items n));
  items = items;
  pairs = pairs;
  lookup_by_string = λ n k. to_node (find_text n k);
  copy = λ n. some n;
  create_scalar_copy = λ t. some (scalar t);
  create_sequence = some (sequence []);
  create_mapping = some (mapping []);
  sequence_append = append_to;
  mapping_append = put;
  insert = join_maps;
  accessible = λ f. strcmp_eq f file_f;
  can_open = λ f. strcmp_eq f file_f;
  build_from_file = λ f. some root_f;
  build_from_fp = λ b. none;
  malloc_ok = λ n. true;
  curl_init = true;
  curl_blocks = λ u. [];
  curl_ok = λ u. true;
  response_code = λ u. 200;
  tmpfile_ok = true;
  fwrite = λ b. length b;
}

abbrev pub height : Node → ℕ
height (sequence ts) = 1
height (mapping es) = 1
height _ = 0

abbrev below_sequence : (ts : List Text) → All (λ x. height x < 1) (map including ts)
below_sequence [] = tt
below_sequence (t ∷ ts) = (omega arith, below_sequence ts)

abbrev below_mapping :
    (es : List (Text × Text)) → All (OnValue (λ x. height x < 1)) (map to_pair es)
below_mapping [] = tt
below_mapping ((k, v) ∷ es) = (omega arith, below_mapping es)

abbrev items_below : (n : Node) → All (λ x. height x < height n) (items n)
items_below (scalar t) = tt
items_below (including t) = tt
items_below (sequence ts) = below_sequence ts
items_below (mapping es) = tt

abbrev values_below : (n : Node) → All (OnValue (λ x. height x < height n)) (pairs n)
values_below (scalar t) = tt
values_below (including t) = tt
values_below (sequence ts) = tt
values_below (mapping es) = below_mapping es

abbrev pub yaml-IsFinite : IsFinite yaml
yaml-IsFinite = record { height = height; items_below = items_below; values_below = values_below }

-- An open instance with this document.
abbrev pub holding : Node → Instance yaml
holding n = record { magic = kvp_magic; fy_handle = some n }

abbrev pub empty_instance : Instance yaml
empty_instance = record { magic = kvp_magic; fy_handle = none }
