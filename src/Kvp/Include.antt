-- ===== src/Kvp/Include.antt =====
-- src/ut_kvp.c: `process_node_copy`, `process_include` and `merge_nodes`, which copy a document
-- and put in the files and downloads that it includes.
pub mod Settles
pub mod Termination
pub mod Tag
pub mod View
pub mod Plain
pub mod Source
pub mod Tree
pub mod Expand
use ut_control.Base.{
  ℕ, zero, suc, ◌+◌, ◌≤◌, ◌<◌, ◌≡◌, refl, Option-cases, inl, inr, Bool, true, false, ◌&&◌, ◌||◌,
  Option, not, none, some, List, [], ◌∷◌, ◌++◌, leb, ◌==◌, if◌then◌else◌, ◌>>=◌, length, take,
}
use ut_control.CString.{Text, strncmp_eq}
use ut_control.Kvp.Pattern.{find_pattern_from_buffer}
use ut_control.Kvp.Download.{DownloadMemory, transfer}
use ut_control.Kvp.Fyaml.{Fyaml}

-- UT_KVP_MAX_INCLUDE_DEPTH
abbrev pub max_include_depth : ℕ
max_include_depth = 5

abbrev pub include_word : Text
include_word = b'i' ∷ b'n' ∷ b'c' ∷ b'l' ∷ b'u' ∷ b'd' ∷ b'e' ∷ []

abbrev pub http_scheme : Text
http_scheme = b'h' ∷ b't' ∷ b't' ∷ b'p' ∷ b':' ∷ []

abbrev pub https_scheme : Text
https_scheme = b'h' ∷ b't' ∷ b't' ∷ b'p' ∷ b's' ∷ b':' ∷ []

abbrev pub is_some : {A : Type 0} → Option A → Bool
is_some none = false
is_some (some a) = true

module _ (Y : Fyaml) where
  abbrev Node : Type 0
  Node = Y.Node

  -- The main node after the call, which changes it in place. For a scalar the new node is assigned
  -- to the parameter alone, so nothing changes.
  unfoldable pub merge_nodes : Option Node → Option Node → Option Node
  merge_nodes none include_node = none
  merge_nodes (some main) none = some main
  merge_nodes (some main) (some include_node) =
      if Y.is_scalar main
      then some main
      else if Y.is_mapping main && Y.is_mapping include_node
      then some (elim (Y.insert main include_node) [ none ↦ main | some merged ↦ merged ])
      else some main

  -- The document that a URL downloads to.
  pub fetched : DownloadMemory → Option Y.Document
  fetched m = elim (m.memory) [
    | none ↦ none
    | some bytes ↦
        if Y.tmpfile_ok && (Y.fwrite (take m.size bytes) == m.size)
        then Y.build_from_fp (take m.size bytes)
        else none
  ]

  pub download : Text → Option Y.Document
  unfolding fetched
  download url =
      if Y.malloc_ok 1 && Y.curl_init
      then elim (transfer Y.malloc_ok (Y.curl_blocks url)
          (record { memory = some (0 ∷ []); size = 0 })) [
            | none ↦ none
            | some m ↦ if Y.curl_ok url && (Y.response_code url == 200) then fetched m else none
          ]
      else none

  unfoldable pub is_url : Text → Bool
  is_url filename = strncmp_eq filename http_scheme 5 || strncmp_eq filename https_scheme 6

  -- The source document of an include.
  unfoldable pub source_document : Text → Option Y.Document
  unfolding download is_url
  source_document filename =
      if is_url filename
      then download filename
      else if Y.can_open filename
      then Y.build_from_file filename
      else none

  -- Sequences: an entry that is a mapping with a scalar under "include" is replaced.
  unfoldable pub include_of_entry : Y.Node → Option Text
  include_of_entry entry =
      if Y.is_mapping entry
      then elim (Y.lookup_by_string entry include_word) [
        | none ↦ none
        | some incl ↦ if Y.is_scalar incl then Y.get_scalar_string incl else none
      ]
      else none

  append_entry : Y.Node → Option Y.Node → Y.Node
  append_entry seq none = seq
  append_entry seq (some entry) = elim (Y.sequence_append seq entry) [ none ↦ seq | some s ↦ s ]

  -- Mappings: a pair whose key contains "include" is replaced by the included mapping's pairs.
  unfoldable pub is_include_pair : Y.Node → Y.Node → Bool
  is_include_pair key val = elim (Y.get_scalar key) [
    | none ↦ false
    | some key_str ↦
        is_some (Y.get_scalar val) && is_some (find_pattern_from_buffer key_str include_word)
  ]

  pub append_pair : Y.Node → Option Y.Node → Option Y.Node → Y.Node
  append_pair map (some key) (some val) = elim (Y.mapping_append map key val) [
    | none ↦ map
    | some m ↦ m
  ]
  append_pair map _ _ = map

  pub merged_map : Y.Node → Y.Node → Y.Node
  merged_map map included = elim (merge_nodes (some map) (some included)) [
    | none ↦ map
    | some m ↦ m
  ]

  -- The tag of a scalar is compared over its own length only.
  unfoldable pub has_include_tag : Y.Node → Bool
  has_include_tag node = elim (Y.get_tag node) [
    | none ↦ false
    | some tag ↦ strncmp_eq tag (b'!' ∷ include_word) (length tag) && Y.is_scalar node
  ]

-- The functions below call `process_node_copy` again; they take it as a parameter, without its
-- `dstDoc`. In each result the outer `none` says that the fuel ran out, the inner one is NULL.
abbrev Copy : Fyaml → Type 0
Copy Y = Option Y.Node → ℕ → Option (Option Y.Node)

module _ (Y : Fyaml) (copy : Copy Y) where
  copy_document : Option Y.Document → ℕ → Option (Option Y.Node)
  copy_document none depth = some none
  copy_document (some doc) depth = copy (Y.root (some doc)) (depth + 1)

  unfoldable pub process_include : Text → ℕ → Option (Option Y.Node)
  unfolding copy_document
  process_include filename depth =
      if leb max_include_depth depth
      then some none
      else copy_document (source_document Y filename) depth

  -- The included root, which has been processed once, is processed again.
  process_again : Option Y.Node → ℕ → Option (Option Y.Node)
  process_again none depth = some none
  process_again (some included) depth = copy (some included) (depth + 1)

  pub include_and_process : Option Text → ℕ → Option (Option Y.Node)
  unfolding process_again
  include_and_process none depth = some none
  include_and_process (some filepath) depth =
      process_include filepath depth >>= λ included. process_again included depth

  or_copy : Option Y.Node → Y.Node → ℕ → Option (Option Y.Node)
  or_copy none entry depth = copy (some entry) depth
  or_copy (some copied) entry depth = some (some copied)

  copy_entry : Y.Node → ℕ → Option (Option Y.Node)
  unfolding include_and_process include_of_entry or_copy
  copy_entry entry depth =
      include_and_process (include_of_entry Y entry) depth >>= λ copied. or_copy copied entry depth

  copy_entries : List Y.Node → ℕ → Y.Node → Option Y.Node
  unfolding copy_entry append_entry
  copy_entries [] depth seq = some seq
  copy_entries (entry ∷ entries) depth seq =
      copy_entry entry depth >>= λ copied. copy_entries entries depth (append_entry Y seq copied)

  include_of_pair : Y.Node → Y.Node → ℕ → Option (Option Y.Node)
  unfolding is_include_pair
  include_of_pair key val depth =
      if is_include_pair Y key val
      then elim (Y.get_scalar_string val) [
        | none ↦ some none
        | some filepath ↦ process_include filepath depth
      ]
      else some none

  merge_or_copy : Option Y.Node → Y.Node → Y.Node → ℕ → Y.Node → Option Y.Node
  unfolding append_pair merged_map
  merge_or_copy (some included) key val depth map = some (merged_map Y map included)
  merge_or_copy none key val depth map =
      copy (some val) depth >>= λ copied_val. some (append_pair Y map (Y.copy key) copied_val)

  copy_pair : Option Y.Node → Option Y.Node → ℕ → Y.Node → Option Y.Node
  unfolding include_of_pair merge_or_copy
  copy_pair (some key) (some val) depth map =
      include_of_pair key val depth >>= λ included. merge_or_copy included key val depth map
  copy_pair _ _ depth map = some map

  copy_pairs : List (Option Y.Node × Option Y.Node) → ℕ → Y.Node → Option Y.Node
  unfolding copy_pair
  copy_pairs [] depth map = some map
  copy_pairs ((key, val) ∷ pairs) depth map =
      copy_pair key val depth map >>= λ map'. copy_pairs pairs depth map'

  pub new_sequence : Option Y.Node → Y.Node → ℕ → Option (Option Y.Node)
  unfolding copy_entries
  new_sequence none node depth = some none
  new_sequence (some seq) node depth = copy_entries (Y.items node) depth seq >>= λ s. some (some s)

  pub new_mapping : Option Y.Node → Y.Node → ℕ → Option (Option Y.Node)
  unfolding copy_pairs
  new_mapping none node depth = some none
  new_mapping (some map) node depth = copy_pairs (Y.pairs node) depth map >>= λ m. some (some m)

  pub copy_node : Y.Node → ℕ → Option (Option Y.Node)
  unfolding include_and_process has_include_tag new_sequence new_mapping
  copy_node node depth =
      if has_include_tag Y node
      then include_and_process (Y.get_scalar_string node) depth
      else if Y.is_scalar node
      then some (Y.copy node)
      else if Y.is_sequence node
      then new_sequence Y.create_sequence node depth
      else if Y.is_mapping node
      then new_mapping Y.create_mapping node depth
      else some none

-- `has_dst`: whether `dstDoc` is not NULL.
unfoldable pub process_node_copy :
    (Y : Fyaml) (fuel : ℕ) (has_dst : Bool) → Option Y.Node → ℕ → Option (Option Y.Node)
unfolding copy_node
process_node_copy Y zero has_dst src depth = none
process_node_copy Y (suc fuel) has_dst none depth = some none
process_node_copy Y (suc fuel) false (some src) depth = some none
process_node_copy Y (suc fuel) true (some src) depth =
    if leb max_include_depth depth
    then some none
    else copy_node Y (process_node_copy Y fuel true) src depth
