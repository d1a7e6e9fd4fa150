-- ===== src/Kvp/Fyaml.antt =====
-- What src/ut_kvp.c calls of libfyaml, of the file system and of libcurl: parameters of the model,
-- none of which is defined here. A node or a document is passed as a value, so a call that changes
-- one in place returns the changed value. An allocation fails as the result `none`.
use ut_control.Base.{ℕ, Bool, Option, List}
use ut_control.Base.Int.{ℤ}
use ut_control.CString.{Text}

pub record Fyaml : Type 1 where
  pub Node : Type 0
  pub Document : Type 0
  -- fy_document_create(NULL)
  pub create : Option Document
  -- fy_document_build_from_malloc_string(NULL, cData, length)
  pub build_from_string : Text → ℕ → Option Document
  -- fy_document_resolve: on 0, the document with its aliases and merge keys resolved
  pub resolve : Option Document → Option (Option Document)
  -- fy_document_root
  pub root : Option Document → Option Node
  -- fy_document_set_root, whose status the code ignores
  pub set_root : Document → Node → Document
  -- The document whose root node has been changed in place.
  pub with_changed_root : Document → Node → Document
  -- fy_document_scanf(fyd, format, ptr): its result, and the string that it stores
  pub scanf : Document → Text → ℤ × Text
  -- fy_emit_document_to_string(fyd, FYECF_DEFAULT)
  pub emit : Document → Option Text
  pub is_scalar : Node → Bool
  pub is_sequence : Node → Bool
  pub is_mapping : Node → Bool
  -- fy_node_get_tag: the `tag_len` bytes of the tag
  pub get_tag : Node → Option Text
  -- fy_node_get_scalar: the bytes of the scalar, and the C string that begins where it points
  pub get_scalar : Node → Option Text
  pub get_scalar_string : Node → Option Text
  -- fy_node_get_scalar0
  pub get_scalar0 : Node → Option Text
  -- fy_node_by_path(root, path, -1, FYNWF_DONT_FOLLOW)
  pub by_path : Node → Text → Option Node
  -- fy_node_sequence_item_count
  pub item_count : Node → ℤ
  -- What fy_node_sequence_iterate and fy_node_mapping_iterate return before NULL; a pair is seen
  -- through fy_node_pair_key and fy_node_pair_value.
  pub items : Node → List Node
  pub pairs : Node → List (Option Node × Option Node)
  -- fy_node_mapping_lookup_by_string
  pub lookup_by_string : Node → Text → Option Node
  -- fy_node_copy, fy_node_create_scalar_copy, fy_node_create_sequence, fy_node_create_mapping
  pub copy : Node → Option Node
  pub create_scalar_copy : Text → Option Node
  pub create_sequence : Option Node
  pub create_mapping : Option Node
  -- fy_node_sequence_append, fy_node_mapping_append, fy_node_insert: `none` where not 0 is returned
  pub sequence_append : Node → Node → Option Node
  pub mapping_append : Node → Node → Node → Option Node
  pub insert : Node → Node → Option Node
  -- access(fileName, F_OK) == 0, and fopen(filename, "r") != NULL
  pub accessible : Text → Bool
  pub can_open : Text → Bool
  -- fy_document_build_from_file(NULL, filename)
  pub build_from_file : Text → Option Document
  -- fy_document_build_from_fp(NULL, tmp), for a file with these bytes
  pub build_from_fp : List ℕ → Option Document
  -- malloc and realloc find room for a block of this size
  pub malloc_ok : ℕ → Bool
  -- curl_easy_init() != NULL, and for a URL: the blocks that curl_easy_perform hands to the write
  -- callback, whether the transfer ends in CURLE_OK where the callback takes every block, and the
  -- response code
  pub curl_init : Bool
  pub curl_blocks : Text → List (List ℕ)
  pub curl_ok : Text → Bool
  pub response_code : Text → ℕ
  -- tmpfile() != NULL, and the number of bytes that fwrite writes to it
  pub tmpfile_ok : Bool
  pub fwrite : List ℕ → ℕ
