-- ===== src/Tests/Loading.antt =====
-- Files and strings that are loaded at concrete inputs.
use ut_control.Base.{◌≡◌, ◌↔◌, refl, true, none, some, [], ◌∷◌, arith, replicate}
use ut_control.CString.{Text, strchr_found}
use ut_control.CString.Buffer.{read_string}
use ut_control.Kvp.Key.{convert_dot_to_slash, convert_dot_to_slash_fault}
use ut_control.Kvp.Instance.{Instance}
use ut_control.Kvp.Include.{process_node_copy, has_include_tag}
use ut_control.Kvp.Include.Settles.{Settles}
use ut_control.Kvp.Include.Termination.{process_node_copy-Settles}
use ut_control.Kvp.Include.Tag.{has_include_tag-IsPrefix, IsIncludeTag}
use ut_control.Kvp.Open.{ut_kvp_open, ut_kvp_open_memory}
use ut_control.Kvp.Open.Results.{
  Returns, WithoutDocument, WithoutDocumentOrAsBefore, ut_kvp_open-Returns,
  ut_kvp_open_memory-Returns,
}
use ut_control.Kvp.Open.Roots.{Unchecked, ut_kvp_open-Unchecked}
use ut_control.Tests.Yaml.{including, yaml, yaml-IsFinite, root_f, file_f, empty_instance}

-- The file that includes itself twice.
process_node_copy-Settles_example :
    Settles (λ fuel. process_node_copy yaml fuel true (some root_f) 0)
process_node_copy-Settles_example = process_node_copy-Settles yaml yaml-IsFinite (some root_f) 0

ut_kvp_open-Returns_example :
    Returns yaml empty_instance
      (WithoutDocument yaml empty_instance)
      (λ fuel. ut_kvp_open yaml fuel (some empty_instance) (some file_f))
ut_kvp_open-Returns_example =
    ut_kvp_open-Returns yaml empty_instance yaml-IsFinite refl (some file_f)

ut_kvp_open_memory-Returns_example :
    Returns yaml empty_instance
      (WithoutDocumentOrAsBefore yaml empty_instance)
      (λ fuel. ut_kvp_open_memory yaml fuel (some empty_instance) (some (b'k' ∷ 0 ∷ [])) 1)
unfolding read_string
ut_kvp_open_memory-Returns_example =
    ut_kvp_open_memory-Returns yaml empty_instance yaml-IsFinite refl (b'k' ∷ 0 ∷ []) (b'k' ∷ []) 1
      refl

abbrev freed : Instance yaml
freed = record { magic = 0; fy_handle = none }

ut_kvp_open-Unchecked_example :
    Unchecked yaml freed file_f (ut_kvp_open yaml 3 (some freed) (some file_f))
ut_kvp_open-Unchecked_example = ut_kvp_open-Unchecked yaml freed file_f (λ e. cc) 3

has_include_tag-IsPrefix_example :
    (has_include_tag yaml (including file_f) ≡ true) ↔ IsIncludeTag yaml (including file_f)
has_include_tag-IsPrefix_example = has_include_tag-IsPrefix yaml (including file_f)

abbrev long_key : Text
long_key = b'.' ∷ replicate 255 b'a'

convert_dot_to_slash_fault_example : convert_dot_to_slash long_key (replicate 256 0) ≡ none
unfolding strchr_found
convert_dot_to_slash_fault_example =
    convert_dot_to_slash_fault long_key (replicate 256 0) refl (omega arith) refl
