-- ===== src/Kvp/Nodes/Counts.antt =====
-- src/ut_kvp.c: ut_kvp_getListCount against what libfyaml counts.
use ut_control.Base.{ℕ, ◌≡◌, ◌≤◌, some, arith, if◌then◌else◌}
use ut_control.Base.Int.{ℤ, pos, negsuc, int_max}
use ut_control.CString.{Text}
use ut_control.Kvp.Fyaml.{Fyaml}
use ut_control.Kvp.Instance.{Instance, validate_instance-valid}
use ut_control.Kvp.Nodes.{ut_kvp_get_list_count, count_of, found}
use ut_control.Kvp.Nodes.Strings.{Leads, locate-Leads}

-- What fy_node_sequence_item_count is documented to return: a number of items, as an `int`, or -1.
abbrev pub IsCount : ℤ → Type 0
IsCount (pos n) = n ≤ int_max
IsCount (negsuc n) = n ≡ 0

-- The number of items, and 0 for an error.
abbrev pub items_counted : ℤ → ℕ
items_counted (pos n) = n
items_counted (negsuc n) = 0

count_of_found :
    (Y : Fyaml) (node : Y.Node) (c : ℤ)
    → Y.item_count node ≡ c
    → IsCount c
    → count_of Y (found node) ≡ (if Y.is_sequence node then items_counted c else 0)
unfolding count_of
count_of_found Y node (pos n) counted few = rw counted (ground arith)
count_of_found Y node (negsuc n) counted error = rw (counted, error) (ground arith)

-- At a node to which the key's path leads, the count is what libfyaml counts in a sequence, an `int`
-- that is not negative; it is 0 where libfyaml returns -1, its error, and 0 where the node is no
-- sequence.
pub list_count :
    {Y : Fyaml} {p : Instance Y} {k : Text} {node : Y.Node} (c : ℤ)
    → Leads Y p k node
    → Y.item_count node ≡ c
    → IsCount c
    → ut_kvp_get_list_count Y (some p) (some k)
      ≡ some (if Y.is_sequence node then items_counted c else 0)
unfolding ut_kvp_get_list_count
list_count {Y} {p} {node} c h counted range =
    rw (validate_instance-valid Y p h.valid, ut_kvp_get_list_count)
      (rw (locate-Leads h) (rw (count_of_found Y node c counted range)))
