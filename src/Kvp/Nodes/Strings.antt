-- ===== src/Kvp/Nodes/Strings.antt =====
-- src/ut_kvp.c: what ut_kvp_getStringField leaves in the caller's array, and how it agrees with
-- ut_kvp_fieldPresent.
use ut_control.Base.{
  ℕ, ◌<◌, ◌≡◌, true, Option, if◌then◌else◌, ltb, ltb→lt, Bool-cases, inl, inr, none, some, List, [],
  ◌++◌, map, arith, length, drop, set, length-set, drop_all, append-nil,
}
use ut_control.CString.{Text, IsText}
use ut_control.CString.Buffer.{
  read_string, strncpy_inside, strncpy_bytes, read_string-strncpy_bytes,
  read_string-strncpy_bytes_long,
}
use ut_control.Kvp.Key.{max_element_size, dot_to_slash, zkey_lem, write_inside}
use ut_control.Kvp.Fyaml.{Fyaml}
use ut_control.Kvp.Instance.{success, Instance, kvp_magic, validate_instance-valid}
use ut_control.Kvp.Nodes.{found, locate, ut_kvp_field_present, ut_kvp_get_string_field}

-- A document is open in a valid instance, the key fits its array, and the key's path leads to
-- `node`.
pub record Leads (Y : Fyaml) (p : Instance Y) (k : Text) (node : Y.Node) : Type 0 where
  pub doc : Y.Document
  pub top : Y.Node
  pub valid : p.magic ≡ kvp_magic
  pub opened : p.fy_handle ≡ some doc
  pub key_text : IsText k
  pub key_fits : length k < max_element_size
  pub rooted : Y.root (some doc) ≡ some top
  pub path : Y.by_path top (map dot_to_slash k) ≡ some node

module _ {Y : Fyaml} {p : Instance Y} {k : Text} {node : Y.Node} (h : Leads Y p k node) where
  pub locate-Leads : locate Y p k ≡ some (found node)
  unfolding locate
  locate-Leads =
      rw (h.opened, locate)
        (rw (h.rooted, locate) (rw (zkey_lem k h.key_text h.key_fits, locate) (rw h.path)))

  pub present-Leads : ut_kvp_field_present Y (some p) (some k) ≡ some true
  unfolding ut_kvp_field_present
  present-Leads = rw (validate_instance-valid Y p h.valid, ut_kvp_field_present) (rw locate-Leads)

  module _ (s : Text) (buffer : List ℕ) (size : ℕ) (scalar : Y.is_scalar node ≡ true)
      (content : Y.get_scalar0 node ≡ some s) (text : IsText s) (exact : length buffer ≡ size)
      (some_room : 0 < size) where
    string_copied :
        ut_kvp_get_string_field Y (some p) (some k) (some buffer) size
        ≡ some (success, strncpy_bytes size s ++ drop size (set buffer 0 0))
    unfolding ut_kvp_get_string_field
    string_copied =
        rw (validate_instance-valid Y p h.valid, ut_kvp_get_string_field)
          (rw (write_inside 0 0 buffer (omega arith), locate-Leads)
            (rw (scalar, content)
              (rw (strncpy_inside (set buffer 0 0) s size (omega (arith, length-set buffer 0 0))))))

    -- A string at the key's path is copied, with success, into a caller's array of `size` bytes: one
    -- that is shorter arrives whole, with its NUL; any other fills the array and leaves no NUL in it.
    pub string_field :
        (b : List ℕ) × (ut_kvp_get_string_field Y (some p) (some k) (some buffer) size
          ≡ some (success, b))
        × (read_string b ≡ (if ltb (length s) size then some s else none))
    string_field = (
      strncpy_bytes size s ++ drop size (set buffer 0 0),
      string_copied,
      rw (drop_all size (set buffer 0 0) (omega (arith, length-set buffer 0 0)), append-nil)
          (elim (Bool-cases (ltb (length s) size)) [
            | inl short ↦
                rw short rw append-nil at
                  (read_string-strncpy_bytes size s [] text (ltb→lt (length s) size short))
            | inr long ↦ rw long (read_string-strncpy_bytes_long size s text (ground arith))
          ]),
    )

-- Where ut_kvp_getStringField succeeds, ut_kvp_fieldPresent answers true for the same key.
present_of_string :
    {Y : Fyaml} (handle : Option (Instance Y)) (key : Option Text) (returned : Option (List ℕ))
    (size : ℕ) {b : List ℕ}
    → ut_kvp_get_string_field Y handle key returned size ≡ some (success, b)
    → ut_kvp_field_present Y handle key ≡ some true
unfolding ut_kvp_get_string_field ut_kvp_field_present
present_of_string {Y} handle key returned size e = ground arith
