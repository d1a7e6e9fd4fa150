-- ===== src/ControlPlane/Callbacks.antt =====
-- src/ut_control_plane.c: the table of callbacks, and the calls that a message makes.
pub mod Table
pub mod Dispatch
pub mod Trees
use ut_control.Base.{
  ℕ, zero, suc, ◌+◌, Bool, true, false, Option, none, some, List, [], ◌∷◌, ltb, leb, ◌==◌,
  if◌then◌else◌, ◌>>=◌, get_elem?, set, take,
}
use ut_control.CString.{Text}
use ut_control.CString.Buffer.{read_string, strncpy}
use ut_control.Kvp.Key.{max_element_size}
use ut_control.Kvp.Fyaml.{Fyaml}
use ut_control.Kvp.Instance.{Instance, Status, success, ut_kvp_create_instance}
use ut_control.Kvp.Nodes.{ut_kvp_field_present}
use ut_control.Kvp.Open.{Outcome, out_of_fuel, fault, done, Opened, ut_kvp_open_memory}
use ut_control.ControlPlane.Queue.{CpMessage}

-- UT_CONTROL_PLANE_MAX_CALLBACK_ENTRIES
abbrev pub max_callback_entries : ℕ
max_callback_entries = 32

-- CallbackEntry_t: the bytes of `key`; a function and a user's pointer are numbers that name them.
pub record CallbackEntry : Type 0 where
  pub key : List ℕ
  pub p_callback : ℕ
  pub user_data : ℕ

-- ut_control_plane_status_t
pub data CpStatus : Type 0 where
  status_ok list_full invalid_handle invalid_param : CpStatus

pub record CallbackTable : Type 0 where
  pub callback_entry_list : List CallbackEntry
  pub callback_entry_index : ℕ

-- The entry at the index is written field by field; `none` is an access outside the table or its
-- key array.
add_entry : CallbackTable → Text → ℕ → ℕ → Option (CpStatus × Option CallbackTable)
add_entry t key callback user_data = do
  old ← get_elem? t.callback_entry_list t.callback_entry_index
  bytes ← strncpy old.key key max_element_size
  some (
    status_ok,
    some (record {
      callback_entry_list =
          set t.callback_entry_list t.callback_entry_index
            (record { key = bytes; p_callback = callback; user_data = user_data });
      callback_entry_index = t.callback_entry_index + 1;
    }),
  )

-- The handle, the key, the function and the user's pointer are `none` where they are NULL. The magic
-- number is not looked at.
unfoldable pub register_callback_on_message :
    Option CallbackTable
    → Option Text
    → Option ℕ
    → Option ℕ
    → Option (CpStatus × Option CallbackTable)
unfolding add_entry
register_callback_on_message none key callback user_data = some (invalid_handle, none)
register_callback_on_message (some t) none callback user_data = some (invalid_param, some t)
register_callback_on_message (some t) (some k) none user_data = some (invalid_param, some t)
register_callback_on_message (some t) (some k) (some f) none = some (invalid_param, some t)
register_callback_on_message (some t) (some k) (some f) (some u) =
    if leb max_callback_entries t.callback_entry_index
    then some (list_full, some t)
    else add_entry t k f u

-- A call of a registered function, with the key that it gets and the user's pointer.
pub record Call : Type 0 where
  pub key : Text
  pub p_callback : ℕ
  pub user_data : ℕ

module _ (Y : Fyaml) (invoke : ℕ → Text → Instance Y → ℕ → Instance Y) where
  -- The functions are the client's: `invoke` says what a call leaves behind the KVP handle.
  call_entry :
      (Instance Y → Option (List Call))
      → CallbackEntry
      → Instance Y
      → Text
      → Bool
      → Option (List Call)
  call_entry later entry p key false = later p
  call_entry later entry p key true =
      later (invoke entry.p_callback key p entry.user_data) >>= λ calls.
      some
        (record { key = key; p_callback = entry.p_callback; user_data = entry.user_data } ∷ calls)

  -- The loop over the entries; `none` is a read past a key that has no NUL.
  unfoldable pub call_matching : List CallbackEntry → Instance Y → Option (List Call)
  unfolding call_entry
  call_matching [] p = some []
  call_matching (entry ∷ entries) p = do
    key ← read_string entry.key
    present ← ut_kvp_field_present Y (some p) (some key)
    call_entry (call_matching entries) entry p key present

  to_outcome : Option (List Call) → Outcome (List Call)
  to_outcome none = fault
  to_outcome (some calls) = done calls

  -- A message that does not parse makes no calls.
  pub call_opened : List CallbackEntry → Opened Y → Outcome (List Call)
  unfolding to_outcome
  call_opened entries out_of_fuel = out_of_fuel
  call_opened entries fault = fault
  call_opened entries (done (success, some p)) = to_outcome (call_matching entries p)
  call_opened entries (done _) = done []

  -- `malloc_ok`: whether an instance can be allocated.
  unfoldable pub call_callback_on_match :
      ℕ → (malloc_ok : Bool) → CpMessage → CallbackTable → Outcome (List Call)
  unfolding call_opened
  call_callback_on_match fuel malloc_ok m t = elim (m.message) [
    | none ↦ done []
    | some bytes ↦
        call_opened (take t.callback_entry_index t.callback_entry_list)
          (ut_kvp_open_memory Y fuel (ut_kvp_create_instance Y malloc_ok) (some bytes) m.size)
  ]
