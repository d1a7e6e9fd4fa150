-- ===== src/ControlPlane/Callbacks/Table.antt =====
-- src/ut_control_plane.c: registration against a bounded list of entries.
use ut_control.Base.{
  ℕ, zero, suc, ◌≤◌, ◌<◌, ◌≡◌, refl, ap, sym, ◌∙◌, Option, none, some, List, [], ◌∷◌, ◌++◌, ltb,
  leb, if◌then◌else◌, get_elem?, set, take, length, length-set, All, arith, take-set_next, inl, inr,
  append-nil, drop_all, Bool-cases,
}
use ut_control.CString.{Text, IsText}
use ut_control.CString.Buffer.{
  read_string, strncpy, strncpy_bytes, strncpy_inside, length-strncpy_bytes,
  read_string-strncpy_bytes, read_string-strncpy_bytes_long,
}
use ut_control.Kvp.Key.{max_element_size}
use ut_control.ControlPlane.Callbacks.{
  max_callback_entries, CallbackEntry, CpStatus, status_ok, list_full, invalid_handle,
  invalid_param, CallbackTable, add_entry, register_callback_on_message,
}

abbrev IsEntry : CallbackEntry → Type 0
IsEntry e = length e.key ≡ max_element_size

pub record IsTable (t : CallbackTable) : Type 0 where
  pub slots : length t.callback_entry_list ≡ max_callback_entries
  pub bounded : t.callback_entry_index ≤ max_callback_entries
  pub keys : All IsEntry t.callback_entry_list

-- The entries that are registered, in order.
abbrev pub registered : CallbackTable → List CallbackEntry
registered t = take t.callback_entry_index t.callback_entry_list

-- The entry that a registration makes.
abbrev pub entry_of : Text → ℕ → ℕ → CallbackEntry
entry_of key f u = record {
  key = strncpy_bytes max_element_size key;
  p_callback = f;
  user_data = u;
}

get_elem?-All :
    {A : Type 0} (P : A → Type 0) (xs : List A) (n : ℕ)
    → n < length xs
    → All P xs
    → (x : A) × (get_elem? xs n ≡ some x) × P x
get_elem?-All P [] n h all = elim h [ ]
get_elem?-All P (x ∷ xs) zero h all = (x, refl, all.0)
get_elem?-All P (x ∷ xs) (suc n) h all = get_elem?-All P xs n (omega arith) all.1

set-All :
    {A : Type 0} (P : A → Type 0) (xs : List A) (n : ℕ) (v : A)
    → P v
    → All P xs
    → All P (set xs n v)
set-All P [] n v h all = tt
set-All P (x ∷ xs) zero v h all = (h, all.1)
set-All P (x ∷ xs) (suc n) v h all = (all.0, set-All P xs n v h all.1)

-- The entry is appended to a well-formed table; or the table is full, and unchanged.
abbrev pub Registers :
    CallbackTable → Text → ℕ → ℕ → Option (CpStatus × Option CallbackTable) → Type 0
Registers t key f u none = ⊥
Registers t key f u (some (status_ok, some t')) =
    IsTable t' × (registered t' ≡ registered t ++ entry_of key f u ∷ [])
Registers t key f u (some (list_full, some t')) =
    (t' ≡ t) × (t.callback_entry_index ≡ max_callback_entries)
Registers t key f u (some _) = ⊥

add_entry-Registers :
    (t : CallbackTable) (key : Text) (f u : ℕ)
    → IsTable t
    → t.callback_entry_index < max_callback_entries
    → Registers t key f u (add_entry t key f u)
unfolding add_entry
add_entry-Registers t key f u h room =
    let (old, e, sized) =
      get_elem?-All IsEntry t.callback_entry_list t.callback_entry_index (omega (arith, h.slots))
        h.keys in
    let copied : strncpy old.key key max_element_size ≡ some (strncpy_bytes max_element_size key) =
      strncpy_inside old.key key max_element_size (omega (arith, sized))
      ∙ ap some (rw (drop_all max_element_size old.key (omega (arith, sized))) (append-nil _)) in
    rw e (
      rw copied (
        record {
          slots = omega (
            arith,
            h.slots,
            length-set t.callback_entry_list t.callback_entry_index (entry_of key f u),
          );
          bounded = omega (arith, room);
          keys =
              set-All IsEntry t.callback_entry_list t.callback_entry_index (entry_of key f u)
                (length-strncpy_bytes max_element_size key) h.keys;
        },
        take-set_next t.callback_entry_index (entry_of key f u) t.callback_entry_list
            (omega (arith, h.slots)),
      ))

-- On a well-formed table, with all four arguments given, a registration appends its entry where the
-- table has room, and is refused with the table unchanged where it has none. It never leaves the
-- table or a key's array.
pub register-Registers :
    (t : CallbackTable) (key : Text) (f u : ℕ)
    → IsTable t
    → Registers t key f u (register_callback_on_message (some t) (some key) (some f) (some u))
unfolding register_callback_on_message
register-Registers t key f u h =
    elim (Bool-cases (leb max_callback_entries t.callback_entry_index)) [
      | inl full ↦ rw full (refl, ground (arith, h.bounded))
      | inr room ↦ rw room (add_entry-Registers t key f u h (ground arith))
    ]

pub read_string-entry_of :
    (key : Text) (f u : ℕ)
    → IsText key
    → read_string (entry_of key f u).key
      ≡ (if ltb (length key) max_element_size then some key else none)
read_string-entry_of key f u h = elim (Bool-cases (ltb (length key) max_element_size)) [
  | inl short ↦ rw short (
      ap read_string (sym (append-nil (strncpy_bytes max_element_size key)))
      ∙ read_string-strncpy_bytes max_element_size key [] h (ground arith))
  | inr long ↦ rw long (read_string-strncpy_bytes_long max_element_size key h (ground arith))
]

-- The table behind a registration for which it has room.
appended :
    (t : CallbackTable) (key : Text) (f u : ℕ) (r : Option (CpStatus × Option CallbackTable))
    → t.callback_entry_index < max_callback_entries
    → Registers t key f u r
    → (t' : CallbackTable) × (r ≡ some (status_ok, some t'))
      × (registered t' ≡ registered t ++ entry_of key f u ∷ [])
appended t key f u none room h = absurd h
appended t key f u (some (status_ok, none)) room h = absurd h
appended t key f u (some (status_ok, some t')) room h = (t', refl, h.1)
appended t key f u (some (list_full, none)) room h = absurd h
appended t key f u (some (list_full, some t')) room h = absurd (omega (arith, h.1))
appended t key f u (some (invalid_handle, x)) room h = absurd h
appended t key f u (some (invalid_param, x)) room h = absurd h

-- A registration in a well-formed table with room puts an entry behind those that are there, and
-- reading the entry's key as a string gives the key that was registered where that is shorter than
-- its array, and leaves the array where it is not.
pub register-stored_key :
    (t : CallbackTable) (key : Text) (f u : ℕ)
    → IsTable t
    → t.callback_entry_index < max_callback_entries
    → IsText key
    → (t' : CallbackTable) × (e : CallbackEntry) × (register_callback_on_message
          (some t)
          (some key)
          (some f)
          (some u)
        ≡ some (status_ok, some t'))
      × (registered t' ≡ registered t ++ e ∷ [])
      × (read_string e.key ≡ (if ltb (length key) max_element_size then some key else none))
register-stored_key t key f u h room text =
    let (t', ok, entries) = appended t key f u _ room (register-Registers t key f u h) in
    (t', entry_of key f u, ok, entries, read_string-entry_of key f u text)
