-- ===== src/Kvp/Open/Results.antt =====
-- src/ut_kvp.c: what loading leaves in the instance.
use ut_control.Base.{
  ℕ, ◌+◌, ◌≤◌, ◌≡◌, ◌≢◌, ◌⊎◌, refl, true, Option, none, some, List, length, Bool-cases,
  Option-cases, inl, inr,
}
use ut_control.CString.{Text}
use ut_control.CString.Buffer.{read_string}
use ut_control.Kvp.Fyaml.{Fyaml}
use ut_control.Kvp.Instance.{
  success, parsing_error, Instance, kvp_magic, validate_instance-valid, ut_kvp_close_lem,
}
use ut_control.Kvp.Include.{process_node_copy}
use ut_control.Kvp.Include.Termination.{IsFinite, process_node_copy-Settles}
use ut_control.Kvp.Open.{
  out_of_fuel, fault, done, Opened, close_and_fail, join_copy, open_into, open_root, open_resolved,
  open_built, ut_kvp_open, set_copy, merged_document, memory_into, memory_resolved,
  ut_kvp_open_memory,
}

module _ (Y : Fyaml) (p : Instance Y) where
  -- A call on a valid instance never reads through NULL. On success the instance is valid and has a
  -- document; after a parsing error it is valid and `Left`; after any other error it is as before.
  abbrev pub Sound : (Instance Y → Type 0) → Opened Y → Type 0
  Sound Left out_of_fuel = ⊥
  Sound Left fault = ⊥
  Sound Left (done (success, none)) = ⊥
  Sound Left (done (success, some p')) = (p'.magic ≡ kvp_magic) × (p'.fy_handle ≢ none)
  Sound Left (done (parsing_error, none)) = ⊥
  Sound Left (done (parsing_error, some p')) = (p'.magic ≡ kvp_magic) × Left p'
  Sound Left (done (_, none)) = ⊥
  Sound Left (done (_, some p')) = p' ≡ p

  -- With enough fuel the call returns, and it is sound.
  abbrev pub Returns : (Instance Y → Type 0) → (ℕ → Opened Y) → Type 0
  Returns Left call = (enough : ℕ) × ((fuel : ℕ) → enough ≤ fuel → Sound Left (call fuel))

  -- What a parsing error leaves: no document; or, where `strdup` failed, what there was.
  abbrev pub WithoutDocument : Instance Y → Type 0
  WithoutDocument p' = p'.fy_handle ≡ none

  abbrev pub WithoutDocumentOrAsBefore : Instance Y → Type 0
  WithoutDocumentOrAsBefore p' = (p'.fy_handle ≡ none) ⊎ (p' ≡ p)

  module _ (fin : IsFinite Y) (Left : Instance Y → Type 0)
      (closed : (p' : Instance Y) → p'.fy_handle ≡ none → Left p') where
    close_and_fail-Sound : (q : Instance Y) → q.magic ≡ kvp_magic → Sound Left (close_and_fail Y q)
    unfolding close_and_fail
    close_and_fail-Sound q h = rw (ut_kvp_close_lem Y q h) (h, closed _ refl)

    fails : (q : Instance Y) → q.magic ≡ kvp_magic → Returns Left (λ fuel. close_and_fail Y q)
    fails q h = (0, λ fuel b. close_and_fail-Sound q h)

    -- Where a copy ends the call, what holds of the call at both results of the copy.
    copied-Returns :
        (use_copy : Option (Option Y.Node) → Opened Y) (src : Option Y.Node)
        → ((copied : Option Y.Node) → Sound Left (use_copy (some copied)))
        → Returns Left (λ fuel. use_copy (process_node_copy Y fuel true src 0))
    copied-Returns use_copy src h =
        let s = process_node_copy-Settles Y fin src 0 in
        (s.enough, λ fuel b. rw (s.settled fuel b) (h s.result))

    join_copy-Sound :
        (q : Instance Y) (doc : Y.Document) (copied : Option Y.Node)
        → q.magic ≡ kvp_magic
        → Sound Left (join_copy Y q doc (some copied))
    unfolding join_copy
    join_copy-Sound q doc none h = close_and_fail-Sound q h
    join_copy-Sound q doc (some node) h = (h, λ e. cc)

    join_copy-Returns :
        (q : Instance Y) (doc : Y.Document) (src : Option Y.Node)
        → q.magic ≡ kvp_magic
        → Returns Left (λ fuel. join_copy Y q doc (process_node_copy Y fuel true src 0))
    join_copy-Returns q doc src h =
        copied-Returns (join_copy Y q doc) src (λ copied. join_copy-Sound q doc copied h)

    set_copy-Sound :
        (q : Instance Y) (doc : Y.Document) (copied : Option Y.Node)
        → q.magic ≡ kvp_magic
        → Sound Left (set_copy Y q doc (some copied))
    unfolding set_copy
    set_copy-Sound q doc none h = close_and_fail-Sound q h
    set_copy-Sound q doc (some node) h = (h, λ e. cc)

    set_copy-Returns :
        (q : Instance Y) (doc : Y.Document) (src : Option Y.Node)
        → q.magic ≡ kvp_magic
        → Returns Left (λ fuel. set_copy Y q doc (process_node_copy Y fuel true src 0))
    set_copy-Returns q doc src h =
        copied-Returns (set_copy Y q doc) src (λ copied. set_copy-Sound q doc copied h)

    open_into-Returns :
        (q : Instance Y) (root : Y.Node)
        → q.magic ≡ kvp_magic
        → Returns Left (λ fuel. open_into Y fuel q root)
    unfolding open_into
    open_into-Returns q root h = elim (Option-cases q.fy_handle) [
      | inr (doc, e) ↦
          let (n, f) = join_copy-Returns q doc (some root) h in
          (n, λ fuel b. rw (e, open_into) (f fuel b))
      | inl e ↦ elim (Option-cases Y.create) [
        | inr (doc, c) ↦
            let (n, f) = join_copy-Returns (record q { fy_handle = some doc }) doc (some root) h in
            (n, λ fuel b. rw (e, c, open_into) (f fuel b))
        | inl c ↦ let (n, f) = fails q h in (n, λ fuel b. rw (e, c, open_into) (f fuel b))
      ]
    ]

    memory_into-Returns :
        (q : Instance Y) (src : Option Y.Document)
        → q.magic ≡ kvp_magic
        → Returns Left (λ fuel. memory_into Y fuel q src)
    unfolding memory_into
    memory_into-Returns q src h = elim (Option-cases q.fy_handle) [
      | inr (doc, e) ↦
          let doc' = merged_document Y doc (Y.root src) in
          let (n, f) = set_copy-Returns (record q { fy_handle = some doc' }) doc' (Y.root src) h in
          (n, λ fuel b. rw (e, memory_into) (f fuel b))
      | inl e ↦ elim (Option-cases Y.create) [
        | inr (doc, c) ↦
            let (n, f) = set_copy-Returns (record q { fy_handle = some doc }) doc (Y.root src) h in
            (n, λ fuel b. rw (e, c, memory_into) (f fuel b))
        | inl c ↦ let (n, f) = fails q h in (n, λ fuel b. rw (e, c, memory_into) (f fuel b))
      ]
    ]

    module _ (valid : p.magic ≡ kvp_magic) where
      open_root-Returns : (root : Option Y.Node) → Returns Left (λ fuel. open_root Y fuel p root)
      unfolding open_root
      open_root-Returns none = fails p valid
      open_root-Returns (some root) =
          let (n, f) = open_into-Returns p root valid in
          (n, λ fuel b. rw (validate_instance-valid Y p valid, open_root) (f fuel b))

      open_resolved-Returns :
          (doc : Option (Option Y.Document)) → Returns Left (λ fuel. open_resolved Y fuel p doc)
      unfolding open_resolved
      open_resolved-Returns none = fails p valid
      open_resolved-Returns (some doc) = open_root-Returns (Y.root doc)

      open_built-Returns :
          (doc : Option Y.Document) → Returns Left (λ fuel. open_built Y fuel p doc)
      unfolding open_built
      open_built-Returns none = fails p valid
      open_built-Returns (some doc) = open_resolved-Returns (Y.resolve (some doc))

      memory_resolved-Returns :
          (doc : Option (Option Y.Document)) → Returns Left (λ fuel. memory_resolved Y fuel p doc)
      unfolding memory_resolved
      memory_resolved-Returns none = fails p valid
      memory_resolved-Returns (some doc) =
          let (n, f) = memory_into-Returns p doc valid in
          (n, λ fuel b. rw (validate_instance-valid Y p valid, memory_resolved) (f fuel b))

  -- Where documents are finite trees, opening a file into a valid instance returns (with enough
  -- fuel) and never reads through NULL. On success the instance is valid and has a document, after
  -- a parsing error it is valid and has none, and after any other error it is as before.
  pub ut_kvp_open-Returns :
      IsFinite Y
      → p.magic ≡ kvp_magic
      → (file_name : Option Text)
      → Returns WithoutDocument (λ fuel. ut_kvp_open Y fuel (some p) file_name)
  unfolding ut_kvp_open
  ut_kvp_open-Returns fin valid none = (0, λ fuel b. refl)
  ut_kvp_open-Returns fin valid (some file_name) = elim (Bool-cases (Y.accessible file_name)) [
    | inl found ↦
        let (n, f) =
          open_built-Returns fin WithoutDocument (λ p' e. e) valid (Y.build_from_file file_name) in
        (n, λ fuel b. rw found (f fuel b))
    | inr missing ↦ (0, λ fuel b. rw missing refl)
  ]

  -- Where documents are finite trees, loading a C string into a valid instance returns (with enough
  -- fuel) and never reads through NULL. On success the instance is valid and has a document; after
  -- a parsing error it is valid and has none, or is as before; and after any other error it is as
  -- before.
  pub ut_kvp_open_memory-Returns :
      IsFinite Y
      → p.magic ≡ kvp_magic
      → (data' : List ℕ) (s : Text) (size : ℕ) → read_string data' ≡ some s
      → Returns WithoutDocumentOrAsBefore
          (λ fuel. ut_kvp_open_memory Y fuel (some p) (some data') size)
  unfolding ut_kvp_open_memory
  ut_kvp_open_memory-Returns fin valid data' s size string =
      elim (Bool-cases (Y.malloc_ok (length s + 1))) [
        | inl room ↦
            let (n, f) =
              memory_resolved-Returns fin WithoutDocumentOrAsBefore (λ p' e. inl e) valid
                (Y.resolve (Y.build_from_string s size)) in
            (n, λ fuel b. rw string (rw room (f fuel b)))
        | inr full ↦ (0, λ fuel b. rw string (rw full (valid, inr refl)))
      ]
