-- ===== src/Kvp/Bytes/Collect.antt =====
-- src/ut_kvp.c: the loop of ut_kvp_getDataBytes against a plain list of values.
use ut_control.Base.{
  ◌⊎◌, ℕ, ◌+◌, ◌*◌, ◌≤◌, ◌<◌, ◌≡◌, refl, ap, sym, ◌∙◌, Bool, false, Option, none, some, List, [],
  ◌∷◌, ◌++◌, leb, ◌>>=◌, length, replicate, arith, take, set, append-nil, append_assoc,
  length-append, length-replicate, length-set, take-set_next, Bool-cases, Option-cases, inl, inr,
  take_prefix, lt→ltb,
}
use ut_control.Base.Int.{int_max}
use ut_control.CString.{Text}
use ut_control.Kvp.Key.{write_inside}
use ut_control.Kvp.Bytes.{Output, token_byte, expand, store, store_and_go, collect}

-- Every token's value, or `none` where a token is no byte.
unfoldable pub token_bytes : List Text → Option (List ℕ)
token_bytes [] = some []
token_bytes (t ∷ ts) = elim (token_byte t) [
  | none ↦ none
  | some v ↦ token_bytes ts >>= λ vs. some (v ∷ vs)
]

-- The count stays inside the block, and the block is never empty.
pub record IsOutput (o : Output) : Type 0 where
  pub inside : o.byte_count ≤ length o.output_bytes
  pub nonempty : 0 < length o.output_bytes

abbrev pub written : Output → List ℕ
written o = take o.byte_count o.output_bytes

module _ (malloc_ok : ℕ → Bool) where
  -- The block is expanded where it is full, and keeps what was written; or there is no memory.
  abbrev Expanded : Output → Option Output → Type 0
  Expanded o none = (n : ℕ) × (malloc_ok n ≡ false)
  Expanded o (some w) =
      (w.byte_count < length w.output_bytes)
      × (w.byte_count ≡ o.byte_count)
      × (written w ≡ written o)

  expand-Expanded : (o : Output) → IsOutput o → Expanded o (expand malloc_ok o)
  unfolding expand
  expand-Expanded o h = elim (Bool-cases (leb (length o.output_bytes) o.byte_count)) [
    | inl full ↦ elim (Bool-cases (malloc_ok (length o.output_bytes * 2))) [
      | inl found ↦
          rw (full, found)
            (
              ground (
                arith,
                h.nonempty,
                length-append o.output_bytes (replicate (length o.output_bytes) 0),
                length-replicate {A = ℕ} (length o.output_bytes) 0,
              ),
              refl,
              take_prefix o.byte_count o.output_bytes (replicate (length o.output_bytes) 0)
                  h.inside,
            )
      | inr missing ↦ rw (full, missing) (length o.output_bytes * 2, missing)
    ]
    | inr room ↦ rw room (ground arith, refl, refl)
  ]

  -- One round: the byte is stored behind those that were written, inside the block.
  store_lem :
      (w : Output) (v : ℕ)
      → w.byte_count < length w.output_bytes
      → w.byte_count < int_max
      → (o : Output) × (store malloc_ok w v ≡ some o)
        × IsOutput o
        × (o.byte_count ≡ w.byte_count + 1)
        × (written o ≡ written w ++ v ∷ [])
  unfolding store
  store_lem w v h counts = (
    record { output_bytes = set w.output_bytes w.byte_count v; byte_count = w.byte_count + 1 },
    rw (lt→ltb w.byte_count int_max counts) (rw (write_inside w.byte_count v w.output_bytes h)),
    record {
      inside = omega (arith, length-set w.output_bytes w.byte_count v);
      nonempty = omega (arith, length-set w.output_bytes w.byte_count v);
    },
    refl,
    take-set_next w.byte_count v w.output_bytes h,
  )

  -- What the loop comes to: it never leaves the block; NULL means that a token is no byte or that
  -- memory ran out; otherwise every token's value follows what was written, in order.
  abbrev pub Collected : List Text → Output → Option (Option Output) → Type 0
  Collected ts o none = ⊥
  Collected ts o (some none) = (token_bytes ts ≡ none) ⊎ ((n : ℕ) × (malloc_ok n ≡ false))
  Collected ts o (some (some o')) =
      IsOutput o' × (vs : List ℕ) × (token_bytes ts ≡ some vs) × (written o' ≡ written o ++ vs)

  Collected-cons :
      (t : Text) (ts : List Text) (o o' : Output) (v : ℕ) (r : Option (Option Output))
      → token_byte t ≡ some v
      → written o' ≡ written o ++ v ∷ []
      → Collected ts o' r
      → Collected (t ∷ ts) o r
  unfolding token_bytes
  Collected-cons t ts o o' v none e w h = h
  Collected-cons t ts o o' v (some none) e w (inl bad) = inl (rw (e, token_bytes) (rw bad))
  Collected-cons t ts o o' v (some none) e w (inr full) = inr full
  Collected-cons t ts o o' v (some (some out)) e w (valid, vs, all, last) = (
    valid,
    v ∷ vs,
    rw (e, token_bytes) (rw all),
    last ∙ ap (λ (x : List ℕ). x ++ vs) w ∙ append_assoc (written o) (v ∷ []) vs,
  )

  store_and_go-Collected :
      (t : Text) (ts : List Text) (o : Output) (v : ℕ)
      → token_byte t ≡ some v
      → (w : Option Output) → Expanded o w
      → o.byte_count < int_max
      → ((o' : Output)
          → IsOutput o'
          → o'.byte_count ≡ o.byte_count + 1
          → Collected ts o' (collect malloc_ok ts o'))
      → Collected (t ∷ ts) o (store_and_go malloc_ok (collect malloc_ok ts) v w)
  unfolding store_and_go
  store_and_go-Collected t ts o v e none full counts later = inr full
  store_and_go-Collected t ts o v e (some w) (room, still, same) counts later =
      let (o', stored, valid, next, last) = store_lem w v room (omega (arith, still)) in
      rw (stored) (
        Collected-cons t ts o o' v (collect malloc_ok ts o') e
          (last ∙ ap (λ (x : List ℕ). x ++ v ∷ []) same)
          (later o' valid (omega (arith, still, next))))

  -- From a block that is not empty and a count inside it, over tokens that the count, an `int`, has
  -- room for, the loop never writes outside its block, and the count does not overflow. It ends in NULL only where a token is no byte or memory ran out; otherwise every token's value
  -- follows what was written, in order.
  pub collect-Collected :
      (ts : List Text) (o : Output)
      → IsOutput o
      → o.byte_count + length ts ≤ int_max
      → Collected ts o (collect malloc_ok ts o)
  unfolding collect token_bytes
  collect-Collected [] o h counts = (h, [], refl, sym (append-nil (written o)))
  collect-Collected (t ∷ ts) o h counts = elim (Option-cases (token_byte t)) [
    | inl bad ↦ rw (bad, collect) (inl (rw (bad, token_bytes)))
    | inr (v, good) ↦
        rw (good, collect)
          (store_and_go-Collected t ts o v good (expand malloc_ok o) (expand-Expanded o h)
            (omega arith) (λ o' valid next. collect-Collected ts o' valid (omega (arith, next))))
  ]
