-- ===== src/Kvp/Key.antt =====
-- src/ut_kvp.c: `convert_dot_to_slash`, which turns a dotted key into the path that libfyaml takes.
use ut_control.Base.{
  length-drop, ◌∙◌, All-map, drop-nonempty, ℕ, zero, suc, ◌+◌, ◌-◌, ◌≤◌, ◌<◌, ◌≡◌, refl, ap, true,
  false, Option, none, some, List, [], ◌∷◌, ◌++◌, map, arith, ltb, ◌==◌, if◌then◌else◌, ◌>>=◌,
  length, get_elem?, set, take, drop, replicate, Bool-cases, Option-cases, >>=-relabel, inl, inr,
  take_all, length-map, length-append, sym,
}
use native.Mathlib.Decide.{dec_lt}
use ut_control.CString.{Text, IsText, strchr_found}
use ut_control.CString.Buffer.{read_string, read_string-append}

-- UT_KVP_MAX_ELEMENT_SIZE
abbrev pub max_element_size : ℕ
max_element_size = 256

-- output[i] = v
unfoldable pub write : List ℕ → ℕ → ℕ → Option (List ℕ)
write out i v = if ltb i (length out) then some (set out i v) else none

unfoldable pub dot_to_slash : ℕ → ℕ
dot_to_slash c = if c == b'.' then b'/' else c

-- The `for` loop, with the rounds that are left; it breaks at the key's NUL.
unfoldable pub dot_loop : ℕ → ℕ → Text → List ℕ → Option (List ℕ)
dot_loop zero i key out = some out
dot_loop (suc rounds) i key out = elim (get_elem? key i) [
  | none ↦ some out
  | some c ↦ write out i (dot_to_slash c) >>= λ out'. dot_loop rounds (suc i) key out'
]

-- snprintf(output, size, "%s", key)
snprintf_key : ℕ → Text → List ℕ → List ℕ
snprintf_key size key out = take (size - 1) key ++ 0 ∷ drop (length (take (size - 1) key) + 1) out

unfoldable pub convert_dot_to_slash : Text → List ℕ → Option (List ℕ)
unfolding snprintf_key
convert_dot_to_slash key output =
    if strchr_found key b'.'
    then (do out ← dot_loop (max_element_size + 1) 0 key output; write out (length key) 0)
    else some (snprintf_key max_element_size key output)

-- The string in `zKey` after the call. The array is local to each caller and not initialised;
-- `convert_dot_to_slash_lem` holds for any content.
unfoldable pub zkey : Text → Option Text
zkey key = do out ← convert_dot_to_slash key (replicate max_element_size 0); read_string out

write_outside : (n v : ℕ) (out : List ℕ) → length out ≤ n → write out n v ≡ none
unfolding write
write_outside n v out h = ground arith

pub write_inside : (i v : ℕ) (out : List ℕ) → i < length out → write out i v ≡ some (set out i v)
unfolding write
write_inside i v out h = ground arith

write-head : (o v : ℕ) (out : List ℕ) → write (o ∷ out) 0 v ≡ some (v ∷ out)
unfolding write
write-head o v out = ground arith

write-cons :
    (o i v : ℕ) (out : List ℕ)
    → write (o ∷ out) (suc i) v ≡ (write out i v >>= λ out'. some (o ∷ out'))
unfolding write
write-cons o i v out = ground arith

dot_loop-cons :
    (r i : ℕ) (c o : ℕ) (key : Text) (out : List ℕ)
    → dot_loop r (suc i) (c ∷ key) (o ∷ out) ≡ (dot_loop r i key out >>= λ out'. some (o ∷ out'))
unfolding dot_loop
dot_loop-cons zero i c o key out = refl
dot_loop-cons (suc r) i c o key out = elim (Option-cases (get_elem? key i)) [
  | inl end ↦ rw (end, dot_loop)
  | inr (c', more) ↦
      rw (more, dot_loop)
        (rw write-cons (
          >>=-relabel (write out i (dot_to_slash c')) (λ x. o ∷ x)
            (λ x. dot_loop r (suc (suc i)) (c ∷ key) x) (λ x. dot_loop r (suc i) key x) (λ x. o ∷ x)
            (λ x. dot_loop-cons r (suc i) c o key x)))
]

-- Where the array has room for the key, the loop writes the key with every dot a slash.
dot_loop_lem :
    (r : ℕ) (key : Text) (out : List ℕ)
    → length key ≤ r
    → length key ≤ length out
    → dot_loop r 0 key out ≡ some (map dot_to_slash key ++ drop (length key) out)
unfolding dot_loop
dot_loop_lem zero [] out h k = refl
dot_loop_lem (suc r) [] out h k = refl
dot_loop_lem zero (c ∷ key) out h k = elim h [ ]
dot_loop_lem (suc r) (c ∷ key) [] h k = elim k [ ]
dot_loop_lem (suc r) (c ∷ key) (o ∷ out) h k =
    rw write-head (rw dot_loop-cons (rw (dot_loop_lem r key out (omega arith) (omega arith))))

-- Where it has not, the loop writes past its end.
dot_loop_fault :
    (r : ℕ) (key : Text) (out : List ℕ)
    → length out < length key
    → length out < r
    → dot_loop r 0 key out ≡ none
unfolding dot_loop
dot_loop_fault zero key out h k = elim k [ ]
dot_loop_fault (suc r) [] out h k = elim h [ ]
dot_loop_fault (suc r) (c ∷ key) [] h k = rw (write_outside 0 (dot_to_slash c) [] (omega arith))
dot_loop_fault (suc r) (c ∷ key) (o ∷ out) h k =
    rw (write-head, dot_loop)
      (rw dot_loop-cons (rw (dot_loop_fault r key out (omega arith) (omega arith))))

-- The NUL behind the key, where there is room for it.
write_behind :
    (n o : ℕ) (xs out : List ℕ) → length xs ≡ n → write (xs ++ o ∷ out) n 0 ≡ some (xs ++ 0 ∷ out)
write_behind zero o [] out h = write-head o 0 out
write_behind zero o (x ∷ xs) out h = absurd (omega arith)
write_behind (suc n) o [] out h = absurd (omega arith)
write_behind (suc n) o (x ∷ xs) out h = rw write-cons (rw (write_behind n o xs out (omega arith)))

dot_to_slash-pos : (c : ℕ) → 0 < c → 0 < dot_to_slash c
unfolding dot_to_slash
dot_to_slash-pos c h = ground arith

-- Without a dot the key is its own path.
map-no_dot : (key : Text) → strchr_found key b'.' ≡ false → map dot_to_slash key ≡ key
unfolding strchr_found dot_to_slash
map-no_dot [] h = refl
map-no_dot (c ∷ key) h = ground (arith, map-no_dot key)

pub IsText-map-dot_to_slash : (key : Text) → IsText key → IsText (map dot_to_slash key)
IsText-map-dot_to_slash key h =
    All-map (λ c. 0 < c) (λ c. 0 < c) dot_to_slash key dot_to_slash-pos h

convert_dotted :
    (key : Text) (output : List ℕ)
    → length key < max_element_size
    → length output ≡ max_element_size
    → (rest : List ℕ) × ((dot_loop (max_element_size + 1) 0 key output >>= λ out.
          write out (length key) 0)
        ≡ some (map dot_to_slash key ++ 0 ∷ rest))
convert_dotted key output h l =
    let (o, rest, e) = drop-nonempty (length key) output (omega arith) in
    (
      rest,
      rw (dot_loop_lem (max_element_size + 1) key output (omega arith) (omega arith)) (
          rw e (
            write_behind (length key) o (map dot_to_slash key) rest (length-map key dot_to_slash))),
    )

-- For a key shorter than the array of 256 bytes, the array then holds the key with every dot turned
-- into a slash, whatever it held before.
pub convert_dot_to_slash_lem :
    (key : Text) (output : List ℕ)
    → IsText key
    → length key < max_element_size
    → length output ≡ max_element_size
    → (out : List ℕ) × (convert_dot_to_slash key output ≡ some out)
      × (read_string out ≡ some (map dot_to_slash key))
unfolding convert_dot_to_slash
convert_dot_to_slash_lem key output t h l = elim (Bool-cases (strchr_found key b'.')) [
  | inl dotted ↦
      let (rest, e) = convert_dotted key output h l in
      (
        map dot_to_slash key ++ 0 ∷ rest,
        rw dotted e,
        read_string-append (map dot_to_slash key) rest (IsText-map-dot_to_slash key t),
      )
  | inr plain ↦ (
    key ++ 0 ∷ drop (length key + 1) output,
    rw (plain, take_all 255 key (omega arith)),
    read_string-append key (drop (length key + 1) output) t ∙ ap some (sym (map-no_dot key plain)),
  )
]

-- A dotted key of at least as many bytes as the array has is written past the array's end.
pub convert_dot_to_slash_fault :
    (key : Text) (output : List ℕ)
    → strchr_found key b'.' ≡ true
    → max_element_size ≤ length key
    → length output ≡ max_element_size
    → convert_dot_to_slash key output ≡ none
unfolding convert_dot_to_slash
convert_dot_to_slash_fault key output dotted h l =
    rw dotted (elim (dec_lt max_element_size (length key)) [
      | yes longer ↦
          rw (dot_loop_fault (max_element_size + 1) key output (omega arith) (omega arith))
      | no same ↦ rw (dot_loop_lem (max_element_size + 1) key output (omega arith) (omega arith)) (
          write_outside (length key) 0 (map dot_to_slash key ++ drop (length key) output) (
            omega (
              arith,
              length-append (map dot_to_slash key) (drop (length key) output),
              length-map key dot_to_slash,
              length-drop (length key) output,
            )))
    ])

-- The path that the callers pass on.
pub zkey_lem :
    (key : Text)
    → IsText key
    → length key < max_element_size
    → zkey key ≡ some (map dot_to_slash key)
unfolding zkey
zkey_lem key t h =
    let (out, e, r) = convert_dot_to_slash_lem key (replicate max_element_size 0) t h refl in rw e r
