-- ===== src/Kvp/Bytes.antt =====
-- src/ut_kvp.c: ut_kvp_getDataBytes, which reads a scalar as byte values between commas and spaces.
pub mod Collect
pub mod Reads
pub mod Decimal
pub mod Spelled
use ut_control.Base.{
  ℕ, zero, suc, ◌+◌, ◌-◌, ◌*◌, ◌≤◌, ◌<◌, ◌≡◌, Bool, true, false, ◌&&◌, ◌||◌, not, Option, none,
  some, List, [], ◌∷◌, ◌++◌, ltb, leb, ◌==◌, if◌then◌else◌, ◌>>=◌, length, replicate,
}
use ut_control.Base.Int.{int_max}
use ut_control.CString.{Text, strncmp_eq}
use ut_control.CString.Number.{Conversion, strtoul, ulong_max}
use ut_control.CString.Token.{tokens}
use ut_control.Kvp.Key.{write}
use ut_control.Kvp.Fyaml.{Fyaml}
use ut_control.Kvp.Instance.{Instance, validate_instance}
use ut_control.Kvp.Nodes.{Located, found, locate}

-- `output_bytes`, a block of `length output_bytes` bytes (`buffer_size`), and `byte_count`, an `int`,
-- which starts at 0 and only grows.
pub record Output : Type 0 where
  pub output_bytes : List ℕ
  pub byte_count : ℕ

-- while (*token == ' ') token++
unfoldable pub trim_spaces : Text → Text
trim_spaces [] = []
trim_spaces (c ∷ cs) = elim (c == b' ') [ true ↦ trim_spaces cs | false ↦ c ∷ cs ]

-- errno is not cleared before the conversion; a value past 255 is refused whatever it says.
pub accept_byte : Conversion → Option ℕ
accept_byte c =
    if not (length c.rest == 0) || ((c.value == ulong_max) && c.erange) || ltb 255 c.value
    then none
    else some c.value

-- The byte that a token stands for, if it is one.
unfoldable pub token_byte : Text → Option ℕ
unfolding accept_byte
token_byte token =
    let t = trim_spaces token in
    accept_byte (
      strtoul t
        (if strncmp_eq t (b'0' ∷ b'x' ∷ []) 2 || strncmp_eq t (b'0' ∷ b'X' ∷ []) 2 then 16 else 10))

module _ (malloc_ok : ℕ → Bool) where
  -- The block doubles where it is full; `none`: realloc failed.
  unfoldable pub expand : Output → Option Output
  expand o =
      let size = length o.output_bytes in
      if leb size o.byte_count
      then (if malloc_ok (size * 2)
          then some (record o { output_bytes = o.output_bytes ++ replicate size 0 })
          else none)
      else some o

  -- output_bytes[byte_count++] = value; `none` is a write past the block, or a `byte_count` that
  -- overflows its type.
  unfoldable pub store : Output → ℕ → Option Output
  store o value =
      if ltb o.byte_count int_max
      then (write o.output_bytes o.byte_count value >>= λ bytes.
          some (record { output_bytes = bytes; byte_count = o.byte_count + 1 }))
      else none

  -- The rest of a round, with the block that `expand` left and what the later rounds do.
  unfoldable pub store_and_go :
      (Output → Option (Option Output)) → ℕ → Option Output → Option (Option Output)
  store_and_go later value none = some none
  store_and_go later value (some wide) = store wide value >>= later

  -- The loop over the tokens: the output, or inside `some` a NULL result.
  unfoldable pub collect : List Text → Output → Option (Option Output)
  unfolding store_and_go
  collect [] o = some (some o)
  collect (token ∷ ts) o = elim (token_byte token) [
    | none ↦ some none
    | some value ↦ store_and_go (collect ts) value (expand o)
  ]

  -- The pointer that is returned, to a block of bytes or NULL, and `*size`.
  finish_bytes : Option Output → Option (List ℕ) × ℕ
  finish_bytes none = (none, 0)
  finish_bytes (some o) = (some o.output_bytes, o.byte_count)

  unfoldable pub bytes_of_string : Text → Option (Option (List ℕ) × ℕ)
  unfolding finish_bytes
  bytes_of_string s =
      if malloc_ok 16 && malloc_ok (length s + 1)
      then (collect (tokens s) (record { output_bytes = replicate 16 0; byte_count = 0 }) >>= λ o.
          some (finish_bytes o))
      else some (none, 0)

  module _ (Y : Fyaml) where
    bytes_of_scalar : Option Text → Option (Option (List ℕ) × ℕ)
    bytes_of_scalar none = some (none, 0)
    bytes_of_scalar (some s) = bytes_of_string s

    bytes_of : Located Y → Option (Option (List ℕ) × ℕ)
    unfolding bytes_of_scalar
    bytes_of (found node) =
        if Y.is_scalar node then bytes_of_scalar (Y.get_scalar0 node) else some (none, 0)
    bytes_of _ = some (none, 0)

    -- `size` is the value behind the caller's pointer, or NULL; where it is NULL, or a check before
    -- it fails, nothing is written to it.
    unfoldable pub ut_kvp_get_data_bytes :
        Option (Instance Y) → Option Text → Option ℕ → Option (Option (List ℕ) × Option ℕ)
    unfolding bytes_of
    ut_kvp_get_data_bytes handle key size = elim (validate_instance Y handle) [
      | none ↦ some (none, size)
      | some p ↦ elim key [
        | none ↦ some (none, size)
        | some k ↦ elim size [
          | none ↦ some (none, none)
          | some old ↦ locate Y p k >>= λ l. bytes_of l >>= λ r. some (r.0, some r.1)
        ]
      ]
    ]
