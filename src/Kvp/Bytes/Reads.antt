-- ===== src/Kvp/Bytes/Reads.antt =====
-- src/ut_kvp.c: ut_kvp_getDataBytes against the values of the tokens of a scalar.
use ut_control.Base.{
  ℕ, ◌≡◌, refl, ap, ◌∙◌, Bool, true, Option, none, some, List, [], ◌++◌, ◌>>=◌, length, arith, inl,
  inr, take, length-take, replicate, ◌≤◌,
}
use ut_control.Base.Int.{int_max}
use ut_control.CString.{Text}
use ut_control.CString.Token.{tokens}
use ut_control.Kvp.Fyaml.{Fyaml}
use ut_control.Kvp.Instance.{Instance, validate_instance-valid}
use ut_control.Kvp.Nodes.Strings.{Leads, locate-Leads}
use ut_control.Kvp.Bytes.{Output, collect, bytes_of_string, ut_kvp_get_data_bytes}
use ut_control.Kvp.Bytes.Collect.{token_bytes, IsOutput, written, Collected, collect-Collected}

-- What a list of tokens comes to where memory is never short.
bytes_of-Collected :
    (malloc_ok : ℕ → Bool) (enough : (n : ℕ) → malloc_ok n ≡ true) (ts : List Text) (vs : List ℕ)
    → token_bytes ts ≡ some vs
    → (o : Output) (valid : IsOutput o) → written o ≡ []
    → (r : Option (Option Output)) → Collected malloc_ok ts o r
    → (o' : Output) × (r ≡ some (some o')) × IsOutput o' × (written o' ≡ vs)
bytes_of-Collected malloc_ok enough ts vs e o valid empty none h = absurd h
bytes_of-Collected malloc_ok enough ts vs e o valid empty (some none) (inl bad) = absurd (cc)
bytes_of-Collected malloc_ok enough ts vs e o valid empty (some none) (inr (n, missing)) =
    absurd (cc (enough n))
bytes_of-Collected malloc_ok enough ts vs e o valid empty (some (some o'))
      (inside, vs', all, last) =
    (o', refl, inside, last ∙ ap (λ (x : List ℕ). x ++ vs') empty ∙ (cc))

byte_count-written : (o : Output) → IsOutput o → o.byte_count ≡ length (written o)
byte_count-written o h = omega (arith, h.inside, length-take o.byte_count o.output_bytes)

pub bytes_of_string-token_bytes :
    (malloc_ok : ℕ → Bool) (enough : (n : ℕ) → malloc_ok n ≡ true) (s : Text) (vs : List ℕ)
    → token_bytes (tokens s) ≡ some vs
    → length (tokens s) ≤ int_max
    → (b : List ℕ) × (bytes_of_string malloc_ok s ≡ some (some b, length vs))
      × (take (length vs) b ≡ vs)
unfolding bytes_of_string
bytes_of_string-token_bytes malloc_ok enough s vs read counts =
    let ts = tokens s in
    let o₀ : Output = record { output_bytes = replicate 16 0; byte_count = 0 } in
    let valid : IsOutput o₀ = record { inside = omega arith; nonempty = omega arith } in
    let (o, e, inside, w) =
      bytes_of-Collected malloc_ok enough ts vs read o₀ valid refl (collect malloc_ok ts o₀)
        (collect-Collected malloc_ok ts o₀ valid (omega arith)) in
    let count : o.byte_count ≡ length vs = byte_count-written o inside ∙ ap length w in
    (o.output_bytes, rw (enough, enough) (rw (e, count)), rw (← count) w)

module _ {Y : Fyaml} {p : Instance Y} {k : Text} {node : Y.Node} (h : Leads Y p k node) where
  pub data_bytes-scalar :
      (malloc_ok : ℕ → Bool) (s : Text) (old : ℕ)
      → Y.is_scalar node ≡ true
      → Y.get_scalar0 node ≡ some s
      → ut_kvp_get_data_bytes malloc_ok Y (some p) (some k) (some old)
        ≡ (bytes_of_string malloc_ok s >>= λ r. some (r.0, some r.1))
  unfolding ut_kvp_get_data_bytes
  data_bytes-scalar malloc_ok s old scalar content =
      rw (validate_instance-valid Y p h.valid, ut_kvp_get_data_bytes)
        (rw (locate-Leads h) (rw (scalar, content)))
