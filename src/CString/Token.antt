-- ===== src/CString/Token.antt =====
-- strtok with the delimiters ", ": the tokens that its successive calls return.
use ut_control.Base.{
  ℕ, ◌≡◌, ◌≢◌, refl, Bool, true, false, ◌||◌, List, [], ◌∷◌, ◌++◌, ◌==◌, All, append_assoc, sym, ap,
  ◌∙◌, append-nil,
}
use ut_control.CString.Compare.{Text}

unfoldable pub is_delimiter : ℕ → Bool
is_delimiter c = (c == b',') || (c == b' ')

-- A token is never empty.
unfoldable pub flush : Text → List Text → List Text
flush [] rest = rest
flush (c ∷ cs) rest = (c ∷ cs) ∷ rest

unfoldable pub split_tokens : Text → Text → List Text
unfolding is_delimiter flush
split_tokens current [] = flush current []
split_tokens current (c ∷ cs) = elim (is_delimiter c) [
  | true ↦ flush current (split_tokens [] cs)
  | false ↦ split_tokens (current ++ c ∷ []) cs
]

unfoldable pub tokens : Text → List Text
unfolding split_tokens
tokens s = split_tokens [] s

-- Texts written one after the other with ", " between them.
unfoldable pub join : List Text → Text
join [] = []
join (t ∷ []) = t
join (t ∷ u ∷ ts) = t ++ (b',' ∷ b' ' ∷ join (u ∷ ts))

-- A text that can be a token: not empty, and without delimiters.
abbrev pub IsToken : Text → Type 0
IsToken t = (t ≢ []) × All (λ c. is_delimiter c ≡ false) t

split_tokens-word :
    (current t rest : Text)
    → All (λ c. is_delimiter c ≡ false) t
    → split_tokens current (t ++ rest) ≡ split_tokens (current ++ t) rest
unfolding split_tokens
split_tokens-word current [] rest h = rw append-nil
split_tokens-word current (c ∷ cs) rest h =
    rw (h.0, split_tokens)
      (rw (split_tokens-word (current ++ c ∷ []) cs rest h.1)
        (rw (append_assoc current (c ∷ []) cs)))

flush_token : (t : Text) (rest : List Text) → t ≢ [] → flush t rest ≡ t ∷ rest
unfolding flush
flush_token [] rest h = absurd (h refl)
flush_token (c ∷ cs) rest h = refl

split_tokens_last : (t : Text) → IsToken t → split_tokens [] t ≡ t ∷ []
unfolding split_tokens
split_tokens_last t h =
    ap (split_tokens []) (sym (append-nil t)) ∙ split_tokens-word [] t [] h.1 ∙ flush_token t [] h.0

-- Joining tokens and splitting the result gives them back.
pub tokens-join : (ts : List Text) → All IsToken ts → tokens (join ts) ≡ ts
unfolding tokens join
tokens-join [] h = refl
tokens-join (t ∷ []) h = split_tokens_last t h.0
tokens-join (t ∷ u ∷ ts) h =
    split_tokens-word [] t (b',' ∷ b' ' ∷ join (u ∷ ts)) h.0.1
    ∙ flush_token t (split_tokens [] (join (u ∷ ts))) h.0.0
    ∙ ap (λ (r : List Text). t ∷ r) (tokens-join (u ∷ ts) h.1)
