-- ===== src/Log/Strip.antt =====
-- src/ut_log.c: `UT_stripColorCode` against a function on texts.
use ut_control.Base.{
  ℕ, zero, suc, ◌+◌, ◌≤◌, ◌<◌, ◌≡◌, ◌⊎◌, inl, inr, refl, ap, ◌∙◌, Bool, true, false, Option, some,
  List, [], ◌∷◌, ◌++◌, ◌==◌, if◌then◌else◌, get_elem?, ◌>>=◌, length, take, drop, set, arith,
  Bool-cases, take-set_next, append_assoc, append-nil, All-append, length-append,
}
use native.Mathlib.Numerals.{add-one}
use ut_control.CString.{Text, IsText}
use ut_control.CString.Buffer.{read_string}
use ut_control.Kvp.Key.{write, write_inside}
use ut_control.Log.{escape, skip_code, after_code, strip_char, strip_loop, strip_color_code}

-- A text without its colour codes: each goes from an escape to the next 'm', or to the end.
-- `coded` says whether the text begins inside one.
unfoldable pub visible : (coded : Bool) → Text → Text
visible coded [] = []
visible false (c ∷ cs) =
    let code = visible true cs in
    let text = visible false cs in if c == escape then code else c ∷ text
visible true (c ∷ cs) =
    let code = visible true cs in let text = visible false cs in if c == b'm' then text else code

-- What stands from offset `i` on.
abbrev From : List ℕ → ℕ → List ℕ → Type 0
From b i s = drop i b ≡ s

From-head : (b : List ℕ) (i c : ℕ) (s : List ℕ) → From b i (c ∷ s) → get_elem? b i ≡ some c
From-head [] zero c s h = absurd (cc)
From-head [] (suc i) c s h = absurd (cc)
From-head (x ∷ b) zero c s h = ap some (cc)
From-head (x ∷ b) (suc i) c s h = From-head b i c s h

From-tail : (b : List ℕ) (i c : ℕ) (s : List ℕ) → From b i (c ∷ s) → From b (suc i) s
From-tail [] zero c s h = absurd (cc)
From-tail [] (suc i) c s h = absurd (cc)
From-tail (x ∷ b) zero c s h = cc
From-tail (x ∷ b) (suc i) c s h = From-tail b i c s h

From-inside : (b : List ℕ) (i c : ℕ) (s : List ℕ) → From b i (c ∷ s) → i < length b
From-inside [] zero c s h = absurd (cc)
From-inside [] (suc i) c s h = absurd (cc)
From-inside (x ∷ b) zero c s h = omega arith
From-inside (x ∷ b) (suc i) c s h = omega (arith, From-inside b i c s h)

From-set : (b : List ℕ) (i j v : ℕ) → j < i → drop i (set b j v) ≡ drop i b
From-set [] zero j v h = refl
From-set [] (suc i) j v h = refl
From-set (x ∷ b) zero j v h = absurd (omega arith)
From-set (x ∷ b) (suc i) zero v h = refl
From-set (x ∷ b) (suc i) (suc j) v h = From-set b i j v (omega arith)

-- A NUL behind the first `j` bytes ends them.
read_string-set :
    (b : List ℕ) (j : ℕ)
    → j < length b
    → IsText (take j b)
    → read_string (set b j 0) ≡ some (take j b)
unfolding read_string
read_string-set [] j h t = elim h [ ]
read_string-set (x ∷ b) zero h t = refl
read_string-set (zero ∷ b) (suc j) h t = absurd (omega (arith, t.0))
read_string-set (suc x ∷ b) (suc j) h t = rw (read_string-set b j (omega arith) t.1)

From-next : (b : List ℕ) (i c : ℕ) (s : List ℕ) → From b i (c ∷ s) → From b (i + 1) s
From-next b i c s h = rw add-one (From-tail b i c s h)

-- Where the skipping of a code stops: at its 'm', with a shorter text behind it, or at the NUL.
abbrev Skipped : List ℕ → Text → List ℕ → ℕ → Type 0
Skipped b s rest i' =
    ((s' : Text) × From b i' (b'm' ∷ (s' ++ 0 ∷ rest))
      × (visible true s ≡ visible false s')
      × (length s' < length s)
      × IsText s')
    ⊎ (From b i' (0 ∷ rest) × (visible true s ≡ []))

Skipped-cons :
    (b : List ℕ) (c : ℕ) (cs : Text) (rest : List ℕ) (i' : ℕ)
    → (c == b'm') ≡ false
    → Skipped b cs rest i'
    → Skipped b (c ∷ cs) rest i'
unfolding visible
Skipped-cons b c cs rest i' other (inl (s', at, e, l, t)) = inl (s', at, rw other e, omega arith, t)
Skipped-cons b c cs rest i' other (inr (at, e)) = inr (at, rw other e)

skip_code-Skipped :
    (rounds : ℕ) (b : List ℕ) (i : ℕ) (s : Text) (rest : List ℕ)
    → IsText s
    → length s < rounds
    → From b i (s ++ 0 ∷ rest)
    → (i' : ℕ) × (skip_code rounds b i ≡ some i') × (i ≤ i') × Skipped b s rest i'
unfolding skip_code visible
skip_code-Skipped zero b i s rest t l at = elim l [ ]
skip_code-Skipped (suc r) b i [] rest t l at =
    (i, rw (From-head b i 0 rest at, skip_code), omega arith, inr (at, refl))
skip_code-Skipped (suc r) b i (c ∷ cs) rest t l at = elim (Bool-cases (c == b'm')) [
  | inl m ↦
      let same : c ≡ b'm' = ground arith in
      (
        i,
        rw (From-head b i c (cs ++ 0 ∷ rest) at, skip_code) (rw m),
        omega arith,
        inl (cs, rw same at at, rw m, omega arith, t.1),
      )
  | inr other ↦
      let solid : (c == 0) ≡ false = ground (arith, t.0) in
      let (i', e, ahead, stops) =
        skip_code-Skipped r b (i + 1) cs rest t.1 (omega arith)
          (From-next b i c (cs ++ 0 ∷ rest) at) in
      (
        i',
        rw (From-head b i c (cs ++ 0 ∷ rest) at, skip_code) (rw (other, solid) e),
        omega arith,
        Skipped-cons b c cs rest i' other stops,
      )
]

-- The array reads as `text`.
abbrev pub Reads : Text → Option (List ℕ) → Type 0
Reads text r = (b : List ℕ) × (r ≡ some b) × (read_string b ≡ some text)

ends :
    (b : List ℕ) (j : ℕ) (text : Text)
    → j < length b
    → take j b ≡ text
    → IsText text
    → Reads text (write b j 0)
ends b j text h e t = (set b j 0, write_inside j 0 b h, read_string-set b j h (rw e t) ∙ ap some e)

-- From offsets `j` and `i` on, where the bytes in front of `j` are those kept so far.
abbrev Strips : ℕ → Type 0
Strips rounds =
    (b : List ℕ) (i j : ℕ) (out s : Text) (rest : List ℕ)
    → length s < rounds
    → j ≤ i
    → take j b ≡ out
    → IsText out
    → IsText s
    → From b i (s ++ 0 ∷ rest)
    → Reads (out ++ visible false s) (strip_loop rounds b i j)

after_code-Reads :
    (r : ℕ) (b : List ℕ) (i' j : ℕ) (out s : Text) (rest : List ℕ)
    → Strips r
    → length s ≤ r
    → j ≤ i'
    → take j b ≡ out
    → IsText out
    → Skipped b s rest i'
    → Reads (out ++ visible true s) (after_code (λ k. strip_loop r b k j) b i' j)
unfolding after_code
after_code-Reads r b i' j out s rest later l le kept tout (inl (s', at, e, shorter, ts)) =
    rw (From-head b i' b'm' (s' ++ 0 ∷ rest) at, after_code)
      (rw e (
        later b (i' + 1) j out s' rest (omega arith) (omega arith) kept tout ts
          (From-next b i' b'm' (s' ++ 0 ∷ rest) at)))
after_code-Reads r b i' j out s rest later l le kept tout (inr (at, e)) =
    rw (From-head b i' 0 rest at, after_code)
      (rw e (rw append-nil (ends b j out (omega (arith, From-inside b i' 0 rest at)) kept tout)))

code-Reads :
    (r : ℕ) (b : List ℕ) (i j : ℕ) (out cs : Text) (rest : List ℕ)
    → Strips r
    → length cs < r
    → j ≤ i
    → take j b ≡ out
    → IsText out
    → IsText cs
    → From b i (escape ∷ (cs ++ 0 ∷ rest))
    → Reads
        (out ++ visible true cs)
        (skip_code (suc r) b i >>= λ i'. after_code (λ k. strip_loop r b k j) b i' j)
unfolding visible
code-Reads r b i j out cs rest later l le kept tout ts at =
    let (i', e, ahead, stops) =
      skip_code-Skipped (suc r) b i (escape ∷ cs) rest (omega arith, ts) (omega arith) at in
    rw e (
      after_code-Reads r b i' j out (escape ∷ cs) rest later (omega arith) (omega arith) kept tout
        stops)

text-Reads :
    (r : ℕ) (b : List ℕ) (i j : ℕ) (out : Text) (c : ℕ) (cs : Text) (rest : List ℕ)
    → Strips r
    → length cs < r
    → j ≤ i
    → take j b ≡ out
    → IsText out
    → IsText (c ∷ cs)
    → From b i (c ∷ (cs ++ 0 ∷ rest))
    → Reads (out ++ c ∷ visible false cs) (write b j c >>= λ s. strip_loop r s (i + 1) (j + 1))
text-Reads r b i j out c cs rest later l le kept tout ts at =
    let room : j < length b = omega (arith, From-inside b i c (cs ++ 0 ∷ rest) at) in
    rw (write_inside j c b room, ← append_assoc out (c ∷ []) (visible false cs))
      (later (set b j c) (i + 1) (j + 1) (out ++ c ∷ []) cs rest l (omega arith)
        (take-set_next j c b room ∙ ap (λ (x : Text). x ++ c ∷ []) kept)
        (All-append (λ (x : ℕ). 0 < x) out (c ∷ []) tout (ts.0, tt)) ts.1
        (From-set b (i + 1) j c (omega arith) ∙ From-next b i c (cs ++ 0 ∷ rest) at))

strip_loop-Reads : (rounds : ℕ) → Strips rounds
unfolding strip_loop strip_char visible
strip_loop-Reads zero b i j out s rest l le kept tout ts at = elim l [ ]
strip_loop-Reads (suc r) b i j out [] rest l le kept tout ts at =
    rw (From-head b i 0 rest at, strip_loop)
      (rw append-nil (ends b j out (omega (arith, From-inside b i 0 rest at)) kept tout))
strip_loop-Reads (suc r) b i j out (c ∷ cs) rest l le kept tout ts at =
    let solid : (c == 0) ≡ false = ground (arith, ts.0) in
    elim (Bool-cases (c == escape)) [
      | inl code ↦
          let same : c ≡ escape = ground arith in
          rw (From-head b i c (cs ++ 0 ∷ rest) at, strip_loop)
            (rw (solid, code)
              (code-Reads r b i j out cs rest (strip_loop-Reads r) (omega arith) le kept tout ts.1
                (rw same at at)))
      | inr text ↦
          rw (From-head b i c (cs ++ 0 ∷ rest) at, strip_loop)
            (rw (solid, text)
              (text-Reads r b i j out c cs rest (strip_loop-Reads r) (omega arith) le kept tout ts
                at))
    ]

-- With as many rounds as the array has bytes, an array that holds a C string holds afterwards that
-- string without its colour codes; a code that does not end runs to the end of the string. The call
-- never leaves the array.
pub strip_color_code-Reads :
    (s : Text) (rest : List ℕ)
    → IsText s
    → Reads (visible false s) (strip_color_code (length (s ++ 0 ∷ rest)) (s ++ 0 ∷ rest))
unfolding strip_color_code
strip_color_code-Reads s rest t =
    strip_loop-Reads (length (s ++ 0 ∷ rest)) (s ++ 0 ∷ rest) 0 0 [] s rest
      (omega (arith, length-append s (0 ∷ rest))) (omega arith) refl tt t refl
