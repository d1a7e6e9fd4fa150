-- ===== src/Kvp/Pattern/First.antt =====
-- src/ut_kvp.c: what `find_pattern_from_buffer` finds.
use ut_control.Base.{
  ℕ, zero, suc, ◌+◌, ◌-◌, ◌≤◌, ◌<◌, ◌≡◌, subst, Bool, true, false, ◌||◌, Option, none, some, List,
  [], ◌∷◌, arith, ltb, ◌==◌, length, drop, Bool-cases, inl, inr, length-drop,
}
use ut_control.CString.{starts_with}
use ut_control.Kvp.Pattern.{find_loop, find_pattern_from_buffer}

-- `pattern'` stands at offset `i` of `buffer`.
abbrev pub occurs_at : List ℕ → List ℕ → ℕ → Bool
occurs_at pattern' buffer i = starts_with pattern' (drop i buffer)

-- The result is the first offset, of those from `i` to in front of `end`, at which the pattern
-- stands; NULL, where it stands at none of them.
abbrev IsFirst : List ℕ → List ℕ → ℕ → ℕ → Option ℕ → Type 0
IsFirst pattern' buffer i end none = (j : ℕ) → i ≤ j → j < end → occurs_at pattern' buffer j ≡ false
IsFirst pattern' buffer i end (some k) =
    (occurs_at pattern' buffer k ≡ true)
    × ((j : ℕ) → i ≤ j → j < k → occurs_at pattern' buffer j ≡ false)

-- A miss at `i` is a miss at every offset that is `i` or in a range of misses behind it.
miss_from :
    (p b : List ℕ) (i end : ℕ)
    → occurs_at p b i ≡ false
    → ((j : ℕ) → i + 1 ≤ j → j < end → occurs_at p b j ≡ false)
    → (j : ℕ) → i ≤ j
    → j < end
    → occurs_at p b j ≡ false
miss_from p b i end miss h j low high = elim (Bool-cases (j == i)) [
  | inl same ↦ subst (λ (k : ℕ). occurs_at p b k ≡ false) (ground arith) miss
  | inr other ↦ h j (ground arith) high
]

later-IsFirst :
    (p b : List ℕ) (i end : ℕ) (result : Option ℕ)
    → occurs_at p b i ≡ false
    → IsFirst p b (i + 1) end result
    → IsFirst p b i end result
later-IsFirst p b i end none miss h = miss_from p b i end miss h
later-IsFirst p b i end (some k) miss h = (h.0, miss_from p b i k miss h.1)

find_loop-IsFirst :
    (r i end : ℕ) (b p : List ℕ) → r + i ≡ end → IsFirst p b i end (find_loop r i b p)
unfolding find_loop
find_loop-IsFirst zero i end b p e = λ j low high. absurd (omega arith)
find_loop-IsFirst (suc r) i end b p e = elim (Bool-cases (occurs_at p b i)) [
  | inl here ↦ rw here (here, λ j low high. absurd (omega arith))
  | inr miss ↦ rw miss (
      later-IsFirst p b i end (find_loop r (i + 1) b p) miss
        (find_loop-IsFirst r (i + 1) end b p (omega arith)))
]

starts_with-length : (p s : List ℕ) → starts_with p s ≡ true → length p ≤ length s
unfolding starts_with
starts_with-length [] s h = omega arith
starts_with-length (c ∷ cs) [] h = absurd (cc)
starts_with-length (c ∷ cs) (d ∷ ds) h = ground (arith, starts_with-length cs ds)

-- The pattern is longer than what is left of the buffer.
too_late : (p b : List ℕ) (j : ℕ) → length b < length p + j → 0 < length p → occurs_at p b j ≡ false
too_late p b j h n = elim (Bool-cases (occurs_at p b j)) [
  | inl hit ↦ absurd (omega (arith, starts_with-length p (drop j b) hit, length-drop j b))
  | inr miss ↦ miss
]

-- What a search says: the first offset at which the pattern stands, or that there is none.
abbrev pub Finds : List ℕ → List ℕ → Option ℕ → Type 0
Finds pattern' buffer none = (j : ℕ) → occurs_at pattern' buffer j ≡ false
Finds pattern' buffer (some k) =
    (occurs_at pattern' buffer k ≡ true) × ((j : ℕ) → j < k → occurs_at pattern' buffer j ≡ false)

whole :
    (p b : List ℕ) (end : ℕ) (result : Option ℕ)
    → 0 < length p
    → length b < length p + end
    → IsFirst p b 0 end result
    → Finds p b result
whole p b end none n e h = λ j. elim (Bool-cases (ltb j end)) [
  | inl inside ↦ h j (omega arith) (ground arith)
  | inr past ↦ too_late p b j (ground arith) n
]
whole p b end (some k) n e h = (h.0, λ j below. h.1 j (omega arith) below)

-- For a pattern that is not empty, the search returns the first offset at which the pattern stands
-- in the buffer, and NULL where it stands at none.
pub find_pattern_from_buffer-Finds :
    (buffer pattern' : List ℕ)
    → 0 < length pattern'
    → Finds pattern' buffer (find_pattern_from_buffer buffer pattern')
unfolding find_pattern_from_buffer
find_pattern_from_buffer-Finds b p n = elim (Bool-cases (ltb (length b) (length p))) [
  | inl short ↦
      let g : ((length b == 0) || (length p == 0) || ltb (length b) (length p)) ≡ true =
        ground arith in
      rw g (λ j. too_late p b j (ground arith) n)
  | inr long ↦
      let g : ((length b == 0) || (length p == 0) || ltb (length b) (length p)) ≡ false =
        ground arith in
      rw g (
        whole p b (length b - length p + 1) (find_loop (length b - length p + 1) 0 b p) n
          (ground arith)
          (find_loop-IsFirst (length b - length p + 1) 0 (length b - length p + 1) b p
            (omega arith)))
]
