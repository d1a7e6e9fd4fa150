-- ===== src/Kvp/Pattern.antt =====
-- src/ut_kvp.c: `find_pattern_from_buffer`.
pub mod First
use ut_control.Base.{
  ℕ, zero, suc, ◌+◌, ◌-◌, ◌≤◌, ◌<◌, ◌≡◌, refl, ap, sym, ◌∙◌, Bool, true, false, ◌&&◌, ◌||◌, Option,
  none, some, List, [], ◌∷◌, ◌++◌, arith, ltb, ◌==◌, if◌then◌else◌, length, drop, take, Bool-cases,
  inl, inr, take-append-drop, length-append, length-drop, length-take,
}
use ut_control.CString.{starts_with}

-- The `for` loop from `i` on, with the rounds that are left: the offset of the first match. The
-- test is memcmp(buffer + i, pattern, patternLength) == 0.
find_loop : ℕ → ℕ → List ℕ → List ℕ → Option ℕ
find_loop zero i buffer pattern' = none
find_loop (suc rounds) i buffer pattern' =
    let rest = find_loop rounds (i + 1) buffer pattern' in
    if starts_with pattern' (drop i buffer) then some i else rest

-- The offset of the address that is returned, or `none` for NULL.
unfoldable pub find_pattern_from_buffer : List ℕ → List ℕ → Option ℕ
unfolding find_loop
find_pattern_from_buffer buffer pattern' =
    if (length buffer == 0) || (length pattern' == 0) || ltb (length buffer) (length pattern')
    then none
    else find_loop (length buffer - length pattern' + 1) 0 buffer pattern'
