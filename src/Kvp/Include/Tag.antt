-- ===== src/Kvp/Include/Tag.antt =====
-- src/ut_kvp.c: which tags `process_node_copy` takes for an include.
use ut_control.Base.{
  ◌&&◌, Bool, false, ◌≡◌, ◌↔◌, refl, sym, ◌∙◌, Bool-cases, true, some, [], ◌∷◌, ◌++◌, arith, length,
  Option-cases, inl, inr,
}
use ut_control.CString.{Text, strncmp_eq}
use ut_control.Kvp.Fyaml.{Fyaml}
use ut_control.Kvp.Include.{has_include_tag, include_word}

-- The first bytes of `word` are those of `tag`.
abbrev pub IsPrefix : Text → Text → Type 0
IsPrefix tag word = (rest : Text) × (tag ++ rest ≡ word)

prefix_to : (tag word : Text) → strncmp_eq tag word (length tag) ≡ true → IsPrefix tag word
unfolding strncmp_eq
prefix_to [] word h = (word, refl)
prefix_to (c ∷ cs) [] h = absurd (cc)
prefix_to (c ∷ cs) (d ∷ ds) h =
    let (rest, e) = prefix_to cs ds (ground arith) in
    let same : c ≡ d = ground arith in (rest, rw (same, e) refl)

prefix_from : (tag rest : Text) → strncmp_eq tag (tag ++ rest) (length tag) ≡ true
unfolding strncmp_eq
prefix_from [] rest = refl
prefix_from (c ∷ cs) rest = ground (arith, prefix_from cs rest)

module _ (Y : Fyaml) where
  pub has_include_tag-scalar :
      (node : Y.Node) (tag : Text)
      → Y.is_scalar node ≡ true
      → Y.get_tag node ≡ some tag
      → has_include_tag Y node ≡ strncmp_eq tag (b'!' ∷ include_word) (length tag)
  unfolding has_include_tag
  has_include_tag-scalar node tag scalar tagged =
      rw (tagged, scalar, has_include_tag)
        (elim (strncmp_eq tag (b'!' ∷ include_word) (length tag))
          as (λ (b : Bool). (b && true) ≡ b) [ true ↦ refl | false ↦ refl ])

  pub has_include_tag-other :
      (node : Y.Node) → Y.is_scalar node ≡ false → has_include_tag Y node ≡ false
  unfolding has_include_tag
  has_include_tag-other node other = elim (Option-cases (Y.get_tag node)) [
    | inl untagged ↦ rw (untagged, has_include_tag) refl
    | inr (tag, tagged) ↦
        rw (tagged, other, has_include_tag)
          (elim (strncmp_eq tag (b'!' ∷ include_word) (length tag))
            as (λ (b : Bool). (b && false) ≡ false) [ true ↦ refl | false ↦ refl ])
  ]

-- A tag that is a part of "!include" at its front, on a scalar.
abbrev pub IsIncludeTag : (Y : Fyaml) → Y.Node → Type 0
IsIncludeTag Y node =
    (Y.is_scalar node ≡ true)
    × (tag : Text) × (Y.get_tag node ≡ some tag)
    × IsPrefix tag (b'!' ∷ include_word)

-- The tag of a node makes it an include exactly where the node is a scalar and has a tag of which
-- "!include" is a continuation.
pub has_include_tag-IsPrefix :
    (Y : Fyaml) (node : Y.Node) → (has_include_tag Y node ≡ true) ↔ IsIncludeTag Y node
unfolding has_include_tag
has_include_tag-IsPrefix Y node = (to, from)
  where
    to : has_include_tag Y node ≡ true → IsIncludeTag Y node
    to h = elim (Option-cases (Y.get_tag node)) [
      | inl untagged ↦ absurd (cc (rw (untagged, has_include_tag) at h))
      | inr (tag, tagged) ↦ elim (Bool-cases (Y.is_scalar node)) [
        | inl scalar ↦ (
          scalar,
          tag,
          tagged,
          prefix_to tag (b'!' ∷ include_word)
              (sym (has_include_tag-scalar Y node tag scalar tagged) ∙ h),
        )
        | inr other ↦ absurd (cc (h, has_include_tag-other Y node other))
      ]
    ]

    from : IsIncludeTag Y node → has_include_tag Y node ≡ true
    from (scalar, tag, tagged, (rest, e)) =
        has_include_tag-scalar Y node tag scalar tagged ∙ rw (← e) (prefix_from tag rest)
