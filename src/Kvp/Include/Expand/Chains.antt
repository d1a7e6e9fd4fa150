-- ===== src/Kvp/Include/Expand/Chains.antt =====
-- src/ut_kvp.c: files that are one include of the next, in a row or in a circle.
use ut_control.Base.{
  ℕ, zero, suc, ◌<◌, lt→ltb, ltb→lt, ◌≡◌, refl, ap, ◌∙◌, true, false, Option, none, some, ◌>>=◌,
  ltb, if◌then◌else◌, arith, Bool-cases, inl, inr,
}
use ut_control.CString.{Text}
use ut_control.Kvp.Include.Tree.{Tree, World, scalar, is_include_tag, expansion, expand_tree}

-- A tree with no include that would be replaced, at any level.
abbrev pub IsUnchanged : World → Tree → Type 0
IsUnchanged w u = (room : ℕ) → expansion w (suc room) u ≡ some u

-- `Chain w u t k`: `t` includes a file that includes a file …, `k` of them, the last being `u`.
pub data Chain (w : World) (u : Tree) : Tree → ℕ → Type 0 where
  whole : Chain w u u 0
  link :
      {t : Tree} {k : ℕ} (tag text : Option Text) (name : Text)
      → is_include_tag tag ≡ true
      → w.source name ≡ some t
      → Chain w u t k
      → Chain w u (scalar tag text (some name)) (suc k)

expansion-link :
    (w : World) (tag text : Option Text) (name : Text) (t : Tree) (room : ℕ)
    → is_include_tag tag ≡ true
    → w.source name ≡ some t
    → expansion w (suc room) (scalar tag text (some name))
      ≡ (expansion w room t >>= expansion w room)
unfolding expansion expand_tree
expansion-link w tag text name t room tagged source = rw tagged (rw source refl)

expansion-IsUnchanged :
    (w : World) (u : Tree) (k room : ℕ) → IsUnchanged w u → k < room → expansion w room u ≡ some u
expansion-IsUnchanged w u k zero same h = absurd (omega arith)
expansion-IsUnchanged w u k (suc room) same h = same room

-- Such a tree has an expansion where more levels are allowed than it has includes.
pub expansion-Chain :
    (w : World) (u : Tree) {t : Tree} {k : ℕ} (room : ℕ)
    → IsUnchanged w u
    → Chain w u t k
    → expansion w room t ≡ (if ltb k room then some u else none)
unfolding expansion
expansion-Chain w u zero same whole = refl
expansion-Chain w u (suc room) same whole = rw (lt→ltb 0 (suc room) (omega arith)) (same room)
expansion-Chain w u zero same (link tag text name tagged source chain) = ground arith
expansion-Chain w u (suc room) same (link {t} {k} tag text name tagged source chain) =
    rw (expansion-link w tag text name t room tagged source, expansion-Chain w u room same chain)
      (elim (Bool-cases (ltb k room)) [
        | inl below ↦
            rw (below, lt→ltb (suc k) (suc room) (ground arith))
              (expansion-IsUnchanged w u k room same (ltb→lt k room below))
        | inr above ↦ ground arith
      ])

-- The tree is an include, and each file that is reached is an include of one of them again.
pub record IsEndless (w : World) (member : Tree → Type 0) : Type 0 where
  pub includes_next :
      (t : Tree)
      → member t
      → (tag : Option Text) × (text : Option Text) × (name : Text) × (next : Tree) × (t
          ≡ scalar tag text (some name))
        × (is_include_tag tag ≡ true)
        × (w.source name ≡ some next)
        × member next

-- Such a tree has no expansion, however many levels are allowed.
pub expansion-IsEndless :
    (w : World) (member : Tree → Type 0) (room : ℕ) (t : Tree)
    → IsEndless w member
    → member t
    → expansion w room t ≡ none
unfolding expansion
expansion-IsEndless w member zero t endless in_it = refl
expansion-IsEndless w member (suc room) t endless in_it =
    let (tag, text, name, next, is_link, tagged, source, next_in) = endless.includes_next t in_it in
    ap (expansion w (suc room)) is_link
    ∙ expansion-link w tag text name next room tagged source
    ∙ ap (λ (o : Option Tree). o >>= expansion w room)
        (expansion-IsEndless w member room next endless next_in)

-- A scalar without the tag is unchanged.
pub scalar-IsUnchanged :
    (w : World) (tag text string : Option Text)
    → is_include_tag tag ≡ false
    → IsUnchanged w (scalar tag text string)
unfolding expansion expand_tree
scalar-IsUnchanged w tag text string untagged room = rw untagged
