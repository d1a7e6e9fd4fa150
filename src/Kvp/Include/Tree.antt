-- ===== src/Kvp/Include/Tree.antt =====
-- src/ut_kvp.c: documents as trees, and what a document with includes stands for.
use ut_control.Base.{
  ℕ, zero, suc, Bool, true, false, ◌&&◌, Option, none, some, ◌∷◌, ◌>>=◌, if◌then◌else◌, length,
}
use ut_control.CString.{Text, strncmp_eq}
use ut_control.Kvp.Pattern.{find_pattern_from_buffer}
use ut_control.Kvp.Include.{include_word, is_some}

-- A scalar has what fy_node_get_tag and fy_node_get_scalar give of it: its tag, its bytes, and the
-- string that begins where they stand.
mutual
  pub data Tree : Type 0 where
    scalar : (tag text string : Option Text) → Tree
    sequence : Trees → Tree
    mapping : Pairs → Tree

  pub data Trees : Type 0 where
    nil : Trees
    cons : Tree → Trees → Trees

  pub data Pairs : Type 0 where
    end : Pairs
    pair : (key value : Tree) → Pairs → Pairs

abbrev pub is_scalar_tree : Tree → Bool
is_scalar_tree (scalar tag text string) = true
is_scalar_tree _ = false

abbrev pub is_mapping_tree : Tree → Bool
is_mapping_tree (mapping ps) = true
is_mapping_tree _ = false

abbrev pub is_sequence_tree : Tree → Bool
is_sequence_tree (sequence ts) = true
is_sequence_tree _ = false

abbrev pub text_of : Tree → Option Text
text_of (scalar tag text string) = text
text_of _ = none

abbrev pub c_string_of : Tree → Option Text
c_string_of (scalar tag text string) = string
c_string_of _ = none

abbrev pub entries_of : Tree → Trees
entries_of (sequence ts) = ts
entries_of _ = nil

abbrev pub pairs_of : Tree → Pairs
pairs_of (mapping ps) = ps
pairs_of _ = end

abbrev pub append_trees : Trees → Trees → Trees
append_trees nil us = us
append_trees (cons t ts) us = cons t (append_trees ts us)

-- What an expansion depends on: the trees of the files and downloads, the value of a mapping at a
-- key, a mapping with one more pair, and one with the pairs of another.
pub record World : Type 0 where
  pub source : Text → Option Tree
  pub lookup : Tree → Text → Option Tree
  pub put : (map key value : Tree) → Option Tree
  pub merge : (map other : Tree) → Option Tree

abbrev pub or_else : Option Tree → Option Tree → Option Tree
or_else none u = u
or_else (some t) u = some t

abbrev pub or_same : Tree → Option Tree → Tree
or_same t none = t
or_same t (some u) = u

abbrev pub maybe_cons : Option Tree → Trees → Trees
maybe_cons none ts = ts
maybe_cons (some t) ts = cons t ts

-- The tag is a part of "!include" at its front.
abbrev pub is_include_tag : Option Text → Bool
is_include_tag none = false
is_include_tag (some tag) = strncmp_eq tag (b'!' ∷ include_word) (length tag)

abbrev pub has_text : Tree → Bool
has_text t = is_some (text_of t)

-- The key has "include" somewhere.
abbrev pub names_include : Tree → Bool
names_include key = elim (text_of key) [
  | none ↦ false
  | some s ↦ is_some (find_pattern_from_buffer s include_word)
]

-- The file that a pair includes.
abbrev pub included_by_pair : (key value : Tree) → Option Text
included_by_pair key value = if has_text value && names_include key then c_string_of value else none

module _ (w : World) where
  -- The file that an entry of a sequence includes.
  abbrev pub included_by_entry : Tree → Option Text
  included_by_entry t =
      if is_mapping_tree t then (w.lookup t include_word >>= c_string_of) else none

  -- A mapping takes the pairs of a mapping only.
  abbrev pub merged : (map other : Tree) → Tree
  merged map other =
      if is_mapping_tree map && is_mapping_tree other then or_same map (w.merge map other) else map

  abbrev pub with_pair : (map key : Tree) → (included value : Option Tree) → Tree
  with_pair map key (some other) value = merged map other
  with_pair map key none none = map
  with_pair map key none (some v) = or_same map (w.put map key v)

  -- `inc` is the tree that a file's name stands for, where a pair includes it; where a scalar or an
  -- entry does, it is expanded once more.
  module _ (inc : Text → Option Tree) (again : Tree → Option Tree) where
    unfoldable mutual
      pub expand_tree : Tree → Option Tree
      expand_tree (scalar tag text string) =
          if is_include_tag tag then (string >>= inc >>= again) else some (scalar tag text string)
      expand_tree (sequence ts) = some (sequence (expand_entries ts))
      expand_tree (mapping ps) = some (expand_pairs ps (mapping end))

      pub expand_entries : Trees → Trees
      expand_entries nil = nil
      expand_entries (cons t ts) =
          maybe_cons (or_else (included_by_entry t >>= inc >>= again) (expand_tree t))
            (expand_entries ts)

      pub expand_pairs : Pairs → Tree → Tree
      expand_pairs end map = map
      expand_pairs (pair k v ps) map =
          expand_pairs ps (with_pair map k (included_by_pair k v >>= inc) (expand_tree v))

-- A tree with its includes, where `room` more levels of them are allowed; `none` is no tree.
unfoldable pub expansion : World → (room : ℕ) → Tree → Option Tree
expansion w zero t = none
expansion w (suc room) t =
    expand_tree w (λ name. w.source name >>= expansion w room) (expansion w room) t
