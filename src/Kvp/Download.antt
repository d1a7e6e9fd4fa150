-- ===== src/Kvp/Download.antt =====
-- src/ut_kvp.c: `write_memory_callback`, which gathers a download, and the transfer that calls it.
pub mod Gather
use ut_control.Base.{
  concat, ℕ, zero, suc, ◌+◌, ◌*◌, ◌-◌, ◌≤◌, ◌<◌, ◌≡◌, refl, ap, sym, ◌∙◌, Bool, true, false, ◌&&◌,
  Option, not, none, some, List, [], ◌∷◌, ◌++◌, arith, ltb, ◌==◌, if◌then◌else◌, length, take,
}

-- ut_kvp_download_memory_internal_t; `memory` is NULL or the bytes of the block.
pub record DownloadMemory : Type 0 where
  pub memory : Option (List ℕ)
  pub size : ℕ

-- The first `size` bytes of the block, the received bytes behind them, and a NUL.
grow : Option (List ℕ) → ℕ → List ℕ → List ℕ
grow none size contents = contents ++ 0 ∷ []
grow (some bytes) size contents = take size bytes ++ (contents ++ 0 ∷ [])

module _ (malloc_ok : ℕ → Bool) where
  -- `contents` is NULL or the `size * nmemb` bytes received; the result is the number of bytes that
  -- were taken.
  unfoldable pub write_memory_callback :
      Option (List ℕ) → Option DownloadMemory → ℕ × Option DownloadMemory
  unfolding grow
  write_memory_callback contents none = (0, none)
  write_memory_callback none (some m) = (0, some m)
  write_memory_callback (some contents) (some m) =
      if malloc_ok (m.size + length contents + 1)
      then (
        length contents,
        some (record {
          memory = some (grow m.memory m.size contents);
          size = m.size + length contents;
        }),
      )
      else (0, some (record { memory = none; size = 0 }))

  -- The calls of one download: curl_easy_perform hands the blocks over one by one, and ends with an error at the first of
  -- which not every byte is taken.
  taken : List ℕ → ℕ × Option DownloadMemory → Option DownloadMemory
  taken block (n, none) = none
  taken block (n, some m) = if n == length block then some m else none

  unfoldable pub transfer : List (List ℕ) → DownloadMemory → Option DownloadMemory
  unfolding taken write_memory_callback
  transfer [] m = some m
  transfer (block ∷ blocks) m = elim (taken block (write_memory_callback (some block) (some m))) [
    | none ↦ none
    | some m' ↦ transfer blocks m'
  ]
