-- ===== src/Kvp/Download/Gather.antt =====
-- src/ut_kvp.c: the calls of `write_memory_callback` in one download.
use ut_control.Base.{
  concat, ℕ, ◌+◌, ◌≡◌, refl, ap, sym, Bool, true, some, List, [], ◌∷◌, ◌++◌, arith, ◌==◌, length,
  length-append, append_assoc, append-nil, take_full,
}
use ut_control.Kvp.Download.{DownloadMemory, grow, taken, write_memory_callback, transfer}

-- The memory holds `received` and a NUL behind it; `size` does not count the NUL.
abbrev pub Gathered : List ℕ → DownloadMemory → Type 0
Gathered received m = (m.memory ≡ some (received ++ 0 ∷ [])) × (m.size ≡ length received)

grow_lem :
    (received block : List ℕ)
    → grow (some (received ++ 0 ∷ [])) (length received) block ≡ (received ++ block) ++ 0 ∷ []
unfolding grow
grow_lem received block =
    rw (take_full (length received) received (0 ∷ []) refl)
      (sym (append_assoc received block (0 ∷ [])))

one_block :
    (malloc_ok : ℕ → Bool) (received block : List ℕ) (m : DownloadMemory)
    → ((n : ℕ) → malloc_ok n ≡ true)
    → Gathered received m
    → (m' : DownloadMemory) × (taken malloc_ok block
          (write_memory_callback malloc_ok (some block) (some m))
        ≡ some m')
      × Gathered (received ++ block) m'
unfolding taken write_memory_callback
one_block malloc_ok received block m ok (held, size) = (
  record { memory = some (grow m.memory m.size block); size = m.size + length block },
  accepted,
  (
    rw (held, size) (ap some (grow_lem received block)),
    omega (arith, length-append received block),
  ),
)
  where
    whole : (length block == length block) ≡ true
    whole = ground arith

    accepted :
        taken malloc_ok block (write_memory_callback malloc_ok (some block) (some m))
        ≡ some (record { memory = some (grow m.memory m.size block); size = m.size + length block })
    accepted = rw (ok (m.size + length block + 1)) (rw (whole, taken) refl)

-- Where memory is found for every block, the callback takes all the bytes of a download: memory
-- that held received bytes and a NUL then holds those, the blocks behind them, in order, and a NUL,
-- and `size` is the number of bytes in front of that NUL.
pub transfer-Gathered :
    (malloc_ok : ℕ → Bool) (blocks : List (List ℕ)) (received : List ℕ) (m : DownloadMemory)
    → ((n : ℕ) → malloc_ok n ≡ true)
    → Gathered received m
    → (m' : DownloadMemory) × (transfer malloc_ok blocks m ≡ some m')
      × Gathered (received ++ concat blocks) m'
unfolding transfer
transfer-Gathered malloc_ok [] received m ok g = (m, refl, rw (append-nil received) g)
transfer-Gathered malloc_ok (block ∷ blocks) received m ok g =
    let (m₁, takes, g₁) = one_block malloc_ok received block m ok g in
    let (m₂, rest, g₂) = transfer-Gathered malloc_ok blocks (received ++ block) m₁ ok g₁ in
    (m₂, rw (takes, transfer) rest, rw (← append_assoc received block (concat blocks)) g₂)
