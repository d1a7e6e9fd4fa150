-- ===== src/Kvp/Include/Source.antt =====
-- src/ut_kvp.c: the document that an include names, a download or a file.
use ut_control.Base.{
  ℕ, ◌≡◌, refl, true, false, Bool, ◌||◌, ◌++◌, ◌⊎◌, inl, inr, Bool-cases, arith, ◌&&◌, Option, none,
  some, List, [], ◌∷◌, ◌==◌, if◌then◌else◌, concat, length, take_full,
}
use ut_control.CString.{Text, strncmp_eq}
use ut_control.Kvp.Fyaml.{Fyaml}
use ut_control.Kvp.Download.{DownloadMemory}
use ut_control.Kvp.Download.Gather.{Gathered, transfer-Gathered}
use ut_control.Kvp.Include.{source_document, is_url, http_scheme, https_scheme, download, fetched}

-- All bytes that come for a URL.
abbrev pub downloaded : Fyaml → Text → List ℕ
downloaded Y url = concat (Y.curl_blocks url)

-- The document of a URL is parsed from all its bytes, where the transfer succeeds with the code 200
-- and they can be written to a temporary file.
abbrev pub downloaded_document : (Y : Fyaml) → Text → Option Y.Document
downloaded_document Y url =
    if Y.curl_ok url && (Y.response_code url == 200)
    then (if Y.tmpfile_ok && (Y.fwrite (downloaded Y url) == length (downloaded Y url))
        then Y.build_from_fp (downloaded Y url)
        else none)
    else none

-- A scheme and some more.
abbrev pub Begins : Text → Text → Type 0
Begins scheme name = (rest : Text) × (name ≡ scheme ++ rest)

abbrev pub IsUrl : Text → Type 0
IsUrl name = Begins http_scheme name ⊎ Begins https_scheme name

Begins-strncmp_eq : (s rest : Text) → strncmp_eq (s ++ rest) s (length s) ≡ true
unfolding strncmp_eq
Begins-strncmp_eq [] rest = refl
Begins-strncmp_eq (c ∷ cs) rest = ground (arith, Begins-strncmp_eq cs rest)

strncmp_eq-Begins : (name s : Text) → strncmp_eq name s (length s) ≡ true → Begins s name
unfolding strncmp_eq
strncmp_eq-Begins name [] h = (name, refl)
strncmp_eq-Begins [] (d ∷ ds) h = absurd (cc)
strncmp_eq-Begins (c ∷ cs) (d ∷ ds) h =
    let (rest, e) = strncmp_eq-Begins cs ds (ground arith) in
    let same : c ≡ d = ground arith in (rest, rw (same, e) refl)

module _ (Y : Fyaml) where
  IsUrl-is_url : (name : Text) → IsUrl name → is_url Y name ≡ true
  unfolding is_url
  IsUrl-is_url name (inl (rest, e)) = rw (e, Begins-strncmp_eq http_scheme rest) refl
  IsUrl-is_url name (inr (rest, e)) =
      rw (e, Begins-strncmp_eq https_scheme rest)
        (elim (strncmp_eq (https_scheme ++ rest) http_scheme 5)
          as (λ (b : Bool). (b || true) ≡ true) [ true ↦ refl | false ↦ refl ])

  is_url-IsUrl : (name : Text) → is_url Y name ≡ true → IsUrl name
  unfolding is_url
  is_url-IsUrl name h = elim (Bool-cases (strncmp_eq name http_scheme 5)) [
    | inl http ↦ inl (strncmp_eq-Begins name http_scheme http)
    | inr other ↦ inr (strncmp_eq-Begins name https_scheme (rw other at h))
  ]

  -- The document of a name: the download's, or the file's, where that can be opened.
  abbrev pub SourceOf : Text → Option Y.Document → Type 0
  SourceOf name doc =
      (IsUrl name × (doc ≡ downloaded_document Y name))
      ⊎ (¬ IsUrl name
          × (((Y.can_open name ≡ true) × (doc ≡ Y.build_from_file name))
              ⊎ ((Y.can_open name ≡ false) × (doc ≡ none))))

  fetched-Gathered :
      (body : List ℕ) (m : DownloadMemory)
      → Gathered body m
      → fetched Y m
        ≡ (if Y.tmpfile_ok && (Y.fwrite body == length body) then Y.build_from_fp body else none)
  unfolding fetched
  fetched-Gathered body m (held, size) =
      rw (held, fetched) (rw size (rw (take_full (length body) body (0 ∷ []) refl)))

  download_lem :
      (url : Text)
      → ((n : ℕ) → Y.malloc_ok n ≡ true)
      → Y.curl_init ≡ true
      → download Y url ≡ downloaded_document Y url
  unfolding download
  download_lem url enough init =
      let (m, e, g) =
        transfer-Gathered Y.malloc_ok (Y.curl_blocks url) []
          (record { memory = some (0 ∷ []); size = 0 }) enough (refl, refl) in
      rw (enough 1, init) (rw e (rw (fetched-Gathered (downloaded Y url) m g)))

  -- Where memory is never short and libcurl starts, the name of an include that is "http:" or "https:"
  -- and some more stands for the document that is parsed from exactly the bytes of the download, in
  -- the order of its blocks; there is none where the transfer fails, the response code is not 200 or
  -- the bytes do not go into a temporary file. Any other name stands for the file's document, and
  -- there is none where the file cannot be opened.
  pub source_document_lem :
      (name : Text)
      → ((n : ℕ) → Y.malloc_ok n ≡ true)
      → Y.curl_init ≡ true
      → SourceOf name (source_document Y name)
  unfolding source_document
  source_document_lem name enough init = elim (Bool-cases (is_url Y name)) [
    | inl url ↦ inl (is_url-IsUrl name url, rw url (download_lem name enough init))
    | inr file ↦ inr (
      (λ u. cc (file, IsUrl-is_url name u)),
      rw file (elim (Bool-cases (Y.can_open name)) [
        | inl found ↦ inl (found, rw found refl)
        | inr missing ↦ inr (missing, rw missing refl)
      ]),
    )
  ]
