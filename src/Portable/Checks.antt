-- ===== src/Portable/Checks.antt =====
-- What the checks of aoms/portable.py say of a bundle that passes them.
use cortex_mem.Prelude.{
  ltb, ◌≤◌, ℕ, suc, String, ◌≡◌, refl, sym, ap, ◌∙◌, subst, ◌⊎◌, inl, inr, false, Option, none,
  some, List, [], ◌∷◌, arith, length, All, ◌==◌, string_eq, nat_eq, option_eq, ==→eq, Option-cases,
  Bool-cases,
}
use cortex_mem.Errors.{Result-cases, raise-ne-ok, ok, ok-inj, bind-returns}
use cortex_mem.Contracts.Validate.{strip}
use cortex_mem.Portable.{
  Formats, FileEntry, invalid_entry, file_entry, Manifest, Directory, Counts, records_file,
  receipts_file, contests_file, write_receipts_file,
}
use cortex_mem.Portable.Accept.{
  check_schema, latest_schema_version, get, load_manifest, Section, validate_file, optional_file,
  validate_jsonl, validate_if, Sections, same_count, same_count_if, read_sections, check_sections,
}

abbrev pub Readable : {A : Type 0} → (String → Option A) → String → Type 0
Readable {A} validate line = ((strip line == "") ≡ false) × (a : A) × (validate line ≡ some a)

module _ (formats : Formats) where
  -- The manifest's entry gives the digest, the size and the number of the lines.
  abbrev pub Describes : Option FileEntry → List String → Type 0
  Describes entry lines =
      entry
      ≡ some (
          file_entry (some (formats.sha256 lines)) (some (formats.byte_count lines))
            (some (length lines)))

  -- A file of the bundle that its manifest describes, and that has only lines that can be read.
  pub record IsIntact {A : Type 0} (validate : String → Option A) (file : Option (List String))
      (entry : Option FileEntry) : Type 0 where
    pub lines : List String
    pub stands : file ≡ some lines
    pub described : Describes entry lines
    pub readable : All (Readable validate) lines

module _ {A : Type 0} (validate : String → Option A) where
  validate_jsonl-cons :
      (line : String) (lines : List String) (count : ℕ)
      → validate_jsonl validate (line ∷ lines) ≡ ok count
      → Readable validate line
        × (rest : ℕ) × (validate_jsonl validate lines ≡ ok rest)
        × (count ≡ suc rest)
  unfolding validate_jsonl
  validate_jsonl-cons line lines count h = elim (Bool-cases (strip line == "")) [
    | inl blank ↦ absurd (raise-ne-ok (rw blank at h))
    | inr full ↦ elim (Option-cases (validate line)) [
      | inl e ↦ absurd (raise-ne-ok (rw (full, e) at h))
      | inr (a, e) ↦
          let (rest, counted, more) =
            bind-returns (validate_jsonl validate lines) (λ n. ok (suc n)) (rw (full, e) at h) in
          ((full, a, e), rest, counted, sym (ok-inj more))
    ]
  ]

  validate_jsonl-Readable :
      (lines : List String) (count : ℕ)
      → validate_jsonl validate lines ≡ ok count
      → All (Readable validate) lines × (count ≡ length lines)
  unfolding validate_jsonl
  validate_jsonl-Readable [] count h = (tt, sym (ok-inj h))
  validate_jsonl-Readable (line ∷ lines) count h =
      let (first, rest, counted, more) = validate_jsonl-cons line lines count h in
      let (all_rest, e) = validate_jsonl-Readable lines rest counted in
      ((first, all_rest), more ∙ ap suc e)

module _ (formats : Formats) where
  validate_file-Describes :
      (file : Option (List String)) (entry : Option FileEntry) (s : Section)
      → validate_file formats file entry ≡ ok s
      → (file ≡ some s.0)
        × (entry
            ≡ some (file_entry (some (formats.sha256 s.0)) (some (formats.byte_count s.0)) s.1))
  unfolding validate_file
  validate_file-Describes file none s h = absurd (raise-ne-ok h)
  validate_file-Describes file (some invalid_entry) s h = absurd (raise-ne-ok h)
  validate_file-Describes none (some (file_entry sha bytes records)) s h = absurd (raise-ne-ok h)
  validate_file-Describes (some lines) (some (file_entry sha bytes records)) s h =
      elim (Bool-cases (some (formats.sha256 lines) == sha)) [
        | inr ne ↦ absurd (raise-ne-ok (rw ne at h))
        | inl sha_eq ↦ elim (Bool-cases (some (formats.byte_count lines) == bytes)) [
          | inr ne ↦ absurd (raise-ne-ok (rw (sha_eq, ne) at h))
          | inl bytes_eq ↦
              let e : (lines, records) ≡ s = ok-inj (rw (sha_eq, bytes_eq) at h) in
              let a = ==→eq (some (formats.sha256 lines)) sha sha_eq in
              let b = ==→eq (some (formats.byte_count lines)) bytes bytes_eq in
              subst
                (λ (x : Section).
                  (some lines ≡ some x.0)
                  × (some (file_entry sha bytes records)
                      ≡ some (
                          file_entry (some (formats.sha256 x.0)) (some (formats.byte_count x.0))
                            x.1)))
                e (refl, rw (sym a, sym b) refl)
        ]
      ]

  -- what the manifest and the files of the bundle give
  module _ (d : Directory) (s : Sections) (h : read_sections formats d ≡ ok s) (m : Manifest)
      (files : List (String × FileEntry)) (loaded : load_manifest d.manifest ≡ ok (m, files)) where
    pub read_sections-schema : s.schema_version ≡ m.database_schema_version
    unfolding read_sections
    read_sections-schema = ground (arith, loaded)

    pub read_sections-records :
        validate_file formats (get records_file d.files) (get records_file files) ≡ ok s.records
    unfolding read_sections
    read_sections-records = ground (arith, loaded)

    pub read_sections-receipts :
        validate_file formats (get receipts_file d.files) (get receipts_file files) ≡ ok s.receipts
    unfolding read_sections
    read_sections-receipts = ground (arith, loaded)

    pub read_sections-contests :
        optional_file formats (get contests_file d.files) (get contests_file files) ≡ ok s.contests
    unfolding read_sections
    read_sections-contests = ground (arith, loaded)

    pub read_sections-writes :
        optional_file formats (get write_receipts_file d.files) (get write_receipts_file files)
        ≡ ok s.write_receipts
    unfolding read_sections
    read_sections-writes = ground (arith, loaded)

  -- A section that was read and counted comes from an intact file.
  pub section-IsIntact :
      {A : Type 0} (validate : String → Option A) (file : Option (List String))
      (entry : Option FileEntry) (s : Section) (count : ℕ)
      → validate_file formats file entry ≡ ok s
      → validate_jsonl validate s.0 ≡ ok count
      → same_count count s ≡ ok tt
      → IsIntact formats validate file entry
  unfolding same_count
  section-IsIntact validate file entry s count read counted same =
      let (stands, described) = validate_file-Describes file entry s read in
      let (readable, e) = validate_jsonl-Readable validate s.0 count counted in
      let n : some (length s.0) ≡ s.1 =
        ap some (sym e)
        ∙ ==→eq (some count) s.1 (elim (Bool-cases (some count == s.1)) [
          | inl eq ↦ eq
          | inr ne ↦ absurd (raise-ne-ok (rw ne at same))
        ]) in
      record { lines = s.0; stands = stands; described = rw n described; readable = readable }

  abbrev pub IsIntactIf :
      {A : Type 0} → (String → Option A) → Option (List String) → Option FileEntry → Type 0
  IsIntactIf validate file entry = (entry ≡ none) ⊎ IsIntact formats validate file entry

  pub optional-IsIntactIf :
      {A : Type 0} (validate : String → Option A) (file : Option (List String))
      (entry : Option FileEntry) (s : Option Section) (count : ℕ)
      → optional_file formats file entry ≡ ok s
      → validate_if validate s ≡ ok count
      → same_count_if count s ≡ ok tt
      → IsIntactIf validate file entry
  unfolding optional_file validate_if same_count_if
  optional-IsIntactIf validate file none s count read counted same = inl refl
  optional-IsIntactIf validate file (some expected) s count read counted same =
      let (section, one, e) =
        bind-returns (validate_file formats file (some expected)) (λ section. ok (some section))
          read in
      let s_is : s ≡ some section = sym (ok-inj e) in
      inr (
        section-IsIntact validate file (some expected) section count one (rw s_is at counted)
          (rw s_is at same))

  -- the counts that the checks give
  module _ (s : Sections) (c : Counts) (h : check_sections formats s ≡ ok c) where
    pub check_sections-records :
        (n : ℕ) × (validate_jsonl formats.memory.validate s.records.0 ≡ ok n)
        × (same_count n s.records ≡ ok tt)
    unfolding check_sections
    check_sections-records =
        elim (Result-cases (validate_jsonl formats.memory.validate s.records.0)) [
          | inl (e, bad) ↦ absurd (ground (arith, bad))
          | inr (n, good) ↦ (n, good, ground (arith, good))
        ]

    pub check_sections-receipts :
        (n : ℕ) × (validate_jsonl formats.recall.validate s.receipts.0 ≡ ok n)
        × (same_count n s.receipts ≡ ok tt)
    unfolding check_sections
    check_sections-receipts =
        elim (Result-cases (validate_jsonl formats.recall.validate s.receipts.0)) [
          | inl (e, bad) ↦ absurd (ground (arith, bad))
          | inr (n, good) ↦ (n, good, ground (arith, good))
        ]

    pub check_sections-contests :
        (n : ℕ) × (validate_if formats.contest.validate s.contests ≡ ok n)
        × (same_count_if n s.contests ≡ ok tt)
    unfolding check_sections
    check_sections-contests =
        elim (Result-cases (validate_if formats.contest.validate s.contests)) [
          | inl (e, bad) ↦ absurd (ground (arith, bad))
          | inr (n, good) ↦ (n, good, ground (arith, good))
        ]

    pub check_sections-writes :
        (n : ℕ) × (validate_if formats.write.validate s.write_receipts ≡ ok n)
        × (same_count_if n s.write_receipts ≡ ok tt)
    unfolding check_sections
    check_sections-writes =
        elim (Result-cases (validate_if formats.write.validate s.write_receipts)) [
          | inl (e, bad) ↦ absurd (ground (arith, bad))
          | inr (n, good) ↦ (n, good, ground (arith, good))
        ]

    pub check_sections-schema : check_schema s.schema_version ≡ ok tt
    unfolding check_sections
    check_sections-schema =
        let (n0, first, _) = check_sections-records in
        let (n1, second, _) = check_sections-receipts in
        let (n2, third, _) = check_sections-contests in
        let (n3, fourth, _) = check_sections-writes in ground (arith, first, second, third, fourth)

  pub check_schema-supported :
      (version : Option ℕ)
      → check_schema version ≡ ok tt
      → (v : ℕ) × (version ≡ some v) × (v ≤ latest_schema_version)
  unfolding check_schema
  check_schema-supported none h = absurd (raise-ne-ok h)
  check_schema-supported (some v) h = elim (Bool-cases (ltb latest_schema_version v)) [
    | inl newer ↦ absurd (raise-ne-ok (rw newer at h))
    | inr supported ↦ (v, refl, ground arith)
  ]
