-- ===== src/Portable/Intact.antt =====
-- What a restore of aoms/portable.py has checked before it writes anything.
use cortex_mem.Prelude.{
  ◌≤◌, ℕ, String, ◌≡◌, ◌≢◌, refl, sym, ap, ◌∙◌, inl, inr, Option, none, some, List, [], arith, ltb,
  ◌==◌, string_eq, nat_eq, option_eq, ==→eq, Bool-cases, List-cases,
}
use cortex_mem.Errors.{Result-cases, raise-ne-ok, ok, ok-inj}
use cortex_mem.Portable.{
  Formats, Database, FileEntry, Manifest, ManifestFile, parsed, missing, malformed, not_an_object,
  Directory, Place, absent, other_file, directory, Counts, export_format, records_file,
  receipts_file, contests_file, write_receipts_file,
}
use cortex_mem.Portable.Accept.{
  latest_schema_version, get, manifest_fields, load_manifest, Sections, open_source, read_sections,
  check_sections, check_target, accept,
}
use cortex_mem.Portable.Restore.{restore_bundle}
use cortex_mem.Portable.Checks.{
  IsIntact, IsIntactIf, section-IsIntact, optional-IsIntactIf, read_sections-records,
  read_sections-receipts, read_sections-contests, read_sections-writes, check_sections-records,
  check_sections-schema, check_schema-supported, read_sections-schema, check_sections-receipts,
  check_sections-contests, check_sections-writes,
}

-- An export of this format and of a schema that is supported, in which the two files that a manifest
-- must list are intact, and so are the two newer ones that it may list.
pub record IsBundle (formats : Formats) (d : Directory) : Type 0 where
  pub m : Manifest
  pub files : List (String × FileEntry)
  pub manifest : d.manifest ≡ parsed m
  pub format : m.format ≡ some export_format
  pub version : m.format_version ≡ some 1
  pub lists : m.files ≡ some files
  pub schema : (v : ℕ) × (m.database_schema_version ≡ some v) × (v ≤ latest_schema_version)
  pub records :
      IsIntact formats formats.memory.validate (get records_file d.files) (get records_file files)
  pub receipts :
      IsIntact formats formats.recall.validate (get receipts_file d.files) (get receipts_file files)
  pub contests :
      IsIntactIf formats formats.contest.validate
        (get contests_file d.files)
        (get contests_file files)
  pub write_receipts :
      IsIntactIf formats formats.write.validate
        (get write_receipts_file d.files)
        (get write_receipts_file files)

manifest_fields-some :
    (m : Manifest) (o : Option (List (String × FileEntry)))
    (found : Manifest × List (String × FileEntry))
    → manifest_fields m o ≡ ok found
    → (m ≡ found.0) × (o ≡ some found.1)
manifest_fields-some m none found h = absurd (raise-ne-ok h)
manifest_fields-some m (some files) found h =
    let e = ok-inj h in
    (
      ap (λ (x : Manifest × List (String × FileEntry)). x.0) e,
      ap (λ (x : Manifest × List (String × FileEntry)). some x.1) e,
    )

load_manifest-parsed :
    (file : ManifestFile) (m : Manifest) (files : List (String × FileEntry))
    → load_manifest file ≡ ok (m, files)
    → (file ≡ parsed m)
      × (m.format ≡ some export_format)
      × (m.format_version ≡ some 1)
      × (m.files ≡ some files)
unfolding load_manifest
load_manifest-parsed missing m files h = absurd (raise-ne-ok h)
load_manifest-parsed malformed m files h = absurd (raise-ne-ok h)
load_manifest-parsed not_an_object m files h = absurd (raise-ne-ok h)
load_manifest-parsed (parsed n) m files h = elim (Bool-cases (n.format == some export_format)) [
  | inr other ↦ absurd (raise-ne-ok (rw other at h))
  | inl format ↦ elim (Bool-cases (n.format_version == some 1)) [
    | inr other ↦ absurd (raise-ne-ok (rw (format, other) at h))
    | inl version ↦
        let (n_is, lists) = manifest_fields-some n n.files (m, files) (rw (format, version) at h) in
        (
          ap parsed n_is,
          sym (ap (λ (x : Manifest). x.format) n_is) ∙ ==→eq n.format (some export_format) format,
          sym (ap (λ (x : Manifest). x.format_version) n_is)
              ∙ ==→eq n.format_version (some 1) version,
          sym (ap (λ (x : Manifest). x.files) n_is) ∙ lists,
        )
  ]
]

read_sections-loaded :
    (formats : Formats) (d : Directory) (s : Sections)
    → read_sections formats d ≡ ok s
    → (m : Manifest) × (files : List (String × FileEntry)) × (load_manifest d.manifest
        ≡ ok (m, files))
unfolding read_sections
read_sections-loaded formats d s h = elim (Result-cases (load_manifest d.manifest)) [
  | inl (e, bad) ↦ absurd (raise-ne-ok (rw bad at h))
  | inr (found, good) ↦ (found.0, found.1, good)
]

checked-IsBundle :
    (formats : Formats) (d : Directory) (s : Sections) (c : Counts)
    → read_sections formats d ≡ ok s
    → check_sections formats s ≡ ok c
    → IsBundle formats d
checked-IsBundle formats d s c h k =
    let (m, files, loaded) = read_sections-loaded formats d s h in
    let (is_parsed, format, version, lists) = load_manifest-parsed d.manifest m files loaded in
    let (n0, n0_is, same0) = check_sections-records formats s c k in
    let (n1, n1_is, same1) = check_sections-receipts formats s c k in
    let (n2, n2_is, same2) = check_sections-contests formats s c k in
    let (n3, n3_is, same3) = check_sections-writes formats s c k in
    record {
      m = m;
      files = files;
      manifest = is_parsed;
      format = format;
      version = version;
      lists = lists;
      schema =
          let (v, version_is, supported) =
            check_schema-supported formats s.schema_version (check_sections-schema formats s c k) in
          (v, sym (read_sections-schema formats d s h m files loaded) ∙ version_is, supported);
      records =
          section-IsIntact formats formats.memory.validate (get records_file d.files)
            (get records_file files) s.records n0
            (read_sections-records formats d s h m files loaded) n0_is same0;
      receipts =
          section-IsIntact formats formats.recall.validate (get receipts_file d.files)
            (get receipts_file files) s.receipts n1
            (read_sections-receipts formats d s h m files loaded) n1_is same1;
      contests =
          optional-IsIntactIf formats formats.contest.validate (get contests_file d.files)
            (get contests_file files) s.contests n2
            (read_sections-contests formats d s h m files loaded) n2_is same2;
      write_receipts =
          optional-IsIntactIf formats formats.write.validate (get write_receipts_file d.files)
            (get write_receipts_file files) s.write_receipts n3
            (read_sections-writes formats d s h m files loaded) n3_is same3;
    }

abbrev pub Accepts : Formats → ℕ → Place → Database → Type 0
Accepts formats size place e =
    (1 ≤ size)
    × (d : Directory) × (place ≡ directory d)
    × IsBundle formats d
    × (e.tables.memories ≡ [])
    × (e.recall_receipts ≡ [])

accept-Accepts :
    (formats : Formats) (size : ℕ) (place : Place) (e : Database) (found : Counts × Sections)
    → accept formats size place e ≡ ok found
    → Accepts formats size place e
unfolding accept open_source check_target
accept-Accepts formats size absent e found h = elim (Bool-cases (ltb size 1)) [
  | inl small ↦ absurd (raise-ne-ok (rw small at h))
  | inr big ↦ absurd (raise-ne-ok (rw big at h))
]
accept-Accepts formats size other_file e found h = elim (Bool-cases (ltb size 1)) [
  | inl small ↦ absurd (raise-ne-ok (rw small at h))
  | inr big ↦ absurd (raise-ne-ok (rw big at h))
]
accept-Accepts formats size (directory d) e found h = elim (Bool-cases (ltb size 1)) [
  | inl small ↦ absurd (raise-ne-ok (rw small at h))
  | inr big ↦ elim (Result-cases (read_sections formats d)) [
    | inl (x, bad) ↦ absurd (raise-ne-ok (rw (big, bad) at h))
    | inr (s, read) ↦ elim (Result-cases (check_sections formats s)) [
      | inl (x, bad) ↦ absurd (raise-ne-ok (rw (big, read, bad) at h))
      | inr (c, checked) ↦ (
        ground arith,
        d,
        refl,
        checked-IsBundle formats d s c read checked,
        elim (List-cases e.tables.memories) [
          | inl none_left ↦ none_left
          | inr (x, xs, some_left) ↦ absurd (raise-ne-ok (rw (big, read, checked, some_left) at h))
        ],
        ground (arith, big, read, checked),
      )
    ]
  ]
]

-- A restore changes the store only where its checks have passed: the batch size is at least 1, the
-- source is a directory with a manifest of this format and version, whose schema is supported, the
-- target has neither a record nor a recall receipt, and the files of the records and of the recall
-- receipts are intact, and so are those of the contests and of the write receipts where the manifest
-- lists them. An intact file has the digest, the size and the number of lines that the manifest gives,
-- and each line of it validates and is not blank.
pub restore_bundle-IsBundle :
    (formats : Formats) (now size : ℕ) (place : Place) (e : Database)
    → (restore_bundle formats now size place e).1 ≢ e
    → (1 ≤ size)
      × (d : Directory) × (place ≡ directory d)
      × IsBundle formats d
      × (e.tables.memories ≡ [])
      × (e.recall_receipts ≡ [])
unfolding restore_bundle
restore_bundle-IsBundle formats now size place e changed =
    elim (Result-cases (accept formats size place e)) [
      | inl (x, bad) ↦ absurd (changed (rw bad refl))
      | inr (found, good) ↦ accept-Accepts formats size place e found good
    ]
