-- ===== src/Embed/Files.antt =====
-- Which migrations ExtractFromEmbedFs of migration/embed.go returns, and in which order.
use go_hypercube.Common.{
  ℕ, ◌≡◌, refl, ap, ◌∙◌, ◌↔◌, Option, none, some, List, [], ◌∷◌, map, Text, text_leb, sort, subst,
  true, false, not, ◌&&◌, ◌++◌, ◌⊎◌, inl, inr, arith, Picks, none_left, taken, skipped, Bool-cases,
  if_cases, sym,
}
use go_hypercube.Migrations.{Migration, name}
use go_hypercube.Parser.{Parsed, ok, err, parse_raw_migration}
use go_hypercube.Parser.Strings.{codes, has_suffix}
use go_hypercube.Parser.Suffix.{has_suffix_lem}
use go_hypercube.Parser.Sound.{IsSound, parse_raw_migration-IsSound}
use go_hypercube.Embed.{
  DirEntry, EmbedFs, Extracted, extracted, failed, sql_names, add_parsed, parse_file, parse_files,
  extract_from_embed_fs, extract_entries,
}

-- The name of the entry ends in ".sql".
abbrev pub IsSql : DirEntry → Type 0
IsSql e = (stem : Text) × (e.entry_name ≡ stem ++ codes ".sql")

-- The names of the *.sql files of a directory, as it lists them: those of the entries that are not
-- directories and whose names end in ".sql".
abbrev pub SqlFiles : List DirEntry → List Text → Type 0
SqlFiles =
    Picks (λ e n. (n ≡ e.entry_name) × (e.is_dir ≡ false) × IsSql e)
      (λ e. (e.is_dir ≡ true) ⊎ ¬ IsSql e)

sql_names-SqlFiles : (entries : List DirEntry) → SqlFiles entries (sql_names entries)
unfolding sql_names
sql_names-SqlFiles [] = none_left
sql_names-SqlFiles (e ∷ entries) =
    let names = sql_names entries in
    let (ends, starts) = has_suffix_lem e.entry_name (codes ".sql") in
    let rest = sql_names-SqlFiles entries in
    if_cases (SqlFiles (e ∷ entries)) (not e.is_dir && has_suffix e.entry_name (codes ".sql"))
      (e.entry_name ∷ names) names
      (λ on. taken e e.entry_name entries names (refl, ground arith, ends (ground arith)) rest)
      (λ off.
        skipped e entries names
          (elim (Bool-cases e.is_dir) [
            | inl dir ↦ inl dir
            | inr file ↦ inr (λ h. absurd (ground (arith, off, file, starts h)))
          ])
          rest)

SqlFiles-sql_names :
    (entries : List DirEntry) (names : List Text)
    → SqlFiles entries names
    → names ≡ sql_names entries
unfolding sql_names
SqlFiles-sql_names _ _ none_left = refl
SqlFiles-sql_names _ _ (taken e n entries names take p) =
    let (_, starts) = has_suffix_lem e.entry_name (codes ".sql") in
    rw (take.1, starts take.2, take.0)
      (ap (λ l. e.entry_name ∷ l) (SqlFiles-sql_names entries names p))
SqlFiles-sql_names _ _ (skipped e entries names (inl dir) p) =
    rw dir (SqlFiles-sql_names entries names p)
SqlFiles-sql_names _ _ (skipped e entries names (inr other) p) =
    let (ends, _) = has_suffix_lem e.entry_name (codes ".sql") in
    elim (Bool-cases (has_suffix e.entry_name (codes ".sql"))) [
      | inl on ↦ absurd (other (ends on))
      | inr off ↦ ground (arith, off, SqlFiles-sql_names entries names p)
    ]

module _ (lower : ℕ → ℕ) (files : EmbedFs) where
  -- The file is read, and its text parses as this migration.
  abbrev pub ReadsAs : Text → Migration → Type 0
  ReadsAs fname m =
      (content : Text) × (files.read_file fname ≡ some content)
      × (parse_raw_migration lower fname content ≡ ok m)

  -- The files read as these migrations, one by one.
  abbrev pub ReadAs : List Text → List Migration → Type 0
  ReadAs [] [] = Unit
  ReadAs [] (m ∷ ms) = ⊥
  ReadAs (n ∷ names) [] = ⊥
  ReadAs (n ∷ names) (m ∷ ms) = ReadsAs n m × ReadAs names ms

  add_parsed-ReadAs :
      (fname content : Text) (names : List Text)
      → files.read_file fname ≡ some content
      → (p : Parsed Migration) (rest : Extracted) (ms : List Migration)
      → parse_raw_migration lower fname content ≡ p
      → ((ms' : List Migration) → rest ≡ extracted ms' → ReadAs names ms')
      → add_parsed fname p rest ≡ extracted ms
      → ReadAs (fname ∷ names) ms
  add_parsed-ReadAs fname content names r (err e) rest ms q ih h = absurd (cc (h))
  add_parsed-ReadAs fname content names r (ok m) (failed e) ms q ih h = absurd (cc (h))
  add_parsed-ReadAs fname content names r (ok m) (extracted ms') [] q ih h = absurd (cc (h))
  add_parsed-ReadAs fname content names r (ok m) (extracted ms') (n ∷ ms) q ih h =
      ((content, r, q ∙ ap ok (cc (h))), ih ms (ap extracted (cc (h))))

  parse_files-ReadAs :
      (names : List Text) (ms : List Migration)
      → parse_files lower files names ≡ extracted ms
      → ReadAs names ms
  unfolding parse_files
  parse_files-ReadAs [] [] h = tt
  parse_files-ReadAs [] (m ∷ ms) h = absurd (cc (h))
  parse_files-ReadAs (fname ∷ names) ms h =
      go (parse_files-ReadAs names) (files.read_file fname) refl h
    where
      go :
          ((ms' : List Migration)
            → parse_files lower files names ≡ extracted ms'
            → ReadAs names ms')
          → (o : Option Text) → files.read_file fname ≡ o
          → parse_file lower files fname o (parse_files lower files names) ≡ extracted ms
          → ReadAs (fname ∷ names) ms
      go ih none r q = absurd (cc (q))
      go ih (some content) r q =
          add_parsed-ReadAs fname content names r (parse_raw_migration lower fname content)
            (parse_files lower files names) ms refl ih q

  ReadAs-parse_files :
      (names : List Text) (ms : List Migration)
      → ReadAs names ms
      → parse_files lower files names ≡ extracted ms
  unfolding parse_files
  ReadAs-parse_files [] [] h = refl
  ReadAs-parse_files [] (m ∷ ms) h = absurd h
  ReadAs-parse_files (fname ∷ names) [] h = absurd h
  ReadAs-parse_files (fname ∷ names) (m ∷ ms) h =
      ap (λ o. parse_file lower files fname o (parse_files lower files names)) h.0.1
      ∙ ap (λ p. add_parsed fname p (parse_files lower files names)) h.0.2
      ∙ ap (add_parsed fname (ok m)) (ReadAs-parse_files names ms h.1)

  -- What the directory holds, and what its *.sql files read as, in the order of their names.
  abbrev pub Holds : List Migration → Type 0
  Holds ms =
      (entries : List DirEntry) × (files.read_dir ≡ some entries)
      × ((names : List Text) × SqlFiles entries names × ReadAs (sort text_leb names) ms)

  -- The migrations that are extracted are what the *.sql files of the root read as, one for each file
  -- and in the order of the file names; there is no result exactly when the directory or a file
  -- cannot be read, or a file does not parse.
  pub extract_from_embed_fs_lem :
      (ms : List Migration) → (extract_from_embed_fs lower files ≡ extracted ms) ↔ Holds ms
  unfolding extract_from_embed_fs
  extract_from_embed_fs_lem ms = (
    go files.read_dir refl,
    λ h.
        ap (extract_entries lower files) h.1
        ∙ ap (λ l. parse_files lower files (sort text_leb l))
            (sym (SqlFiles-sql_names h.0 h.2.0 h.2.1))
        ∙ ReadAs-parse_files (sort text_leb h.2.0) ms h.2.2,
  )
    where
      go :
          (o : Option (List DirEntry))
          → files.read_dir ≡ o
          → extract_entries lower files o ≡ extracted ms
          → Holds ms
      go none r q = absurd (cc (q))
      go (some entries) r q = (
        entries,
        r,
        (
          sql_names entries,
          sql_names-SqlFiles entries,
          parse_files-ReadAs (sort text_leb (sql_names entries)) ms q,
        ),
      )

  -- The migrations that are extracted are named after the files, in the order of the names.
  pub ReadAs-names :
      (names : List Text) (ms : List Migration) → ReadAs names ms → map name ms ≡ names
  ReadAs-names [] [] h = refl
  ReadAs-names [] (m ∷ ms) h = absurd h
  ReadAs-names (n ∷ names) [] h = absurd h
  ReadAs-names (n ∷ names) (m ∷ ms) h =
      let sound = subst (IsSound lower n) h.0.2 (parse_raw_migration-IsSound lower n h.0.0) in
      cc (sound.0, ReadAs-names names ms h.1)
