-- ===== src/Embed.antt =====
-- migration/embed.go, and RegisterMigrationFromFs of app/migration.go: the migrations of the *.sql files
-- of an embed.FS. The file system is a parameter.
pub mod Files
pub mod Order
mod Tests
use go_hypercube.Common.{
  ℕ, Bool, true, false, Option, none, some, List, [], ◌∷◌, ◌&&◌, not, if◌then◌else◌, Text, text_leb,
  sort,
}
use go_hypercube.Migrations.{Migration, name}
use go_hypercube.Namespaced.{Namespaced}
use go_hypercube.Registry.{Registered, RegisterError, register_migrations}
use go_hypercube.Plugins.{host_app_namespace}
use go_hypercube.Parser.Strings.{codes, has_suffix}
use go_hypercube.Parser.{ParseError, Parsed, ok, err, parse_raw_migration}

-- fs.DirEntry: Name and IsDir.
pub record DirEntry : Type 0 where
  pub entry_name : Text
  pub is_dir : Bool

-- embed.FS: ReadDir of the root, and ReadFile.
pub record EmbedFs : Type 0 where
  pub read_dir : Option (List DirEntry)
  pub read_file : Text → Option Text

pub data ExtractError : Type 0 where
  read_dir_failed : ExtractError
  read_failed : Text → ExtractError
  parse_failed : Text → ParseError → ExtractError

pub data Extracted : Type 0 where
  extracted : List Migration → Extracted
  failed : ExtractError → Extracted

-- The first loop of ExtractFromEmbedFs.
unfoldable pub sql_names : List DirEntry → List Text
sql_names [] = []
sql_names (e ∷ entries) =
    if not e.is_dir && has_suffix e.entry_name (codes ".sql")
    then e.entry_name ∷ sql_names entries
    else sql_names entries

abbrev pub prepend : Migration → Extracted → Extracted
prepend m (extracted ms) = extracted (m ∷ ms)
prepend m (failed e) = failed e

-- The rest of a round of the second loop, from the result of ParseRawMigration on.
abbrev pub add_parsed : Text → Parsed Migration → Extracted → Extracted
add_parsed fname (err e) rest = failed (parse_failed fname e)
add_parsed fname (ok m) rest = prepend m rest

-- What RegisterMigrationFromFs returns.
pub data FromFs : Type 0 where
  not_extracted : ExtractError → FromFs
  from_fs : Registered Migration → FromFs

module _ (lower : ℕ → ℕ) (files : EmbedFs) where
  abbrev pub parse_file : Text → Option Text → Extracted → Extracted
  parse_file fname none rest = failed (read_failed fname)
  parse_file fname (some content) rest =
      add_parsed fname (parse_raw_migration lower fname content) rest

  -- The second loop of ExtractFromEmbedFs.
  unfoldable pub parse_files : List Text → Extracted
  parse_files [] = extracted []
  parse_files (fname ∷ names) = parse_file fname (files.read_file fname) (parse_files names)

  abbrev pub extract_entries : Option (List DirEntry) → Extracted
  extract_entries none = failed read_dir_failed
  extract_entries (some entries) = parse_files (sort text_leb (sql_names entries))

  -- ExtractFromEmbedFs
  unfoldable pub extract_from_embed_fs : Extracted
  unfolding parse_files sql_names
  extract_from_embed_fs = extract_entries files.read_dir

  -- RegisterMigrationFromFs
  unfoldable pub register_migration_from_fs : List (Namespaced Migration) → FromFs
  unfolding extract_from_embed_fs
  register_migration_from_fs registry = elim extract_from_embed_fs [
    | failed e ↦ not_extracted e
    | extracted ms ↦ from_fs (register_migrations name host_app_namespace ms registry)
  ]
