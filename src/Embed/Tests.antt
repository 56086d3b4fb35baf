-- ===== src/Embed/Tests.antt =====
-- A file system with two migration files, in the wrong order, and two other entries.
use go_hypercube.Common.{
  ℕ, true, false, none, some, ◌≡◌, refl, ◌↔◌, List, [], ◌∷◌, ◌==◌, if◌then◌else◌, Option, Text,
  text_eq, text_beq, text_leb, sort, insert_sorted, contains,
}
use go_hypercube.Namespaced.{
  Namespaced, new_namespaced, items_of, get_namespace, get, contains_item,
}
use go_hypercube.Registry.{ok, check_batch, register_migrations}
use go_hypercube.Plugins.{host_app_namespace}
use go_hypercube.Migrations.{Migration, name}
use go_hypercube.Parser.{
  flush_statement, split_rest, statement_line, statement_lines, split_statements, flush_section,
  section_line, section_lines, check_sections, split_up_down, parse_raw_migration,
}
use go_hypercube.Parser.Strings.{
  codes, is_space, trim_left, trim_right, trim_space, has_prefix, has_suffix, lower_char, to_lower,
  width, drop_cr, scan_from, scan,
}
use go_hypercube.Embed.{
  DirEntry, EmbedFs, extracted, from_fs, sql_names, parse_files, extract_from_embed_fs,
  register_migration_from_fs,
}
use go_hypercube.Embed.Files.{Holds, extract_from_embed_fs_lem}
use go_hypercube.Embed.Order.{register_migration_from_fs-order}

abbrev same : ℕ → ℕ
same c = c

abbrev file : Text → DirEntry
file n = record { entry_name = n; is_dir = false }

abbrev content : Text
content = codes "-- +migrate up\nA\n-- +migrate down\nB"

abbrev read : Text → Option Text
read n =
    if n == codes "1.sql" then some content else if n == codes "2.sql" then some content else none

abbrev files : EmbedFs
files = record {
  read_dir = some (
      file (codes "2.sql")
      ∷ record { entry_name = codes "old.sql"; is_dir = true }
      ∷ file (codes "notes")
      ∷ file (codes "1.sql")
      ∷ []);
  read_file = read;
}

abbrev migration : Text → Migration
migration n = record { migration_name = n; up = codes "A" ∷ []; down = codes "B" ∷ [] }

abbrev both : List Migration
both = migration (codes "1.sql") ∷ migration (codes "2.sql") ∷ []

program : Unit {0}
unfolding is_space trim_left trim_right trim_space has_prefix has_suffix lower_char to_lower width
    drop_cr scan_from scan flush_statement split_rest statement_line statement_lines
    split_statements flush_section section_line section_lines check_sections split_up_down
    parse_raw_migration text_beq text_leb sort insert_sorted sql_names parse_files
    extract_from_embed_fs
program = tt

both_extracted : extract_from_embed_fs same files ≡ extracted both
unfolding program
both_extracted = refl

extract_from_embed_fs_lem_example :
    (extract_from_embed_fs same files ≡ extracted both) ↔ Holds same files both
extract_from_embed_fs_lem_example = extract_from_embed_fs_lem same files both

abbrev registered : List (Namespaced Migration)
registered =
    new_namespaced host_app_namespace (migration (codes "1.sql"))
    ∷ new_namespaced host_app_namespace (migration (codes "2.sql"))
    ∷ []

no_host : items_of {T = Migration} host_app_namespace [] ≡ []
unfolding items_of
no_host = refl

both_registered : register_migration_from_fs same files [] ≡ from_fs (ok registered)
unfolding program register_migration_from_fs register_migrations check_batch contains_item get
    contains
both_registered = refl

register_migration_from_fs-order_example :
    Holds same files (get_namespace name host_app_namespace registered)
register_migration_from_fs-order_example =
    register_migration_from_fs-order same files [] registered no_host both_registered
