-- ===== src/Core/State/Setup/Tests.antt =====
-- A manifest of three entries, out of order, and one whose parent is missing.
use apate.Core.Scripts.{add_directory, add_file, atomic_create, atomic_mkdir, bad_name, refusal}
use apate.Prelude.{
  add_char, rsplit, rstrip, concat, has_prefix, ℕ, String, ◌≡◌, refl, inl, Bool, true, false,
  Option, none, some, List, [], ◌∷◌, nat_eq, string_eq, is_some, has_code, is_empty, split,
}
use apate.Dict
use apate.Dict.{Dict}
use apate.Core.Namespace.{inode, hset, zscore, zadd, incr_inode, mode_of}
use apate.Core.Scripts.Tree.{IsWellFormed}
use apate.Core.State.{create_file, make_directory, parts, walk, resolve_path_sync}
use apate.Core.State.Setup.{
  ManifestEntry, empty_namespace, set_counter, make_root, dirname, basename, depth, insert_by_depth,
  sort_by_depth, keep_or, classify, default_mode, owned_by_profile, created_or_there, hset_found,
  settle, make_entry, make_entries, initialize_filesystem,
}
use apate.Core.State.Setup.Manifest.{initialize_filesystem-IsWellFormed}

abbrev entry_at : String → Bool → ManifestEntry
entry_at path is_directory = record {
  path = path;
  is_directory = is_directory;
  entry_class = "static";
  uid = none;
  gid = none;
  mode = none;
}

abbrev small_manifest : List ManifestEntry
small_manifest =
    entry_at "/etc/passwd" false
    ∷ entry_at "/" true
    ∷ entry_at "/tmp" true
    ∷ entry_at "/etc" true
    ∷ []

abbrev mode_at : String → List ManifestEntry → Option ℕ × Bool
unfolding initialize_filesystem make_entries make_entry settle created_or_there make_root
    set_counter sort_by_depth insert_by_depth depth dirname basename classify keep_or default_mode
    owned_by_profile hset_found resolve_path_sync walk parts create_file make_directory
    atomic_create atomic_mkdir refusal bad_name add_file add_directory inode hset zscore zadd
    incr_inode mode_of Dict.get Dict.put split add_char rsplit rstrip is_empty concat has_prefix
    has_code
mode_at path manifest =
    let made = initialize_filesystem "ubuntu" manifest 0 empty_namespace in
    let at = resolve_path_sync made.1 path in
    (elim at [ none ↦ none | some i ↦ some (mode_of made.1 i) ], is_some made.0)

file_mode : mode_at "/etc/passwd" small_manifest ≡ (some 33188, false)
unfolding mode_at
file_mode = refl

sticky_mode : mode_at "/tmp" small_manifest ≡ (some 17407, false)
unfolding mode_at
sticky_mode = refl

no_parent : mode_at "/opt/x" (entry_at "/opt/x" false ∷ []) ≡ (none, true)
unfolding mode_at
no_parent = refl

initialize_filesystem-IsWellFormed_example :
    IsWellFormed (initialize_filesystem "ubuntu" small_manifest 5 empty_namespace).1
initialize_filesystem-IsWellFormed_example =
    initialize_filesystem-IsWellFormed "ubuntu" small_manifest 5 empty_namespace (inl refl)
