-- ===== src/Interface/Fuse/Tests.antt =====
-- Two sessions with a process each, and instances of the theorems.
use apate.Prelude.{
  ℕ, String, ◌≡◌, refl, Bool, true, Option, none, List, [], ◌∷◌, nat_eq, string_eq, has_code,
  is_empty, split, pos, incr, decr, is_positive, ◌||◌, ◌==◌, get_or, is_some, contains,
}
use apate.Dict
use apate.Dict.{Dict}
use apate.Core.Errno.{eacces, ok, err}
use apate.Core.Action.{Action, then_do}
use apate.Core.Namespace.{
  no_fields, Namespace, inode, hset, del_inode, zscore, zadd, zrem, zcard, del_dir, incr_inode,
  mode_of,
}
use apate.Core.Scripts.{
  bad_name, fresh_fields, refusal, add_file, atomic_create, add_directory, atomic_mkdir,
  release_inode, drop_file, atomic_unlink, drop_directory, atomic_rmdir,
}
use apate.Core.State.{
  create_file, make_directory, unlink_file, remove_directory, parts, walk, resolve_path_sync,
}
use apate.Core.Content.{
  Bytes, read_blob, ljust, splice, resized, edit, stored, written_fields, execute_write,
  new_content, rounds, mutate_content,
}
use apate.Interface.Fuse.{
  Context, FdEntry, Audited, ChronosFuse, Request, create_call, unlink_call, write_call,
  resolve_inode, parent_and_name, inode_meta, current_session, publish, apply_in, in_session, audit,
  mkdir, rmdir, unlink, enter_fd, open_path, create_entry, create, own_handle, file_bytes, read,
  write_bytes, chmod, chown, truncate_file, utimens, release_fd, perform, checked, readdir,
}
use apate.Interface.Fuse.Isolation.{perform-isolates}
use apate.Interface.Fuse.Listing.{readdir_lists}
use apate.Interface.Fuse.Handles.{handles_private}

abbrev new_namespace : Namespace
new_namespace = record {
  initialized = true;
  next_inode = 1;
  inodes = (1, fresh_fields 16877 4096 2 7 no_fields) ∷ [];
  dirs = (1, (".", 1) ∷ ("..", 1) ∷ []) ∷ [];
  blobs = [];
  generating = [];
  bytes_allocated = 0;
}

abbrev server : ChronosFuse
server = record {
  session_pids = (7, "alice") ∷ (8, "bob") ∷ [];
  sessions = [];
  fd_table = [];
  next_fd = 10;
  published = [];
  audited = [];
}

always : List Audited → Bool
always events = true

one_name : Bytes → String
one_name b = "blob"

no_model : ℕ → String → Action Namespace (Option Bytes)
no_model i path n = (ok none, n)

alice : Context
alice = record { uid = 1000; gid = 1000; pid = 7; now = 50 }

bob : Context
bob = record { uid = 1000; gid = 1000; pid = 8; now = 60 }

abbrev all_calls : List (Context × Request) → ChronosFuse → ChronosFuse
unfolding perform mkdir create chmod rmdir unlink open_path read write_bytes chown truncate_file
    utimens release_fd own_handle checked file_bytes create_entry enter_fd audit in_session apply_in
    publish current_session inode_meta parent_and_name resolve_inode then_do alice bob always
    one_name no_model create_file make_directory unlink_file remove_directory walk resolve_path_sync
    parts split atomic_create atomic_mkdir atomic_unlink atomic_rmdir add_file add_directory
    drop_file drop_directory release_inode refusal bad_name has_code is_empty inode hset del_inode
    zscore zadd zrem zcard del_dir incr_inode mode_of Dict.get Dict.put Dict.remove incr decr
    is_positive mutate_content rounds new_content execute_write written_fields stored edit resized
    splice ljust read_blob
all_calls [] f = f
all_calls ((c, r) ∷ rest) f =
    all_calls rest (perform new_namespace always one_name no_model c r f).1

abbrev after_calls : ChronosFuse
after_calls =
    all_calls
      ((alice, create_call "/notes" 420)
        ∷ (alice, write_call "/notes" (104 ∷ 105 ∷ []) (pos 0) 10 [])
        ∷ [])
      server

read_back :
    (read new_namespace always one_name no_model alice "/notes" 10 1 10 after_calls).0
    ≡ ok (105 ∷ [])
unfolding all_calls
read_back = refl

perform-isolates_example :
    let f' =
      (perform new_namespace always one_name no_model bob (unlink_call "/notes") after_calls).1 in
    (Dict.get f'.sessions "alice" ≡ Dict.get after_calls.sessions "alice")
    × (f'.session_pids ≡ after_calls.session_pids)
unfolding all_calls
perform-isolates_example =
    perform-isolates new_namespace always one_name no_model bob "alice" (unlink_call "/notes")
      after_calls refl

abbrev opened : FdEntry
opened = record { session_id = "alice"; inode = 2; open_time = 50; flags = 0; path = "/notes" }

handles_private_example :
    (read new_namespace always one_name no_model bob "/notes" 10 0 10 after_calls
      ≡ (err eacces, after_calls))
    × (write_bytes new_namespace always one_name no_model bob "/notes"
          (0 ∷ [])
          (pos 0)
          10
          []
          after_calls
        ≡ (err eacces, after_calls))
unfolding all_calls
handles_private_example =
    handles_private new_namespace always one_name no_model bob after_calls 10 opened "/notes" 10 0
      (0 ∷ []) (pos 0) [] refl refl

readdir_lists_example :
    let n = get_or new_namespace (Dict.get after_calls.sessions "alice") in
    (files : List String) × ((readdir new_namespace always one_name no_model alice "/"
        after_calls).0
      ≡ ok files)
    × ((name : String)
        → contains files name ≡ name == "." || (name == ".." || is_some (zscore n 1 name)))
unfolding all_calls
readdir_lists_example =
    readdir_lists new_namespace always one_name no_model alice "/" "alice" after_calls 1 refl refl
      refl
