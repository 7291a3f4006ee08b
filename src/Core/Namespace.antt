-- ===== src/Core/Namespace.antt =====
-- One session's filesystem keys in Redis, `fs:*` behind the session's prefix: the inode hashes,
-- the directories (sorted sets from names to inode numbers), the blobs, the generation leases and
-- the counters. A hash is a record of optional fields: `HSET` on a missing key makes one that has
-- only the fields it writes. Times are whole numbers.
pub mod Laws
use apate.Prelude.{
  ◌∷◌, ltb, if◌then◌else◌, map, ℕ, suc, ◌*◌, ◌/◌, ◌%◌, String, Bool, Option, none, List, [],
  nat_beq, get_or, length, ℤ, nat_eq, string_eq,
}
use apate.Dict
use apate.Dict.{Dict}

pub record Inode : Type 0 where
  pub mode : Option ℕ
  pub uid : Option ℕ
  pub gid : Option ℕ
  pub size : Option ℕ
  pub ctime : Option ℕ
  pub mtime : Option ℕ
  pub atime : Option ℕ
  pub nlink : Option ℤ
  pub content_hash : Option String
  pub content_state : Option String
  pub manifest_class : Option String
  pub revision : Option ℕ

abbrev pub no_fields : Inode
no_fields = record {
  mode = none;
  uid = none;
  gid = none;
  size = none;
  ctime = none;
  mtime = none;
  atime = none;
  nlink = none;
  content_hash = none;
  content_state = none;
  manifest_class = none;
  revision = none;
}

pub record Namespace : Type 0 where
  pub initialized : Bool
  pub next_inode : ℕ
  pub inodes : Dict ℕ Inode
  pub dirs : Dict ℕ (Dict String ℕ)
  pub blobs : Dict String (List ℕ)
  pub generating : Dict ℕ String
  pub bytes_allocated : ℕ

-- HGETALL fs:inode:<i>
unfoldable pub inode : Namespace → ℕ → Option Inode
inode s i = Dict.get s.inodes i

-- HSET fs:inode:<i>, and HINCRBY on one of its fields
unfoldable pub hset : Namespace → ℕ → (Inode → Inode) → Namespace
hset s i f = record s { inodes = Dict.put s.inodes i (f (get_or no_fields (Dict.get s.inodes i))) }

-- DEL fs:inode:<i>
unfoldable pub del_inode : Namespace → ℕ → Namespace
del_inode s i = record s { inodes = Dict.remove s.inodes i }

abbrev pub members : Namespace → ℕ → Dict String ℕ
members s d = get_or [] (Dict.get s.dirs d)

-- ZSCORE fs:dir:<d> <name>
unfoldable pub zscore : Namespace → ℕ → String → Option ℕ
zscore s d name = Dict.get (members s d) name

-- ZADD fs:dir:<d> <i> <name>
unfoldable pub zadd : Namespace → ℕ → String → ℕ → Namespace
zadd s d name i = record s { dirs = Dict.put s.dirs d (Dict.put (members s d) name i) }

-- ZREM fs:dir:<d> <name>
unfoldable pub zrem : Namespace → ℕ → String → Namespace
zrem s d name = record s { dirs = Dict.put s.dirs d (Dict.remove (members s d) name) }

-- ZCARD fs:dir:<d>
unfoldable pub zcard : Namespace → ℕ → ℕ
zcard s d = length (members s d)

-- ZRANGE fs:dir:<d> 0 -1: by score. Two names of a score keep their order here, where Redis goes by
-- the name.
unfoldable pub insert_by_score : String × ℕ → List (String × ℕ) → List (String × ℕ)
insert_by_score entry [] = entry ∷ []
insert_by_score entry (first ∷ rest) =
    if ltb first.1 entry.1 then first ∷ insert_by_score entry rest else entry ∷ first ∷ rest

unfoldable pub sort_by_score : List (String × ℕ) → List (String × ℕ)
sort_by_score [] = []
sort_by_score (entry ∷ entries) = insert_by_score entry (sort_by_score entries)

unfoldable pub zrange : Namespace → ℕ → List String
zrange s d = map (λ entry. entry.0) (sort_by_score (members s d))

-- DEL fs:dir:<d>
unfoldable pub del_dir : Namespace → ℕ → Namespace
del_dir s d = record s { dirs = Dict.remove s.dirs d }

-- INCR fs:next_inode
unfoldable pub incr_inode : Namespace → Namespace
incr_inode s = record s { next_inode = suc s.next_inode }

-- tonumber(HGET fs:inode:<i> mode or '0')
unfoldable pub mode_of : Namespace → ℕ → ℕ
mode_of s i = get_or 0 (get_or no_fields (inode s i)).mode

-- mode & 0o170000, the file type
abbrev pub type_bits : ℕ → ℕ
type_bits mode = mode / 4096 % 16 * 4096

-- bit.band(mode, 61440) == 16384; S_ISDIR
abbrev pub is_dir : ℕ → Bool
is_dir mode = nat_beq (type_bits mode) 16384

-- S_ISREG
abbrev pub is_reg : ℕ → Bool
is_reg mode = nat_beq (type_bits mode) 32768
