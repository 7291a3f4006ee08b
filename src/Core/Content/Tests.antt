-- ===== src/Core/Content/Tests.antt =====
-- Updates of a concrete file under a concrete digest, and instances of the theorems about them.
use apate.Prelude.{
  get_elem?, ℕ, zero, suc, ◌+◌, String, ◌≡◌, refl, sym, ap, ◌∙◌, ◌≢◌, ◌⊎◌, true, false, some, List,
  [], ◌∷◌, arith, nat_beq, if◌then◌else◌, nat_eq, string_eq, is_empty, pos, negsuc,
}
use Prim.Native.Char.{code}
use apate.Dict
use apate.Core.Errno.{Errno, Result, ok, err, eagain, efbig, einval}
use apate.Core.Namespace.{no_fields, Namespace, inode, hset}
use apate.Core.Content.{
  Bytes, read_blob, Change, write, truncate, ljust, splice, resized, edit, stored, written_fields,
  execute_write, new_content, rounds, mutate_content,
}
use apate.Core.Content.Splice.{get_elem?-splice}
use apate.Core.Content.Update.Bounds.{IsBounded, mutate_content-IsBounded}
use apate.Core.Content.Update.Readers.{Written, Seen, IsAddressed, mutate_content_atomic}
use apate.Core.Content.Update.Rounds.{mutate_content-eagain}

-- A digest without collisions: each byte in unary.
mark : ℕ → String → String
mark zero s = String.◌∷◌ "b" s
mark (suc n) s = String.◌∷◌ "a" (mark n s)

marks : Bytes → String
unfolding mark
marks [] = "h"
marks (x ∷ xs) = mark x (marks xs)

unmark : ℕ → String → Bytes
unmark n String.[] = []
unmark n (String.◌∷◌ c s) =
    if nat_beq (code c) b'a'
    then unmark (suc n) s
    else if nat_beq (code c) b'b'
    then n ∷ unmark 0 s
    else []

unmark-mark : (n m : ℕ) (s : String) → unmark n (mark m s) ≡ (n + m) ∷ unmark 0 s
unfolding unmark mark
unmark-mark n zero s = ap (λ (k : ℕ). k ∷ unmark 0 s) (omega arith)
unmark-mark n (suc m) s = unmark-mark (suc n) m s ∙ ap (λ (k : ℕ). k ∷ unmark 0 s) (omega arith)

unmark-marks : (xs : Bytes) → unmark 0 (marks xs) ≡ xs
unfolding marks
unmark-marks [] = unfold unmark in refl
unmark-marks (x ∷ xs) =
    unmark-mark 0 x (marks xs)
    ∙ (λ i. (0 + x) ∷ unmark-marks xs i)
    ∙ ap (λ (k : ℕ). k ∷ xs) (omega arith)

marks_distinct : (a b : Bytes) → marks a ≡ marks b → a ≡ b
marks_distinct a b e = sym (unmark-marks a) ∙ ap (unmark 0) e ∙ unmark-marks b

marks_named : (b : Bytes) → is_empty (marks b) ≡ false
unfolding marks is_empty
marks_named [] = refl
marks_named (zero ∷ xs) = refl
marks_named (suc n ∷ xs) = refl

-- Inode 2 is a regular file that holds the bytes 1 2 3.
abbrev one_file : Namespace
one_file = record {
  initialized = true;
  next_inode = 2;
  inodes =
      (
        2,
        record no_fields {
          mode = some 33188;
          size = some 3;
          content_hash = some "abaabaaabh";
          revision = some 4;
        },
      )
      ∷ [];
  dirs = [];
  blobs = ("abaabaaabh", 1 ∷ 2 ∷ 3 ∷ []) ∷ [];
  generating = (2, "token") ∷ [];
  bytes_allocated = 3;
}

-- Its line opens what a test has to compute with.
updated : Change → List Namespace → Result (Unit {0}) × Namespace
unfolding mutate_content rounds new_content stored read_blob execute_write written_fields edit
    splice resized ljust marks is_empty hset inode Dict.get Dict.put Dict.remove
updated change races = mutate_content marks 2 change 9 races one_file

write_in_gap :
    Dict.get (updated (write (7 ∷ []) (pos 4)) []).1.blobs (marks (1 ∷ 2 ∷ 3 ∷ 0 ∷ 7 ∷ []))
    ≡ some (1 ∷ 2 ∷ 3 ∷ 0 ∷ 7 ∷ [])
unfolding updated
write_in_gap = refl

too_large : (updated (truncate (pos 1048577)) []).0 ≡ err efbig
unfolding updated
too_large = refl

negative_offset : (updated (write (7 ∷ []) (negsuc 0)) []).0 ≡ err einval
unfolding updated
negative_offset = refl

one_file-IsBounded : IsBounded one_file
unfolding updated
one_file-IsBounded = record { blob = λ h b e. ground arith; allocated = omega arith }

one_file-IsAddressed : IsAddressed marks one_file
unfolding updated
one_file-IsAddressed h b e = ground (arith, string_eq.beq_iff "abaabaaabh" h)

mutate_content-IsBounded_example :
    IsBounded (mutate_content marks 2 (truncate (pos 2)) 9 [] one_file).1
mutate_content-IsBounded_example =
    mutate_content-IsBounded marks 2 (truncate (pos 2)) 9 [] one_file one_file-IsBounded tt

get_elem?-splice_example : get_elem? (splice (7 ∷ []) 4 (1 ∷ 2 ∷ 3 ∷ [])) 3 ≡ some 0
get_elem?-splice_example = get_elem?-splice (7 ∷ []) (1 ∷ 2 ∷ 3 ∷ []) 4 3

mutate_content_atomic_example :
    let r = mutate_content marks 2 (write (7 ∷ []) (pos 4)) 9 (one_file ∷ []) one_file in
    ((r.0 ≡ ok tt)
      × ((f : Bytes → Bytes) × (edit (write (7 ∷ []) (pos 4)) ≡ ok f)
          × ((seen : Namespace) × Seen one_file (one_file ∷ []) seen × Written marks 2 f seen r.1)))
    ⊎ ((e : Errno) × (r.0 ≡ err e) × Seen one_file (one_file ∷ []) r.1)
mutate_content_atomic_example =
    mutate_content_atomic marks marks_named marks_distinct 2 (write (7 ∷ []) (pos 4)) 9
      (one_file ∷ []) one_file one_file-IsAddressed (one_file-IsAddressed, tt)

mutate_content-eagain_example :
    (mutate_content marks 2 (truncate (pos 2)) 9 (one_file ∷ []) one_file).0 ≢ err eagain
unfolding updated
mutate_content-eagain_example =
    (mutate_content-eagain marks 2 (resized 2) 9 (truncate (pos 2)) (one_file ∷ []) one_file refl).0
      (omega arith)
