-- ===== src/Core/Content/Splice.antt =====
-- The bytes after a write and after a truncation, position by position.
use apate.Prelude.{
  get_elem?, get_elem?-append, get_elem?-replicate, ℕ, ◌+◌, ◌-◌, max, ◌≡◌, none, some, ◌++◌, arith,
  ltb, if◌then◌else◌, nat_eq, string_eq, length, take, drop, replicate, length-append, length-take,
  length-drop, length-replicate, get_elem?-take, get_elem?-none, get_elem?-drop_sub, ap,
}
use apate.Core.Content.{Bytes, ljust, splice, resized}

pub length-ljust : (old : Bytes) (n : ℕ) → length (ljust old n) ≡ max (length old) n
unfolding ljust
length-ljust old n = omega (
  arith,
  length-append old (replicate (n - length old) 0),
  length-replicate {A = ℕ} (n - length old) 0,
)

get_elem?-ljust :
    (old : Bytes) (n k : ℕ)
    → get_elem? (ljust old n) k
      ≡ (if ltb k (length old) then get_elem? old k else if ltb k n then some 0 else none)
unfolding ljust
get_elem?-ljust old n k = ground (
  arith,
  get_elem?-append old (replicate (n - length old) 0) k,
  get_elem?-replicate {A = ℕ} (n - length old) 0 (k - length old),
)

-- The new file is as long as the old one or as the write's end, whichever is more.
pub length-splice :
    (buf old : Bytes) (offset : ℕ)
    → length (splice buf offset old) ≡ max (length old) (offset + length buf)
unfolding splice
length-splice buf old offset = omega (
  arith,
  length-append (take offset (ljust old offset))
      (buf ++ drop (offset + length buf) (ljust old offset)),
  length-append buf (drop (offset + length buf) (ljust old offset)),
  length-take offset (ljust old offset),
  length-drop (offset + length buf) (ljust old offset),
  length-ljust old offset,
)

pub length-resized : (n : ℕ) (old : Bytes) → length (resized n old) ≡ n
unfolding resized
length-resized n old = omega (arith, length-ljust (take n old) n, length-take n old)

-- The byte at each position after a write: the written one inside the range, elsewhere the old
-- one, and 0 in a gap that the write leaves behind the old end.
pub get_elem?-splice :
    (buf old : Bytes) (offset k : ℕ)
    → get_elem? (splice buf offset old) k ≡ (
        if ltb k offset
        then (if ltb k (length old) then get_elem? old k else some 0)
        else if ltb k (offset + length buf)
        then get_elem? buf (k - offset)
        else get_elem? old k)
unfolding splice
get_elem?-splice buf old offset k =
    let padded = ljust old offset in
    let after = drop (offset + length buf) padded in
    let front : length (take offset padded) ≡ offset =
      omega (arith, length-take offset padded, length-ljust old offset) in
    let back : k - offset - length buf ≡ k - (offset + length buf) = omega arith in
    ground (
      arith,
      rw front at (get_elem?-append (take offset padded) (buf ++ after) k),
      get_elem?-append buf after (k - offset),
      ap (get_elem? after) back,
      get_elem?-take offset padded k,
      get_elem?-ljust old offset k,
      get_elem?-drop_sub (offset + length buf) padded k,
      get_elem?-none old k,
    )

-- Truncation keeps the bytes below the new end, and a longer end adds zeros.
pub get_elem?-resized :
    (n : ℕ) (old : Bytes) (k : ℕ)
    → get_elem? (resized n old) k
      ≡ (if ltb k n then (if ltb k (length old) then get_elem? old k else some 0) else none)
unfolding resized
get_elem?-resized n old k =
    ground (arith, get_elem?-ljust (take n old) n k, get_elem?-take n old k, length-take n old)
