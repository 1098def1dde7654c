-- ===== src/Names/Flatten.antt =====
-- The flat name of a path.
use distributed_documentatio.Names.{flat_byte, flatten_loop, flatten_logical_path, ℕ}
use distributed_documentatio.Base.{
  ℕ, CText, ◌≡◌, if◌then◌else◌, ltb, length, ◌+◌, some, map, none, arith, ◌∷◌, [], Bool-cases, inl,
  inr,
}

flatten_loop_lem :
    (size i : ℕ) (s : CText)
    → flatten_loop size i s ≡ (if ltb (i + length s) size then some (map flat_byte s) else none)
unfolding flatten_loop
flatten_loop_lem size i [] = ground arith
flatten_loop_lem size i (c ∷ s) = elim (Bool-cases (ltb (i + 1 + length s) size)) [
  | inl e ↦ rw (flatten_loop_lem size (i + 1) s, e) (ground arith)
  | inr e ↦ rw (flatten_loop_lem size (i + 1) s, e) (ground arith)
]

-- A path is flattened exactly if it fits with its end, and then byte by byte: the result is as long as the path, with
-- every `/` made a `_` and nothing else changed. Paths that differ only in these two bytes get one flat name.
pub flatten_exact :
    (size : ℕ) (s : CText)
    → flatten_logical_path size s ≡ (if ltb (length s) size then some (map flat_byte s) else none)
unfolding flatten_logical_path
flatten_exact size s = ground (arith, flatten_loop_lem size 0 s)
