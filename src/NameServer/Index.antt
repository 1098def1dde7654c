-- ===== src/NameServer/Index.antt =====
-- name_server/name_server.c: the chained hash table from file names to places in `files`. The array of
-- buckets is a function, a chain the list of its nodes. An allocation always succeeds.
pub mod Chains
pub mod Laws
use distributed_documentatio.Base.{
  ℕ, CText, if◌then◌else◌, ◌∷◌, List, ◌%◌, Option, take, some, Bool, ltb, ◌*◌, none, str_eq, ◌==◌,
  ◌-◌, true, ◌+◌, ◌^◌, false, [],
}

abbrev pub max_filename_length : ℕ
max_filename_length = 512

abbrev pub file_index_size : ℕ
file_index_size = 1024

-- A `char` is signed: (unsigned long)c for a byte from 128 on.
abbrev widened : ℕ → ℕ
widened c = if ltb c 128 then c else c + 2 ^ 64 - 256

-- The loop, `hash` in 64 bits.
unfoldable pub hash_from : ℕ → CText → ℕ
hash_from hash [] = hash
hash_from hash (c ∷ s) = hash_from (((hash * 32) % 2 ^ 64 + hash + widened c) % 2 ^ 64) s

unfoldable pub hash_filename : CText → ℕ
unfolding hash_from
hash_filename str = hash_from 5381 str

pub record Node : Type 0 where
  pub filename : CText
  pub file_array_index : ℕ

abbrev pub Chain : Type 0
Chain = List Node

abbrev pub FileIndex : Type 0
FileIndex = ℕ → Chain

unfoldable pub bucket_of : CText → ℕ
unfolding hash_filename
bucket_of filename = hash_filename filename % file_index_size

unfoldable pub find_node : CText → Chain → Option ℕ
find_node filename [] = none
find_node filename (node ∷ chain) =
    if str_eq node.filename filename then some node.file_array_index else find_node filename chain

-- `node->file_array_index = array_index` at the node of the name.
unfoldable pub assign_node : CText → ℕ → Chain → Chain
assign_node filename array_index [] = []
assign_node filename array_index (node ∷ chain) =
    if str_eq node.filename filename
    then record node { file_array_index = array_index } ∷ chain
    else node ∷ assign_node filename array_index chain

-- The node of the name is taken out of the chain.
unfoldable pub unlink_node : CText → Chain → Chain
unlink_node filename [] = []
unlink_node filename (node ∷ chain) =
    if str_eq node.filename filename then chain else node ∷ unlink_node filename chain

abbrev pub put_bucket : FileIndex → ℕ → Chain → FileIndex
put_bucket index bucket chain b = if bucket == b then chain else index b

unfoldable pub file_index_find : FileIndex → CText → Option ℕ
file_index_find index filename = find_node filename (index (bucket_of filename))

unfoldable pub stored_filename : CText → CText
stored_filename filename = take (max_filename_length - 1) filename

unfoldable pub file_index_insert : FileIndex → CText → ℕ → FileIndex
file_index_insert index filename array_index =
    let bucket = bucket_of filename in
    let chain = index bucket in
    elim (find_node filename chain) [
      | some _ ↦ put_bucket index bucket (assign_node filename array_index chain)
      | none ↦
          put_bucket index bucket
            (record { filename = stored_filename filename; file_array_index = array_index } ∷ chain)
    ]

-- The flag is the return value.
unfoldable pub file_index_remove_entry : FileIndex → CText → Bool × FileIndex
file_index_remove_entry index filename =
    let bucket = bucket_of filename in
    let chain = index bucket in
    elim (find_node filename chain) [
      | some _ ↦ (true, put_bucket index bucket (unlink_node filename chain))
      | none ↦ (false, index)
    ]

-- A node of the index is written through the pointer that `file_index_find` returned.
unfoldable pub set_node_index : FileIndex → CText → ℕ → FileIndex
set_node_index index filename array_index =
    put_bucket index (bucket_of filename)
      (assign_node filename array_index (index (bucket_of filename)))
