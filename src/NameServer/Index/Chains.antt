-- ===== src/NameServer/Index/Chains.antt =====
-- One chain of the index.
use distributed_documentatio.Base.{
  ℕ, CText, Bool, ◌≡◌, true, none, ◌∷◌, some, if◌then◌else◌, false, str_eq, arith, str_eq_iff, [],
  refl,
}
use distributed_documentatio.NameServer.Index.{Chain, find_node, assign_node, unlink_node}

-- No name occurs twice.
unfoldable pub is_chain : Chain → Bool
is_chain [] = true
is_chain (node ∷ chain) = elim (find_node node.filename chain) [
  | none ↦ is_chain chain
  | some _ ↦ false
]

pub find-assign :
    (k j : CText) (i : ℕ) (chain : Chain)
    → find_node j (assign_node k i chain) ≡ elim (find_node k chain) [
      | none ↦ find_node j chain
      | some _ ↦ if str_eq k j then some i else find_node j chain
    ]
unfolding find_node assign_node
find-assign k j i [] = refl
find-assign k j i (node ∷ chain) = ground (
  arith,
  find-assign k j i chain,
  str_eq_iff node.filename k,
  str_eq_iff node.filename j,
  str_eq_iff k j,
)

pub find-unlink :
    (k j : CText) (chain : Chain)
    → is_chain chain ≡ true
    → find_node j (unlink_node k chain) ≡ (if str_eq k j then none else find_node j chain)
unfolding find_node unlink_node is_chain
find-unlink k j [] h = ground arith
find-unlink k j (node ∷ chain) h = ground (
  arith,
  find-unlink k j chain,
  str_eq_iff node.filename k,
  str_eq_iff node.filename j,
  str_eq_iff k j,
)

pub is_chain-assign :
    (k : CText) (i : ℕ) (chain : Chain)
    → is_chain chain ≡ true
    → is_chain (assign_node k i chain) ≡ true
unfolding find_node assign_node is_chain
is_chain-assign k i [] h = refl
is_chain-assign k i (node ∷ chain) h = ground (
  arith,
  is_chain-assign k i chain,
  find-assign k node.filename i chain,
  str_eq_iff k node.filename,
  str_eq_iff node.filename k,
)

pub is_chain-unlink :
    (k : CText) (chain : Chain) → is_chain chain ≡ true → is_chain (unlink_node k chain) ≡ true
unfolding find_node unlink_node is_chain
is_chain-unlink k [] h = refl
is_chain-unlink k (node ∷ chain) h =
    ground (arith, is_chain-unlink k chain, find-unlink k node.filename chain)
