-- ===== src/NameServer/Index/Laws.antt =====
-- The index behaves as a map from names to places.
use distributed_documentatio.Base.{
  ℕ, CText, ◌≡◌, length, Option, true, ◌<◌, if◌then◌else◌, take_all, str_eq, ◌==◌, arith,
  Bool-cases, ◌-◌, inl, inr, ap, none, some, Option-cases, str_eq_sound, refl, str_eq_iff,
}
use distributed_documentatio.NameServer.Index.{
  FileIndex, Chain, bucket_of, find_node, put_bucket, file_index_find, stored_filename,
  file_index_insert, file_index_remove_entry, set_node_index, max_filename_length,
}
use distributed_documentatio.NameServer.Index.Chains.{
  is_chain, find-assign, find-unlink, is_chain-assign, is_chain-unlink,
}

-- No chain holds a name twice.
pub record IsIndex (index : FileIndex) : Type 0 where
  pub distinct : (b : ℕ) → is_chain (index b) ≡ true

stored_filename_fits : (k : CText) → length k < max_filename_length → stored_filename k ≡ k
unfolding stored_filename
stored_filename_fits k h = take_all (max_filename_length - 1) k (omega arith)

-- Reading a name after its bucket or another was replaced.
find-put_bucket :
    (index : FileIndex) (k j : CText) (chain : Chain)
    → file_index_find (put_bucket index (bucket_of k) chain) j
      ≡ (if bucket_of k == bucket_of j then find_node j chain else file_index_find index j)
unfolding file_index_find
find-put_bucket index k j chain = ground arith

-- A replaced bucket that reads like the old one but for the name `k`.
find-replaced :
    (index : FileIndex) (k j : CText) (chain : Chain) (v : Option ℕ)
    → ((j : CText)
        → find_node j chain ≡ (if str_eq k j then v else find_node j (index (bucket_of k))))
    → file_index_find (put_bucket index (bucket_of k) chain) j
      ≡ (if str_eq k j then v else file_index_find index j)
unfolding file_index_find
find-replaced index k j chain v h = rw find-put_bucket (elim (Bool-cases (str_eq k j)) [
  | inl e ↦
      let same : bucket_of k ≡ bucket_of j = ap bucket_of (str_eq_sound k j e) in
      ground (arith, h j)
  | inr e ↦ ground (arith, h j)
])

module _ (index : FileIndex) (inv : IsIndex index) (k : CText) where
  pub find-remove :
      (j : CText)
      → file_index_find (file_index_remove_entry index k).1 j
        ≡ (if str_eq k j then none else file_index_find index j)
  unfolding file_index_remove_entry file_index_find
  find-remove j = elim (Option-cases (find_node k (index (bucket_of k)))) [
    | inl e ↦ rw (e, file_index_remove_entry) (ground (arith, str_eq_iff k j))
    | inr (i, e) ↦
        rw (e, file_index_remove_entry)
          (find-replaced index k j _ none
            (λ q. find-unlink k q (index (bucket_of k)) (inv.distinct (bucket_of k))))
  ]

  pub find-set :
      (i : ℕ) (j : CText) (old : ℕ)
      → file_index_find index k ≡ some old
      → file_index_find (set_node_index index k i) j
        ≡ (if str_eq k j then some i else file_index_find index j)
  unfolding set_node_index file_index_find
  find-set i j old e =
      find-replaced index k j _ (some i)
        (λ q. ground (arith, find-assign k q i (index (bucket_of k))))

  pub find-insert :
      (i : ℕ) (j : CText)
      → length k < max_filename_length
      → file_index_find (file_index_insert index k i) j
        ≡ (if str_eq k j then some i else file_index_find index j)
  unfolding file_index_insert
  find-insert i j short = elim (Option-cases (find_node k (index (bucket_of k)))) [
    | inl e ↦
        rw (e, file_index_insert)
          (find-replaced index k j _ (some i)
            (λ q. rw (stored_filename_fits k short) (unfold find_node in refl)))
    | inr (old, e) ↦
        rw (e, file_index_insert)
          (find-replaced index k j _ (some i)
            (λ q. ground (arith, find-assign k q i (index (bucket_of k)))))
  ]

  put_bucket-IsIndex :
      (b : ℕ) (chain : Chain) → is_chain chain ≡ true → IsIndex (put_bucket index b chain)
  put_bucket-IsIndex b chain h = record { distinct = λ d. ground (arith, inv.distinct d) }

  pub remove-IsIndex : IsIndex (file_index_remove_entry index k).1
  unfolding file_index_remove_entry
  remove-IsIndex = elim (Option-cases (find_node k (index (bucket_of k)))) [
    | inl e ↦ rw (e, file_index_remove_entry) inv
    | inr (i, e) ↦
        rw (e, file_index_remove_entry)
          (put_bucket-IsIndex (bucket_of k) _
            (is_chain-unlink k (index (bucket_of k)) (inv.distinct (bucket_of k))))
  ]

  pub set-IsIndex : (i : ℕ) → IsIndex (set_node_index index k i)
  unfolding set_node_index
  set-IsIndex i =
      put_bucket-IsIndex (bucket_of k) _
        (is_chain-assign k i (index (bucket_of k)) (inv.distinct (bucket_of k)))

  pub insert-IsIndex :
      (i : ℕ) → length k < max_filename_length → IsIndex (file_index_insert index k i)
  unfolding file_index_insert
  insert-IsIndex i short = elim (Option-cases (find_node k (index (bucket_of k)))) [
    | inl e ↦
        rw (e, file_index_insert, stored_filename_fits k short)
          (put_bucket-IsIndex (bucket_of k) _
            (unfold is_chain in ground (arith, inv.distinct (bucket_of k))))
    | inr (old, e) ↦
        rw (e, file_index_insert)
          (put_bucket-IsIndex (bucket_of k) _
            (is_chain-assign k i (index (bucket_of k)) (inv.distinct (bucket_of k))))
  ]
