-- ===== src/NameServer/Cache/Evict.antt =====
-- Which entry `file_cache_store` overwrites.
use distributed_documentatio.Base.{
  ℕ, CText, List, Option, ◌∷◌, ◌≤◌, ◌≡◌, inl, true, arith, ◌⊎◌, [], some, inr, ◌+◌, get_elem?, ◌<◌,
  refl, none, ◌∙◌, ap, suc,
}
use distributed_documentatio.NameServer.Cache.{
  CacheEntry, place_of_name, place_free, place_oldest, place_to_store, ulong_max,
}
use native.Mathlib.Decide.{dec_lt}

abbrev pub AllValid : List CacheEntry → Type 0
AllValid [] = Unit {0}
AllValid (e ∷ entries) = (e.valid ≡ true) × AllValid entries

-- Every entry was used at time `t` or later.
abbrev pub UsedSince : ℕ → List CacheEntry → Type 0
UsedSince t [] = Unit {0}
UsedSince t (e ∷ entries) = (t ≤ e.last_used) × UsedSince t entries

UsedSince-mono :
    (s t : ℕ) (entries : List CacheEntry) → s ≤ t → UsedSince t entries → UsedSince s entries
UsedSince-mono s t [] h u = tt
UsedSince-mono s t (e ∷ entries) h u = (omega arith, UsedSince-mono s t entries h u.1)

-- The loop keeps what it had, or ends at an entry that is older than all.
abbrev UsedFirst : ℕ → Option ℕ → ℕ → List CacheEntry → Type 0
UsedFirst oldest found i entries =
    (place_oldest oldest found i entries ≡ found) × UsedSince oldest entries
    ⊎ ((q : ℕ) × (e : CacheEntry) × (place_oldest oldest found i entries ≡ some (i + q))
        × (get_elem? entries q ≡ some e)
        × (e.last_used < oldest)
        × UsedSince e.last_used entries)

place_oldest-older :
    (oldest : ℕ) (found : Option ℕ) (i : ℕ) (e : CacheEntry) (entries : List CacheEntry)
    → e.valid ≡ true
    → e.last_used < oldest
    → place_oldest oldest found i (e ∷ entries) ≡ place_oldest e.last_used (some i) (i + 1) entries
unfolding place_oldest
place_oldest-older oldest found i e entries v h = ground arith

place_oldest-newer :
    (oldest : ℕ) (found : Option ℕ) (i : ℕ) (e : CacheEntry) (entries : List CacheEntry)
    → e.valid ≡ true
    → oldest ≤ e.last_used
    → place_oldest oldest found i (e ∷ entries) ≡ place_oldest oldest found (i + 1) entries
unfolding place_oldest
place_oldest-newer oldest found i e entries v h = ground arith

place_oldest-UsedFirst :
    (oldest : ℕ) (found : Option ℕ) (i : ℕ) (entries : List CacheEntry)
    → AllValid entries
    → UsedFirst oldest found i entries
unfolding place_oldest
place_oldest-UsedFirst oldest found i [] v = inl (refl, tt)
place_oldest-UsedFirst oldest found i (e ∷ entries) v = elim (dec_lt e.last_used oldest) [
  | yes h ↦
      let step = place_oldest-older oldest found i e entries v.0 h in
      elim (place_oldest-UsedFirst e.last_used (some i) (i + 1) entries v.1) [
        | inl (p, u) ↦ inr (0, e, step ∙ p ∙ ap some (omega arith), refl, h, (omega arith, u))
        | inr (q, d, p, g, l, u) ↦
            inr (suc q, d, step ∙ p ∙ ap some (omega arith), g, omega arith, (omega arith, u))
      ]
  | no h ↦
      let step = place_oldest-newer oldest found i e entries v.0 (omega arith) in
      elim (place_oldest-UsedFirst oldest found (i + 1) entries v.1) [
        | inl (p, u) ↦ inl (step ∙ p, (omega arith, u))
        | inr (q, d, p, g, l, u) ↦
            inr (suc q, d, step ∙ p ∙ ap some (omega arith), g, l, (omega arith, u))
      ]
]

place_free-AllValid : (entries : List CacheEntry) → AllValid entries → place_free entries ≡ none
unfolding place_free
place_free-AllValid [] v = refl
place_free-AllValid (e ∷ entries) v = rw (v.0, place_free-AllValid entries v.1) refl

-- In a full cache a new name takes the place of the entry that was used least recently: no entry was
-- used before it.
pub evicts_oldest :
    (k : CText) (entries : List CacheEntry) (p : ℕ)
    → AllValid entries
    → place_of_name k entries ≡ none
    → place_to_store k entries ≡ some p
    → (e : CacheEntry) × (get_elem? entries p ≡ some e) × UsedSince e.last_used entries
unfolding place_to_store
evicts_oldest k entries p v absent h =
    let chosen : place_oldest ulong_max none 0 entries ≡ some p =
      ground (arith, place_free-AllValid entries v) in
    elim (place_oldest-UsedFirst ulong_max none 0 entries v) [
      | inl (none_found, u) ↦ absurd (cc)
      | inr (q, e, found, g, l, u) ↦ let same : p ≡ q = ground arith in (e, rw same g, u)
    ]
