-- ===== src/NameServer/Servers/Balanced.antt =====
-- The choice is a lightest server that is alive.
use distributed_documentatio.NameServer.Servers.{
  StorageServerInfo, Servers, alive_at, clamp_totals, better, select_loop,
  ns_select_storage_server_balanced, ℕ, Option,
}
use distributed_documentatio.Base.{
  ℕ, Option, ◌≡◌, ◌<◌, none, some, false, true, ◌+◌, set, arith, suc, ◌%◌, Option-cases, length,
  ◌==◌, inl, zero, ◌∷◌, inr, [], refl, Bool-cases, sym, length-set, leb, ◌-◌, ◌*◌, ◌/◌, ◌≤◌,
}
use mathlib.Core.Option.{some-injective}
use native.Mathlib.Nat.{div-add-mod, mod-lt, add-mul-mod_self_left, mod-eq_of_lt, add-mod_right}
use distributed_documentatio.NameServer.Servers.Loads.{
  key, less, load, load-set, at_most, better-at_most, better-at_most_new, better-origin, load-alive,
}

module _ (start : ℕ) where
  loop-at_most :
      (rounds offset : ℕ) (servers : Servers) (best : Option (ℕ × StorageServerInfo)) (k : ℕ × ℕ)
      → at_most best k ≡ true
      → at_most (select_loop rounds start offset servers best).1 k ≡ true
  unfolding select_loop
  loop-at_most zero offset servers best k h = h
  loop-at_most (suc rounds) offset servers best k h =
      elim (Option-cases (alive_at servers ((start + offset) % length servers))) [
        | inl e ↦ rw (e, select_loop) (loop-at_most rounds (offset + 1) servers best k h)
        | inr (s, e) ↦
            rw (e, select_loop)
              (loop-at_most rounds (offset + 1) (set servers _ (some (clamp_totals s))) _ k
                (better-at_most best _ (clamp_totals s) k h))
      ]

  loop-covers :
      (rounds offset : ℕ) (servers : Servers) (best : Option (ℕ × StorageServerInfo)) (o : ℕ)
      (k : ℕ × ℕ)
      → o < rounds
      → load servers ((start + (offset + o)) % length servers) ≡ some k
      → at_most (select_loop rounds start offset servers best).1 k ≡ true
  unfolding select_loop load
  loop-covers zero offset servers best o k l h = absurd (omega arith)
  loop-covers (suc rounds) offset servers best zero k l h =
      let idx = (start + offset) % length servers in
      let sum : offset + 0 ≡ offset = omega arith in
      let here : load servers idx ≡ some k = rw sum at h in
      elim (Option-cases (alive_at servers idx)) [
        | inl e ↦
            let nothing : ◌≡◌ {A = Option (ℕ × ℕ)} none (some k) = rw (load, e) at here in
            absurd (ground arith)
        | inr (s, e) ↦
            let both : some (key s) ≡ some k = rw (load, e) at here in
            let same : key s ≡ k = some-injective (key s) k both in
            rw (select_loop, e)
              (loop-at_most rounds (offset + 1) (set servers idx (some (clamp_totals s))) _ k
                (rw same at (better-at_most_new best idx s)))
      ]
  loop-covers (suc rounds) offset servers best (suc o) k l h =
      let idx = (start + offset) % length servers in
      let sum : offset + suc o ≡ offset + 1 + o = omega arith in
      let later : load servers ((start + (offset + 1 + o)) % length servers) ≡ some k =
        rw sum at h in
      elim (Option-cases (alive_at servers idx)) [
        | inl e ↦
            rw (select_loop, e)
              (loop-covers rounds (offset + 1) servers best o k (omega arith) later)
        | inr (s, e) ↦
            let cleaned = set servers idx (some (clamp_totals s)) in
            let size : length cleaned ≡ length servers =
              length-set servers idx (some (clamp_totals s)) in
            let kept : load cleaned ((start + (offset + 1 + o)) % length cleaned) ≡ some k =
              rw (size, load-set servers idx s ((start + (offset + 1 + o)) % length servers) e)
                later in
            rw (select_loop, e) (loop-covers rounds (offset + 1) cleaned _ o k (omega arith) kept)
      ]

  -- A best candidate that the loop finds has its load in the array.
  loop-origin :
      (rounds offset : ℕ) (servers : Servers) (best : Option (ℕ × StorageServerInfo)) (i : ℕ)
      (b : StorageServerInfo)
      → ((j : ℕ) (d : StorageServerInfo) → best ≡ some (j, d) → load servers j ≡ some (key d))
      → (select_loop rounds start offset servers best).1 ≡ some (i, b)
      → load servers i ≡ some (key b)
  unfolding select_loop
  loop-origin zero offset servers best i b known h = known i b h
  loop-origin (suc rounds) offset servers best i b known h =
      let idx = (start + offset) % length servers in
      elim (Option-cases (alive_at servers idx)) [
        | inl e ↦ loop-origin rounds (offset + 1) servers best i b known (rw (select_loop, e) at h)
        | inr (s, e) ↦
            let cleaned = set servers idx (some (clamp_totals s)) in
            rw (sym (load-set servers idx s i e)) (
              loop-origin rounds (offset + 1) cleaned (better best idx (clamp_totals s)) i b
                (λ j d q.
                  rw (load-set servers idx s j e)
                    (elim (better-origin best idx (clamp_totals s) j d q) [
                      | inl p ↦ known j d p
                      | inr (place, server) ↦ rw (← place, ← server) (load-alive servers idx s e)
                    ]))
                (rw (select_loop, e) at h))
      ]

-- Some round visits each place.
reaches : (start n j : ℕ) → j < n → (o : ℕ) × (o < n) × ((start + o) % n ≡ j)
reaches start n j l =
    let parts : n * (start / n) + start % n ≡ start = div-add-mod start n in
    let small : start % n < n = mod-lt start (omega arith) in
    elim (Bool-cases (leb (start % n) j)) [
      | inl e ↦
          let below : start % n ≤ j = ground arith in
          let sum : start + (j - start % n) ≡ j + n * (start / n) = omega arith in
          (
            j - start % n,
            omega arith,
            rw (sum, add-mul-mod_self_left j n (start / n)) (mod-eq_of_lt l),
          )
      | inr e ↦
          let above : j < start % n = ground arith in
          let sum : start + (j + n - start % n) ≡ j + n + n * (start / n) = omega arith in
          (
            j + n - start % n,
            omega arith,
            rw (sum, add-mul-mod_self_left (j + n) n (start / n), add-mod_right j n)
                (mod-eq_of_lt l),
          )
    ]

load-inside : (servers : Servers) (j : ℕ) (k : ℕ × ℕ) → load servers j ≡ some k → j < length servers
unfolding load alive_at
load-inside [] j k h = absurd (ground arith)
load-inside (x ∷ servers) zero k h = omega arith
load-inside (x ∷ servers) (suc j) k h = omega (arith, load-inside servers j k h)

-- The best candidate after all rounds.
abbrev best_of : Servers → ℕ → Option (ℕ × StorageServerInfo)
best_of servers start = (select_loop (length servers) start 0 servers none).1

best_of-covers :
    (servers : Servers) (start j : ℕ) (k : ℕ × ℕ)
    → load servers j ≡ some k
    → at_most (best_of servers start) k ≡ true
best_of-covers servers start j k h =
    let (o, below, there) = reaches start (length servers) j (load-inside servers j k h) in
    let sum : 0 + o ≡ o = omega arith in
    let place : load servers ((start + (0 + o)) % length servers) ≡ some k = rw (sum, there) h in
    loop-covers start (length servers) 0 servers none o k below place

-- The choice is the place of the best candidate.
chosen :
    (servers : Servers) (start : ℕ)
    → (ns_select_storage_server_balanced servers start).0
      ≡ elim (best_of servers start) [ none ↦ none | some (i, _) ↦ some i ]
unfolding ns_select_storage_server_balanced select_loop
chosen [] start = refl
chosen (x ∷ servers) start =
    let some_server : (length (x ∷ servers) == 0) ≡ false = ground arith in
    elim (Option-cases (best_of (x ∷ servers) start)) [
      | inl e ↦ rw (e, some_server) refl
      | inr (best, e) ↦ rw (e, some_server) refl
    ]

-- The server that is chosen is alive, and no server that is alive has a smaller load: fewer bytes, or as many and
-- fewer files.
pub balanced :
    (servers : Servers) (start i : ℕ)
    → (ns_select_storage_server_balanced servers start).0 ≡ some i
    → (k : ℕ × ℕ) × (load servers i ≡ some k)
      × ((j : ℕ) (other : ℕ × ℕ) → load servers j ≡ some other → less other k ≡ false)
balanced servers start i h = elim (Option-cases (best_of servers start)) [
  | inl e ↦ let nothing : none ≡ some i = rw (chosen servers start, e) at h in absurd (ground arith)
  | inr ((i', b), e) ↦
      let both : some i' ≡ some i = rw (chosen servers start, e) at h in
      let same : i' ≡ i = some-injective i' i both in
      let origin =
        loop-origin start (length servers) 0 servers none i' b (λ j d q. absurd (ground arith)) e in
      (
        key b,
        rw same at origin,
        λ j other l.
            let covers = best_of-covers servers start j other l in
            let covered : at_most (some (i', b)) other ≡ true = rw e at covers in
            unfold at_most in ground arith,
      )
]

-- If no server is chosen, none is alive.
pub none_alive :
    (servers : Servers) (start j : ℕ)
    → (ns_select_storage_server_balanced servers start).0 ≡ none
    → load servers j ≡ none
none_alive servers start j h = elim (Option-cases (load servers j)) [
  | inl e ↦ e
  | inr (k, e) ↦
      let covered = best_of-covers servers start j k e in
      elim (Option-cases (best_of servers start)) [
        | inl d ↦
            let no : at_most none k ≡ true = rw d at covered in
            absurd (unfold at_most in ground arith)
        | inr ((i, b), d) ↦
            let clash : some i ≡ none = rw (chosen servers start, d) at h in absurd (ground arith)
      ]
]
