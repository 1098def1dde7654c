-- ===== src/NameServer/Servers/Loads.antt =====
-- The loads of the servers, which the clean-up of negative totals does not change.
use distributed_documentatio.NameServer.Servers.{
  StorageServerInfo, Servers, alive_at, clamp_totals, lighter, better, Option,
}
use distributed_documentatio.Base.{
  ℕ, Option, Bool, ◌≡◌, none, ltb, some, false, true, set, not, arith, suc, ◌||◌, ◌==◌, inl, zero,
  ◌&&◌, ◌∷◌, inr, [], refl, Bool-cases, sym, subst, ◌⊎◌, if◌then◌else◌, ap, ◌∙◌,
}
use distributed_documentatio.Base.Int.{pos_part}
use mathlib.Core.Option.{some-injective}

-- The bytes and the files of a server, a negative total counting as 0.
abbrev pub key : StorageServerInfo → ℕ × ℕ
key s = (pos_part s.total_bytes, pos_part s.total_files)

-- Less by bytes, and by files where the bytes are the same.
unfoldable pub less : ℕ × ℕ → ℕ × ℕ → Bool
less a b = ltb a.0 b.0 || a.0 == b.0 && ltb a.1 b.1

-- The load of the server at a place, if it is alive.
unfoldable pub load : Servers → ℕ → Option (ℕ × ℕ)
load servers i = elim (alive_at servers i) [ none ↦ none | some s ↦ some (key s) ]

if_some :
    (b : Bool) (c s : StorageServerInfo)
    → (if b then some c else none) ≡ some s
    → (b ≡ true) × (c ≡ s)
if_some true c s h = (refl, some-injective c s h)
if_some false c s h = absurd (ground arith)

-- Something of the server at a place, if it is alive.
unfoldable pub seen_at {ℓ} : {A : Type ℓ} → (StorageServerInfo → A) → Servers → ℕ → Option A
seen_at f servers i = elim (alive_at servers i) [ none ↦ none | some s ↦ some (f s) ]

if_seen {ℓ} :
    {A : Type ℓ} (f : StorageServerInfo → A) (b : Bool) (s : StorageServerInfo)
    → b ≡ true
    → elim (if b then some s else none) as (λ x. Option A) [ none ↦ none | some s ↦ some (f s) ]
      ≡ some (f s)
if_seen f true s h = refl
if_seen f false s h = absurd cc

seen_first {ℓ} :
    {A : Type ℓ} (f : StorageServerInfo → A) (s : StorageServerInfo) (servers : Servers)
    → s.is_alive ≡ true
    → seen_at f (some s ∷ servers) zero ≡ some (f s)
unfolding seen_at alive_at
seen_first f s servers h = if_seen f s.is_alive s h

-- What the clean-up of one server leaves as it is.
pub seen_at-set {ℓ} :
    {A : Type ℓ} (f : StorageServerInfo → A)
    → ((s : StorageServerInfo) → f (clamp_totals s) ≡ f s)
    → (servers : Servers) (idx : ℕ) (s : StorageServerInfo) (j : ℕ) → alive_at servers idx ≡ some s
    → seen_at f (set servers idx (some (clamp_totals s))) j ≡ seen_at f servers j
unfolding seen_at alive_at clamp_totals
seen_at-set f keeps [] idx s j h = refl
seen_at-set f keeps (none ∷ servers) zero s zero h = absurd (ground arith)
seen_at-set f keeps (some c ∷ servers) zero s zero h =
    let (alive, same) = if_some c.is_alive c s h in
    let alive' : s.is_alive ≡ true = subst (λ q. q.is_alive ≡ true) same alive in
    seen_first f (clamp_totals s) servers alive'
    ∙ ap some (keeps s ∙ ap f (sym same))
    ∙ sym (seen_first f c servers alive)
seen_at-set f keeps (x ∷ servers) zero s (suc j) h = refl
seen_at-set f keeps (x ∷ servers) (suc idx) s zero h = refl
seen_at-set f keeps (x ∷ servers) (suc idx) s (suc j) h = seen_at-set f keeps servers idx s j h

pub load-set :
    (servers : Servers) (idx : ℕ) (s : StorageServerInfo) (j : ℕ)
    → alive_at servers idx ≡ some s
    → load (set servers idx (some (clamp_totals s))) j ≡ load servers j
unfolding load seen_at clamp_totals
load-set servers idx s j h = seen_at-set key (λ s. refl) servers idx s j h

-- Nothing that is less than the key.
unfoldable pub at_most : Option (ℕ × StorageServerInfo) → ℕ × ℕ → Bool
at_most none k = false
at_most (some (_, b)) k = not (less k (key b))

pub better-at_most :
    (best : Option (ℕ × StorageServerInfo)) (idx : ℕ) (s : StorageServerInfo) (k : ℕ × ℕ)
    → at_most best k ≡ true
    → at_most (better best idx s) k ≡ true
unfolding at_most better less lighter
better-at_most none idx s k h = absurd (ground arith)
better-at_most (some (i, b)) idx s k h = ground arith

pub better-at_most_new :
    (best : Option (ℕ × StorageServerInfo)) (idx : ℕ) (s : StorageServerInfo)
    → at_most (better best idx (clamp_totals s)) (key s) ≡ true
unfolding at_most better less lighter clamp_totals
better-at_most_new none idx s = ground arith
better-at_most_new (some (i, b)) idx s = ground arith

pub better-origin :
    (best : Option (ℕ × StorageServerInfo)) (idx : ℕ) (c : StorageServerInfo) (j : ℕ)
    (d : StorageServerInfo)
    → better best idx c ≡ some (j, d)
    → (best ≡ some (j, d)) ⊎ ((idx ≡ j) × (c ≡ d))
unfolding better
better-origin none idx c j d h =
    let pair = some-injective (idx, c) (j, d) h in inr (ap (λ u. u.0) pair, ap (λ u. u.1) pair)
better-origin (some (i, b)) idx c j d h = elim (Bool-cases (lighter c b)) [
  | inr e ↦ inl (rw e at h)
  | inl e ↦
      let both : some (idx, c) ≡ some (j, d) = rw e at h in
      let pair = some-injective (idx, c) (j, d) both in inr (ap (λ u. u.0) pair, ap (λ u. u.1) pair)
]

pub load-alive :
    (servers : Servers) (idx : ℕ) (s : StorageServerInfo)
    → alive_at servers idx ≡ some s
    → load servers idx ≡ some (key (clamp_totals s))
unfolding load clamp_totals
load-alive servers idx s e = rw (load, e) refl
