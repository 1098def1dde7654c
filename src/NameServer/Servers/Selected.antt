-- ===== src/NameServer/Servers/Selected.antt =====
-- The server that is chosen is one of the array, with its address and its socket.
use distributed_documentatio.NameServer.Servers.{
  StorageServerInfo, select_loop, ns_select_storage_server_balanced, Servers, clamp_totals, ℕ,
  alive_at, better,
}
use distributed_documentatio.NameServer.Servers.Loads.{seen_at, load, less, key, seen_at-set}
use distributed_documentatio.Base.{
  CText, ℕ, Option, ◌≡◌, suc, Bool-cases, some, length, ◌+◌, sym, ◌%◌, ◌==◌, Option-cases, inl,
  false, ◌∙◌, inr, none, set, arith, refl, zero,
}
use distributed_documentatio.Base.Int.{ℤ}
use distributed_documentatio.NameServer.Servers.Balanced.{balanced}
use mathlib.Core.Option.{some-injective}

-- What CREATE uses of a server.
abbrev pub address : StorageServerInfo → CText × ℕ × ℤ
address s = (s.client_ip, s.client_port, s.sockfd)

select_loop-keeps :
    (rounds start offset : ℕ) (servers : Servers) (best : Option (ℕ × StorageServerInfo)) (j : ℕ)
    → seen_at address (select_loop rounds start offset servers best).0 j ≡ seen_at address servers j
unfolding select_loop clamp_totals
select_loop-keeps zero start offset servers best j = refl
select_loop-keeps (suc rounds) start offset servers best j =
    let idx = (start + offset) % length servers in
    elim (Option-cases (alive_at servers idx)) [
      | inl e ↦ rw (e, select_loop) (select_loop-keeps rounds start (offset + 1) servers best j)
      | inr (s, e) ↦
          rw (e, select_loop)
            (select_loop-keeps rounds start (offset + 1) (set servers idx (some (clamp_totals s)))
                (better best idx (clamp_totals s)) j
              ∙ seen_at-set address (λ s. refl) servers idx s j e)
    ]

select-keeps :
    (servers : Servers) (start j : ℕ)
    → seen_at address (ns_select_storage_server_balanced servers start).1 j
      ≡ seen_at address servers j
unfolding ns_select_storage_server_balanced
select-keeps servers start j = elim (Bool-cases (length servers == 0)) [
  | inl e ↦ rw (ns_select_storage_server_balanced, e) refl
  | inr e ↦
      let kept = select_loop-keeps (length servers) start 0 servers none j in
      elim (Option-cases (select_loop (length servers) start 0 servers none).1) [
        | inl f ↦ rw (ns_select_storage_server_balanced, e, f) kept
        | inr (b, f) ↦ rw (ns_select_storage_server_balanced, e, f) kept
      ]
]

-- A server of the array that is alive, and no other that is has a smaller load.
abbrev pub IsLightest : Servers → ℕ → StorageServerInfo → Type 0
IsLightest servers place target =
    (alive_at servers place ≡ some target)
    × ((j : ℕ) (other : StorageServerInfo)
        → alive_at servers j ≡ some other
        → less (key other) (key target) ≡ false)

-- What is used of the server at the place that is chosen, is that of a lightest one of the array before.
pub select-IsLightest :
    (servers : Servers) (start place : ℕ) (used : StorageServerInfo)
    → (ns_select_storage_server_balanced servers start).0 ≡ some place
    → alive_at (ns_select_storage_server_balanced servers start).1 place ≡ some used
    → (target : StorageServerInfo) × IsLightest servers place target
      × (address used ≡ address target)
unfolding seen_at load
select-IsLightest servers start place used chosen there =
    let (k, loaded, least) = balanced servers start place chosen in
    let cleaned : seen_at address (ns_select_storage_server_balanced servers start).1 place
        ≡ some (address used) =
      rw (seen_at, there) refl in
    let seen : seen_at address servers place ≡ some (address used) =
      sym (select-keeps servers start place) ∙ cleaned in
    elim (Option-cases (alive_at servers place)) [
      | inl e ↦
          let nothing : none ≡ some (address used) = rw (seen_at, e) at seen in
          absurd (ground arith)
      | inr (target, e) ↦
          let both : some (address target) ≡ some (address used) = rw (seen_at, e) at seen in
          let loads : some (key target) ≡ some k = rw (load, e) at loaded in
          let same : k ≡ key target = sym (some-injective (key target) k loads) in
          (
            target,
            (e, λ j other at. rw (← same) (least j (key other) (rw (load, at) refl))),
            sym (some-injective (address target) (address used) both),
          )
    ]
