-- ===== src/NameServer/Connections/Accounts.antt =====
-- The totals that are kept up to date step by step are those that are counted from the files.
use distributed_documentatio.Base.{
  arith, List, ◌≡◌, ℕ, false, get_elem?, some, true, set, ◌++◌, ◌∷◌, ◌+◌, [], suc, zero,
}
use distributed_documentatio.NameServer.Connections.{load_of}
use distributed_documentatio.NameServer.Servers.{StorageServerInfo}
use distributed_documentatio.NameServer.Files.{FileMetadata}
use distributed_documentatio.NameServer.State.{holds_file}
use distributed_documentatio.Base.Int.{pos_part}
use mathlib.Core.Option.{some-injective}

-- One file more.
pub load_of-append :
    (ss : StorageServerInfo) (files : List FileMetadata) (file : FileMetadata)
    → file.is_directory ≡ false
    → holds_file file ss ≡ true
    → ((load_of ss (files ++ file ∷ [])).0 ≡ (load_of ss files).0 + 1)
      × ((load_of ss (files ++ file ∷ [])).1 ≡ (load_of ss files).1 + pos_part file.size)
unfolding load_of
load_of-append ss [] file plain on = (ground arith, ground arith)
load_of-append ss (meta ∷ files) file plain on =
    let (count, bytes) = load_of-append ss files file plain on in
    (ground (arith, count), ground (arith, bytes))

-- Another size of one file.
pub load_of-set :
    (ss : StorageServerInfo) (files : List FileMetadata) (place : ℕ) (old new : FileMetadata)
    → get_elem? files place ≡ some old
    → new.is_directory ≡ old.is_directory
    → holds_file new ss ≡ holds_file old ss
    → old.is_directory ≡ false
    → holds_file old ss ≡ true
    → ((load_of ss (set files place new)).0 ≡ (load_of ss files).0)
      × ((load_of ss (set files place new)).1 + pos_part old.size
          ≡ (load_of ss files).1 + pos_part new.size)
unfolding load_of
load_of-set ss [] place old new at kind home plain on = absurd (ground arith)
load_of-set ss (meta ∷ files) zero old new at kind home plain on =
    let same : meta ≡ old = some-injective _ _ at in
    rw same (ground (arith, kind, home, plain, on), ground (arith, kind, home, plain, on))
load_of-set ss (meta ∷ files) (suc place) old new at kind home plain on =
    let (count, bytes) = load_of-set ss files place old new at kind home plain on in
    (ground (arith, count), ground (arith, bytes))

-- Another version of a file that is on another server.
pub load_of-set_other :
    (ss : StorageServerInfo) (files : List FileMetadata) (place : ℕ) (old new : FileMetadata)
    → get_elem? files place ≡ some old
    → holds_file old ss ≡ false
    → holds_file new ss ≡ false
    → load_of ss (set files place new) ≡ load_of ss files
unfolding load_of
load_of-set_other ss [] place old new at off gone = absurd (ground arith)
load_of-set_other ss (meta ∷ files) zero old new at off gone =
    let same : meta ≡ old = some-injective _ _ at in rw same (ground (arith, off, gone))
load_of-set_other ss (meta ∷ files) (suc place) old new at off gone =
    ground (arith, load_of-set_other ss files place old new at off gone)
