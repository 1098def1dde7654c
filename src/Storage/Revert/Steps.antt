-- ===== src/Storage/Revert/Steps.antt =====
-- What a checkpoint and a revert do where they succeed.
use distributed_documentatio.Text.{trim_string}
use distributed_documentatio.Text.Trim.{trim_string_exact}
use distributed_documentatio.Storage.State.{
  StorageServer, FileRecord, CheckpointRecord, Disk, file_exists, ss_check_write_access,
  ss_find_file, put_record, ss_touch_file_metadata,
}
use distributed_documentatio.Storage.Sessions.{ss_file_has_active_writers}
use distributed_documentatio.Storage.Checkpoints.{
  build_path, ss_copy_file, ss_find_checkpoint, find_tag, tag_copy, with_tag, slot_of,
  checkpoint_path, keep_checkpoint, make_checkpoint, ss_max_checkpoints, max_path_length,
}
use distributed_documentatio.Storage.Revert.{revert_to}
use distributed_documentatio.Protocol.Replies.{Reply, answered}
use distributed_documentatio.Storage.Commit.Undo.{IsWritable, put, put-IsWritable}
use distributed_documentatio.Base.{
  CText, ℕ, ◌≡◌, ◌<◌, codes, ◌++◌, some, length, leb, ◌∷◌, true, [], take, false, arith, none, refl,
  List, strn_eq, Bool-cases, inl, inr, ap, length-append, length-take, strn_eq_refl, str_eq,
  str_eq_sound, if◌then◌else◌, str_eq_refl,
}
use distributed_documentatio.NameServer.Index.{max_filename_length}
use mathlib.Core.Option.{some-injective}

-- What is copied: nothing onto the file itself, which is emptied first.
abbrev pub copied : CText → CText → CText → CText
copied src dest text = if str_eq src dest then [] else text

pub copy_whole :
    (disk : Disk) (src dest text : CText)
    → disk.content src ≡ some text
    → IsWritable disk dest text
    → ss_copy_file disk src dest ≡ (true, put disk dest (copied src dest text))
unfolding ss_copy_file put
copy_whole disk src dest text h w = elim (Bool-cases (str_eq src dest)) [
  | inl one ↦
      let fits : leb (length {A = ℕ} []) disk.limit ≡ true = ground (arith, w.fits) in
      rw (ss_copy_file, h, one, w.opens, fits) refl
  | inr two ↦
      let fits : leb (length text) disk.limit ≡ true = ground (arith, w.fits) in
      rw (ss_copy_file, h, two, w.opens, fits) refl
]

pub copied_apart : (src dest text : CText) → str_eq src dest ≡ false → copied src dest text ≡ text
copied_apart src dest text two = rw two refl

pub apart_sym : (p q : CText) → str_eq p q ≡ false → str_eq q p ≡ false
apart_sym p q two = elim (Bool-cases (str_eq q p)) [
  | inr other ↦ other
  | inl one ↦
      let same : q ≡ p = str_eq_sound q p one in
      let clash : str_eq p p ≡ false = rw same at two in absurd (ground (arith, str_eq_refl p))
]

-- What a request for a checkpoint needs to succeed.
pub record IsFresh (now : ℕ) (ss : StorageServer) (rec : FileRecord)
    (filename username tag path text : CText) : Type 0 where
  pub some_tag : 0 < length tag
  pub named : ss_find_file ss filename ≡ some rec
  pub may : ss_check_write_access rec username ≡ true
  pub idle : ss_file_has_active_writers rec.address ss.sessions ≡ false
  pub fresh : ss_find_checkpoint rec tag ≡ none
  pub built : checkpoint_path ss.storage_path now rec tag ≡ some path
  pub read : ss.disk.content rec.filepath ≡ some text
  pub whole : IsWritable ss.disk path text
  pub room : length rec.checkpoints < ss_max_checkpoints

-- The record of the file with its new checkpoint.
abbrev pub tagged : ℕ → FileRecord → CText → CText → CText → FileRecord
tagged now rec username tag path =
    ss_touch_file_metadata now
      (record rec { checkpoints = rec.checkpoints ++ slot_of tag path ∷ [] }) username false

abbrev pub server_with :
    ℕ → StorageServer → FileRecord → CText → CText → CText → CText → StorageServer
server_with now ss rec username tag path text = record ss {
  files = put_record (tagged now rec username tag path) ss.files;
  disk = put ss.disk path text;
}

abbrev pub created : CText → Reply
created tag = answered (
    (codes "OK_CHECKPOINT" ∷ take 255 (codes "Checkpoint '" ++ (tag ++ codes "' created.")) ∷ [])
    ∷ [])

module _ (now : ℕ) (ss : StorageServer) (rec : FileRecord) (filename username tag path text : CText)
    (ok : IsFresh now ss rec filename username tag path text)
    (apart : str_eq rec.filepath path ≡ false) where
  pub kept :
      keep_checkpoint now ss rec username tag path
      ≡ (created tag, server_with now ss rec username tag path text)
  unfolding keep_checkpoint
  kept =
      let few : leb ss_max_checkpoints (length rec.checkpoints) ≡ false = ground (arith, ok.room) in
      rw
        (
          keep_checkpoint,
          copy_whole ss.disk rec.filepath path text ok.read ok.whole,
          copied_apart rec.filepath path text apart,
          few,
        )
        refl

  pub made :
      make_checkpoint now ss rec username tag
      ≡ (created tag, server_with now ss rec username tag path text)
  unfolding make_checkpoint
  made = rw (make_checkpoint, ok.may, ok.idle, ok.fresh, ok.built) kept

pub with_tag_named :
    (ss : StorageServer) (filename tag : CText) (rec : FileRecord)
    (next : FileRecord → Reply × StorageServer)
    → 0 < length tag
    → ss_find_file ss filename ≡ some rec
    → with_tag ss filename tag next ≡ next rec
unfolding with_tag
with_tag_named ss filename [] rec next h named = absurd (omega arith)
with_tag_named ss filename (c ∷ tag) rec next h named = rw (with_tag, named) refl

pub find_tag-append :
    (tag : CText) (checkpoints : List CheckpointRecord) (c : CheckpointRecord)
    → find_tag tag checkpoints ≡ none
    → strn_eq max_filename_length c.tag tag ≡ true
    → find_tag tag (checkpoints ++ c ∷ []) ≡ some c
unfolding find_tag
find_tag-append tag [] c h same = rw same refl
find_tag-append tag (d ∷ checkpoints) c h same =
    elim (Bool-cases (strn_eq max_filename_length d.tag tag)) [
      | inl e ↦ let clash : some d ≡ none = rw e at h in absurd (ground arith)
      | inr e ↦ rw e (find_tag-append tag checkpoints c (rw e at h) same)
    ]

pub lt_of_leb : (a b : ℕ) → leb a b ≡ false → b < a
lt_of_leb a b h = ground arith

pub build_path_short :
    (size : ℕ) (base file path : CText) → build_path size base file ≡ some path → length path < size
unfolding build_path
build_path_short size base file path h =
    elim (Bool-cases (leb size (length (base ++ (codes "/" ++ file))))) [
      | inl e ↦ let clash : none ≡ some path = rw e at h in absurd (ground arith)
      | inr e ↦
          let both : some (base ++ (codes "/" ++ file)) ≡ some path = rw e at h in
          let same = some-injective (base ++ (codes "/" ++ file)) path both in
          let fits = lt_of_leb size (length (base ++ (codes "/" ++ file))) e in rw same at fits
    ]

pub checkpoint_path_short :
    (storage_path : CText) (now : ℕ) (rec : FileRecord) (tag path : CText)
    → checkpoint_path storage_path now rec tag ≡ some path
    → length path < max_path_length
unfolding checkpoint_path
checkpoint_path_short storage_path now rec tag path h =
    build_path_short max_path_length storage_path _ path h

pub tag_copy_short : (raw : CText) → length (tag_copy raw) < 128
unfolding tag_copy
tag_copy_short raw =
    let (pre, post, whole, _, _, _, _) = trim_string_exact (take 127 raw) in
    let same : length (tag_copy raw) ≡ length (trim_string (take 127 raw)) = refl in
    let sizes : length (take 127 raw) ≡ length (pre ++ trim_string (take 127 raw) ++ post) =
      ap length whole in
    omega (
      arith,
      same,
      sizes,
      length-append (pre ++ trim_string (take 127 raw)) post,
      length-append pre (trim_string (take 127 raw)),
      length-take 127 raw,
    )

pub reverted_to :
    (now : ℕ) (ss : StorageServer) (rec : FileRecord) (username tag other text : CText)
    (ckpt : CheckpointRecord)
    → ss.disk.content rec.filepath ≡ some other
    → IsWritable ss.disk rec.undopath other
    → (put ss.disk rec.undopath (copied rec.filepath rec.undopath other)).content ckpt.filepath
      ≡ some text
    → str_eq rec.filepath ckpt.filepath ≡ false
    → IsWritable ss.disk rec.filepath text
    → revert_to now ss rec username tag ckpt ≡ (
      answered (
          (codes "OK_REVERT" ∷ take 255 (codes "File reverted to '" ++ (tag ++ codes "'.")) ∷ [])
          ∷ []),
      record ss {
        files =
            put_record
              (ss_touch_file_metadata now (record rec { undo_available = true }) username true)
              ss.files;
        disk =
            put
              (put ss.disk rec.undopath (copied rec.filepath rec.undopath other))
              rec.filepath
              text;
      },
    )
unfolding revert_to
reverted_to now ss rec username tag other text ckpt read w kept_text apart w' =
    rw
      (
        revert_to,
        copy_whole ss.disk rec.filepath rec.undopath other read w,
        copy_whole _ ckpt.filepath rec.filepath text kept_text (
            put-IsWritable ss.disk rec.undopath rec.filepath
              (copied rec.filepath rec.undopath other) text w'),
        copied_apart ckpt.filepath rec.filepath text (apart_sym rec.filepath ckpt.filepath apart),
      )
      refl

pub exists_of :
    (disk : Disk) (path text : CText) → disk.content path ≡ some text → file_exists disk path ≡ true
unfolding file_exists
exists_of disk path text h = ground arith

pub tagged_may :
    (now : ℕ) (rec : FileRecord) (username tag path : CText)
    → ss_check_write_access rec username ≡ true
    → ss_check_write_access (tagged now rec username tag path) username ≡ true
unfolding ss_check_write_access ss_touch_file_metadata
tagged_may now rec username tag path h = h

pub find_checkpoint-tagged :
    (rec : FileRecord) (tag path : CText)
    → 0 < length tag
    → ss_find_checkpoint rec tag ≡ none
    → slot_of tag path ≡ record { tag = tag; filepath = path }
    → ss_find_checkpoint (record rec { checkpoints = rec.checkpoints ++ slot_of tag path ∷ [] }) tag
      ≡ some (record { tag = tag; filepath = path })
unfolding ss_find_checkpoint
find_checkpoint-tagged rec [] path some_tag fresh slot = absurd (omega arith)
find_checkpoint-tagged rec (c ∷ tag) path some_tag fresh slot =
    rw slot (
      find_tag-append (c ∷ tag) rec.checkpoints _ fresh
        (strn_eq_refl max_filename_length (c ∷ tag)))

abbrev pub answered_revert : CText → Reply
answered_revert tag =
    answered
      ((codes "OK_REVERT" ∷ take 255 (codes "File reverted to '" ++ (tag ++ codes "'.")) ∷ []) ∷ [])
