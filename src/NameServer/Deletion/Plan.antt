-- ===== src/NameServer/Deletion/Plan.antt =====
-- What the plan of a deletion holds.
use distributed_documentatio.Base.{
  List, CText, Bool, ◌≡◌, Option, false, true, ℕ, ◌∷◌, get_elem?, str_eq, some, arith, Bool-cases,
  ◌||◌, sym, str_eq_refl, inl, inr, [], ◌∙◌, suc, str_eq_sound, none, Option-cases, subst, refl,
}
use distributed_documentatio.NameServer.Deletion.{
  DeletePlanEntry, matches, Planned, make_plan, stopped, planned, plan_entry, with_entry,
}
use distributed_documentatio.NameServer.Files.{FileMetadata}
use distributed_documentatio.NameServer.Sharing.Grants.{is_answered}
use distributed_documentatio.Acl.{same_user}
use distributed_documentatio.NameServer.Servers.{Servers}
use mathlib.Core.Option.{some-injective}
use distributed_documentatio.NameServer.State.{server_place, holds_file}

-- A path that is planned.
unfoldable pub in_paths : List DeletePlanEntry → CText → Bool
in_paths [] j = false
in_paths (entry ∷ plan) j = str_eq entry.path j || in_paths plan j

-- What is known of a plan: it holds only paths that match, and every file that matches, and these are the user's.
pub record IsPlan (user : CText) (target_meta : FileMetadata) (target : CText)
    (files : List FileMetadata) (plan : List DeletePlanEntry) : Type 0 where
  pub sound : (j : CText) → in_paths plan j ≡ true → matches target_meta target j ≡ true
  pub complete :
      (i : ℕ) (fm : FileMetadata)
      → get_elem? files i ≡ some fm
      → matches target_meta target fm.filename ≡ true
      → (in_paths plan fm.filename ≡ true) × (same_user fm.owner user ≡ true)

module _ (user : CText) (target_meta : FileMetadata) (target : CText) where
  skipped_complete :
      (fm : FileMetadata) (files : List FileMetadata) (plan : List DeletePlanEntry)
      → matches target_meta target fm.filename ≡ false
      → IsPlan user target_meta target files plan
      → (i : ℕ) (f : FileMetadata) → get_elem? (fm ∷ files) i ≡ some f
      → matches target_meta target f.filename ≡ true
      → (in_paths plan f.filename ≡ true) × (same_user f.owner user ≡ true)
  skipped_complete fm files plan other p ℕ.zero f at h =
      let same : fm ≡ f = some-injective fm f at in
      let match : matches target_meta target fm.filename ≡ true = rw same h in
      absurd (let clash = sym other ∙ match in ground arith)
  skipped_complete fm files plan other p (suc i) f at h = p.complete i f at h

  -- A file that does not match changes nothing.
  skipped-IsPlan :
      (fm : FileMetadata) (files : List FileMetadata) (plan : List DeletePlanEntry)
      → matches target_meta target fm.filename ≡ false
      → IsPlan user target_meta target files plan
      → IsPlan user target_meta target (fm ∷ files) plan
  skipped-IsPlan fm files plan other p = record {
    sound = p.sound;
    complete = skipped_complete fm files plan other p;
  }

  entered_complete :
      (fm : FileMetadata) (ss : Option ℕ) (files : List FileMetadata) (plan : List DeletePlanEntry)
      → same_user fm.owner user ≡ true
      → IsPlan user target_meta target files plan
      → (i : ℕ) (f : FileMetadata) → get_elem? (fm ∷ files) i ≡ some f
      → matches target_meta target f.filename ≡ true
      → (in_paths (plan_entry fm ss ∷ plan) f.filename ≡ true) × (same_user f.owner user ≡ true)
  unfolding in_paths
  entered_complete fm ss files plan own p ℕ.zero f at h =
      let same : fm ≡ f = some-injective fm f at in
      rw (← same) (ground (arith, str_eq_refl fm.filename), own)
  entered_complete fm ss files plan own p (suc i) f at h =
      let (there, his) = p.complete i f at h in (ground (arith, there), his)

  -- A file of the user that matches is put on the plan.
  entered-IsPlan :
      (fm : FileMetadata) (ss : Option ℕ) (files : List FileMetadata) (plan : List DeletePlanEntry)
      → matches target_meta target fm.filename ≡ true
      → same_user fm.owner user ≡ true
      → IsPlan user target_meta target files plan
      → IsPlan user target_meta target (fm ∷ files) (plan_entry fm ss ∷ plan)
  unfolding in_paths
  entered-IsPlan fm ss files plan match own p = record {
    sound = λ j h. elim (Bool-cases (str_eq fm.filename j)) [
      | inl e ↦ rw (← str_eq_sound fm.filename j e) match
      | inr e ↦ p.sound j (rw e at h)
    ];
    complete = entered_complete fm ss files plan own p;
  }

  -- What comes of the loop: an error, or a plan.
  abbrev pub Plans : List FileMetadata → Planned → Type 0
  Plans files (stopped e) = is_answered e ≡ false
  Plans files (planned plan) = IsPlan user target_meta target files plan

  with_entry-Plans :
      (fm : FileMetadata) (ss : Option ℕ) (files : List FileMetadata) (rest : Planned)
      → matches target_meta target fm.filename ≡ true
      → same_user fm.owner user ≡ true
      → Plans files rest
      → Plans (fm ∷ files) (with_entry (plan_entry fm ss) rest)
  with_entry-Plans fm ss files (stopped e) match own p = p
  with_entry-Plans fm ss files (planned plan) match own p =
      entered-IsPlan fm ss files plan match own p

  skipped-Plans :
      (fm : FileMetadata) (files : List FileMetadata) (rest : Planned)
      → matches target_meta target fm.filename ≡ false
      → Plans files rest
      → Plans (fm ∷ files) rest
  skipped-Plans fm files (stopped e) other p = p
  skipped-Plans fm files (planned plan) other p = skipped-IsPlan fm files plan other p

  pub make_plan-Plans :
      (servers : Servers) (files : List FileMetadata)
      → Plans files (make_plan user target_meta target servers files)
  unfolding make_plan is_answered in_paths
  make_plan-Plans servers [] = record {
    sound = λ j h. absurd (ground arith);
    complete = λ i f at h. absurd (ground arith);
  }
  make_plan-Plans servers (fm ∷ files) =
      let rest = make_plan user target_meta target servers files in
      let ih = make_plan-Plans servers files in
      elim (Bool-cases (matches target_meta target fm.filename)) [
        | inr other ↦ rw (make_plan, other) (skipped-Plans fm files rest other ih)
        | inl match ↦ elim (Bool-cases (same_user fm.owner user)) [
          | inr stranger ↦ rw (make_plan, match, stranger) refl
          | inl own ↦ elim (Bool-cases fm.is_directory) [
            | inl folder ↦
                let step : make_plan user target_meta target servers (fm ∷ files)
                    ≡ with_entry (plan_entry fm none) rest =
                  rw (make_plan, match, own, folder) refl in
                subst (Plans (fm ∷ files)) (sym step)
                  (with_entry-Plans fm none files rest match own ih)
            | inr plain ↦ elim (Option-cases (server_place (holds_file fm) 0 servers)) [
              | inl offline ↦ rw (make_plan, match, own, offline, plain) refl
              | inr (s, found) ↦
                  let step : make_plan user target_meta target servers (fm ∷ files)
                      ≡ with_entry (plan_entry fm (some s)) rest =
                    rw (make_plan, match, own, found, plain) refl in
                  subst (Plans (fm ∷ files)) (sym step)
                    (with_entry-Plans fm (some s) files rest match own ih)
            ]
          ]
        ]
      ]
