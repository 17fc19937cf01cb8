-- ===== src/Sources/Laws.antt =====
-- About the jobs by source of ui/src/routes/folders.jsx.
use mathlib.Core.List.{append-nil, append_assoc}
use restic_golang.Base.{
  ◌≡◌, refl, sym, ap, ◌∙◌, ◌≢◌, inl, inr, Bool-cases, String, Bool, false, not, ◌&&◌, List, [], ◌∷◌,
  ◌++◌, if◌then◌else◌, ◌==◌, value_at, value_at-upsert, eq_iff, truthy, both_branches, keep, arith,
}
use restic_golang.Sources.{
  SourceJob, Groups, BySource, push, group, add_job, add_jobs, group_jobs_by_source,
}

-- The group of a key after a job was put under one.
group-push :
    (d k : String) (j : SourceJob) (m : Groups)
    → group d (push k j m) ≡ group d m ++ (if d == k then j ∷ [] else [])
unfolding group push
group-push d k j m = value_at-upsert d k [] (λ js. js ++ j ∷ []) m ∙ elim (Bool-cases (d == k)) [
  | inl e ↦ rw e refl
  | inr e ↦ rw e (sym (append-nil (value_at d [] m)))
]

-- The jobs that the cards name.
abbrev pub on_database : String → SourceJob → Bool
on_database d j = d == j.database_id

abbrev pub on_folder : String → SourceJob → Bool
on_folder f j = not (truthy j.database_id) && f == j.folder_id

one-keep :
    (p : SourceJob → Bool) (j : SourceJob) (js : List SourceJob)
    → (if p j then j ∷ [] else []) ++ keep p js ≡ keep p (j ∷ js)
one-keep p j js = ground arith

keep-one :
    (p : SourceJob → Bool) (xs : List SourceJob) (j : SourceJob) (js : List SourceJob)
    → (xs ++ (if p j then j ∷ [] else [])) ++ keep p js ≡ xs ++ keep p (j ∷ js)
keep-one p xs j js =
    append_assoc xs (if p j then j ∷ [] else []) (keep p js) ∙ ap (λ ys. xs ++ ys) (one-keep p j js)

module _ (d : String) (named : d ≢ "") where
  unnamed : (k : String) → truthy k ≡ false → d == k ≡ false
  unnamed k h = ground (arith, eq_iff d k, eq_iff k "")

  database-add_job :
      (out : BySource) (j : SourceJob)
      → group d (add_job out j).database
        ≡ group d out.database ++ (if on_database d j then j ∷ [] else [])
  unfolding add_job
  database-add_job out j = elim (Bool-cases (truthy j.database_id)) [
    | inl e ↦ rw e (group-push d j.database_id j out.database)
    | inr e ↦
        rw (e, unnamed j.database_id e)
          (both_branches (λ (o : BySource). group d o.database ≡ group d out.database ++ [])
            (truthy j.folder_id) (sym (append-nil _)) (sym (append-nil _)))
  ]

  folder-add_job :
      (out : BySource) (j : SourceJob)
      → group d (add_job out j).folder
        ≡ group d out.folder ++ (if on_folder d j then j ∷ [] else [])
  unfolding add_job
  folder-add_job out j = elim (Bool-cases (truthy j.database_id)) [
    | inl e ↦ rw e (sym (append-nil _))
    | inr e ↦ elim (Bool-cases (truthy j.folder_id)) [
      | inl f ↦ rw (e, f) (group-push d j.folder_id j out.folder)
      | inr f ↦ rw (e, f, unnamed j.folder_id f) (sym (append-nil _))
    ]
  ]

  database-add_jobs :
      (out : BySource) (js : List SourceJob)
      → group d (add_jobs out js).database ≡ group d out.database ++ keep (on_database d) js
  unfolding add_jobs
  database-add_jobs out [] = sym (append-nil _)
  database-add_jobs out (j ∷ js) =
      database-add_jobs (add_job out j) js
      ∙ ap (λ xs. xs ++ keep (on_database d) js) (database-add_job out j)
      ∙ keep-one (on_database d) (group d out.database) j js

  folder-add_jobs :
      (out : BySource) (js : List SourceJob)
      → group d (add_jobs out js).folder ≡ group d out.folder ++ keep (on_folder d) js
  unfolding add_jobs
  folder-add_jobs out [] = sym (append-nil _)
  folder-add_jobs out (j ∷ js) =
      folder-add_jobs (add_job out j) js
      ∙ ap (λ xs. xs ++ keep (on_folder d) js) (folder-add_job out j)
      ∙ keep-one (on_folder d) (group d out.folder) j js

-- For an id that is not empty: the jobs shown on a database's card are exactly those of the list
-- that name the database, in the list's order; those on a folder's card are exactly the jobs that
-- name the folder and no database.
pub group_jobs_by_source_lem :
    (d : String) (js : List SourceJob)
    → d ≢ ""
    → (group d (group_jobs_by_source js).database ≡ keep (on_database d) js)
      × (group d (group_jobs_by_source js).folder ≡ keep (on_folder d) js)
unfolding group_jobs_by_source group
group_jobs_by_source_lem d js named = (database-add_jobs d named _ js, folder-add_jobs d named _ js)
