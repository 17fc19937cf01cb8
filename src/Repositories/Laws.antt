-- ===== src/Repositories/Laws.antt =====
-- About the form and the usage of ui/src/routes/repositories.jsx.
use restic_golang.Base.{
  ℕ, ◌+◌, ◌≡◌, ◌⊎◌, refl, sym, ap, ◌∙◌, inl, inr, Bool-cases, String, Bool, true, false, Option,
  none, some, List, [], ◌∷◌, ◌==◌, keep, length, value_at-upsert, arith,
}
use restic_golang.Format.{Clock}
use restic_golang.Repositories.Usage.{
  UsingJob, Usage, Usages, no_usage, is_after, is_later, newer, count_job, add_usage, add_usages,
  usage_by_repository, usage_of,
}
use restic_golang.Runs.{Run}

after_irrefl : (a : Option ℕ) → is_after a a ≡ false
unfolding is_after
after_irrefl none = refl
after_irrefl (some x) = ground arith

after_trans : (a b c : Option ℕ) → is_after a b ≡ false → is_after c b ≡ true → is_after a c ≡ false
unfolding is_after
after_trans none b c h k = refl
after_trans (some x) b none h k = refl
after_trans (some x) none (some z) h k = cc
after_trans (some x) (some y) (some z) h k = ground arith

abbrev pub stores_in : String → UsingJob → Bool
stores_in id j = id == j.repository_id

module _ (clock : Clock) where
  -- The loop on the jobs of one repository.
  tally : Usage → List UsingJob → Usage
  tally u [] = u
  tally u (j ∷ js) = tally (count_job clock j u) js

  usage-add_usages :
      (id : String) (m : Usages) (js : List UsingJob)
      → usage_of id (add_usages clock m js) ≡ tally (usage_of id m) (keep (stores_in id) js)
  unfolding add_usages usage_of add_usage tally
  usage-add_usages id m [] = refl
  usage-add_usages id m (j ∷ js) =
      usage-add_usages id (add_usage clock j m) js
      ∙ ap (λ u. tally u (keep (stores_in id) js))
          (value_at-upsert id j.repository_id no_usage (count_job clock j) m)
      ∙ elim (Bool-cases (id == j.repository_id)) [ inl e ↦ rw e refl | inr e ↦ rw e refl ]

  tally-jobs : (u : Usage) (js : List UsingJob) → (tally u js).jobs ≡ u.jobs + length js
  unfolding tally count_job
  tally-jobs u [] = omega arith
  tally-jobs u (j ∷ js) = omega (arith, tally-jobs (count_job clock j u) js)

  -- The newest run so far is there, and `run` is not later.
  abbrev pub IsNotLater : Option Run → Run → Type 0
  IsNotLater none run = ⊥
  IsNotLater (some old) run = is_later clock run.started_at old.started_at ≡ false

  -- `run` is the last run of one of the jobs.
  abbrev pub IsLastRun : Run → List UsingJob → Type 0
  IsLastRun run [] = ⊥
  IsLastRun run (j ∷ js) = (j.last_run ≡ some run) ⊎ IsLastRun run js

  newer-IsNotLater :
      (o latest : Option Run) (run : Run)
      → IsNotLater latest run
      → IsNotLater (newer clock o latest) run
  unfolding newer is_later
  newer-IsNotLater none latest run h = h
  newer-IsNotLater (some r) none run h = absurd h
  newer-IsNotLater (some r) (some l) run h =
      elim (Bool-cases (is_later clock r.started_at l.started_at)) [
        | inl e ↦ rw e (
            after_trans (clock.instant run.started_at) (clock.instant l.started_at)
              (clock.instant r.started_at) h e)
        | inr e ↦ rw e h
      ]

  newer_self : (run : Run) (latest : Option Run) → IsNotLater (newer clock (some run) latest) run
  unfolding newer is_later
  newer_self run none = after_irrefl (clock.instant run.started_at)
  newer_self run (some l) = elim (Bool-cases (is_later clock run.started_at l.started_at)) [
    | inl e ↦ rw e (after_irrefl (clock.instant run.started_at))
    | inr e ↦ rw e e
  ]

  tally-IsNotLater :
      (u : Usage) (js : List UsingJob) (run : Run)
      → IsNotLater u.latest run ⊎ IsLastRun run js
      → IsNotLater (tally u js).latest run
  unfolding tally count_job
  tally-IsNotLater u [] run (inl h) = h
  tally-IsNotLater u [] run (inr h) = absurd h
  tally-IsNotLater u (j ∷ js) run (inl h) =
      tally-IsNotLater (count_job clock j u) js run
        (inl (newer-IsNotLater j.last_run u.latest run h))
  tally-IsNotLater u (j ∷ js) run (inr (inl e)) =
      tally-IsNotLater (count_job clock j u) js run (inl (rw e (newer_self run u.latest)))
  tally-IsNotLater u (j ∷ js) run (inr (inr h)) =
      tally-IsNotLater (count_job clock j u) js run (inr h)

  newer-some :
      (o latest : Option Run) (run : Run)
      → newer clock o latest ≡ some run
      → (o ≡ some run) ⊎ (latest ≡ some run)
  unfolding newer
  newer-some none latest run h = inr h
  newer-some (some r) none run h = inl h
  newer-some (some r) (some l) run h = ground arith

  tally-IsLastRun :
      (u : Usage) (js : List UsingJob) (run : Run)
      → (tally u js).latest ≡ some run
      → (u.latest ≡ some run) ⊎ IsLastRun run js
  unfolding tally count_job
  tally-IsLastRun u [] run h = inl h
  tally-IsLastRun u (j ∷ js) run h = elim (tally-IsLastRun (count_job clock j u) js run h) [
    | inl e ↦ elim (newer-some j.last_run u.latest run e) [ inl f ↦ inr (inl f) | inr f ↦ inl f ]
    | inr k ↦ inr (inr k)
  ]

-- A repository's card counts exactly the jobs that store in it. Its latest run is the last run of
-- one of these jobs; and it is there, and none of their last runs is later, as soon as one of them
-- has run.
pub usage_by_repository_lem :
    (clock : Clock) (id : String) (js : List UsingJob)
    → let mine = keep (stores_in id) js in
      let u = usage_of id (usage_by_repository clock js) in
      (u.jobs ≡ length mine)
      × ((run : Run) → u.latest ≡ some run → IsLastRun clock run mine)
      × ((run : Run) → IsLastRun clock run mine → IsNotLater clock u.latest run)
unfolding usage_by_repository usage_of
usage_by_repository_lem clock id js =
    let mine = keep (stores_in id) js in
    let e = usage-add_usages clock id [] js in
    (
      ap (λ (u : Usage). u.jobs) e ∙ tally-jobs clock no_usage mine ∙ omega arith,
      λ run h.
          elim (tally-IsLastRun clock no_usage mine run
            (sym (ap (λ (u : Usage). u.latest) e) ∙ h)) [ inl n ↦ ground arith | inr k ↦ k ],
      λ run h. rw e (tally-IsNotLater clock no_usage mine run (inr h)),
    )
