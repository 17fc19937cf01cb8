-- ===== src/Dashboard/Laws.antt =====
-- About the lists and the sentence of ui/src/routes/dashboard.jsx.
use restic_golang.Base.{
  ℕ, ◌≤◌, ◌<◌, ◌+◌, min, ◌≡◌, ◌≢◌, refl, ap, ◌∙◌, sym, String, Bool, true, false, not, ◌||◌,
  present, length-keep-le, sort-perm, List, [], ◌∷◌, map, arith, All, All-sort, All-keep_self,
  if◌then◌else◌, ◌==◌, Ordering, sort, keep, length, length-take, count-sort, Ranked, sort-Ranked,
  Ranked-take, length-sort, All-take, both_branches,
}
use mathlib.Core.List.{Perm}
use mathlib.Core.List.Perm
use mathlib.Core.Path.{subst}
use restic_golang.Dashboard.{
  Job, Attention, Time, at, infinite, nan, by_difference, ended_badly, is_overdue, failing_rank,
  by_attention, needing, select_attention, by_due, select_upcoming, rank, rank_from, same_rank,
  by_card, order_job_cards,
}
use restic_golang.Dashboard.Health.{success, health, health_of}
use restic_golang.Format.{Clock}

-- The job is well: its last run did not end badly, and it is not overdue.
abbrev pub IsWell : Job → Type 0
IsWell j = (ended_badly j.last_run ≡ false) × (is_overdue j ≡ false)

needing-none :
    (jobs : List Job)
    → length (keep (λ a. a.failed_last) (needing jobs)) ≡ 0
    → length (keep (λ a. a.overdue) (needing jobs)) ≡ 0
    → All IsWell jobs
unfolding needing
needing-none [] h k = tt
needing-none (j ∷ jobs) h k = ground (arith, needing-none jobs)

success_lem :
    (failed checks overdue never_run total : ℕ)
    → (health_of failed checks overdue never_run total).tone ≡ success
    → (failed ≡ 0) × (checks ≡ 0) × (overdue ≡ 0) × (never_run ≢ total)
unfolding health_of
success_lem failed checks overdue never_run total h = ground arith

-- When the dashboard says in green that all backups are healthy, they are: the last run of no job
-- failed or was interrupted, no job is overdue, and no repository check found errors; and at least
-- one job has run.
pub health-success :
    (clock : Clock) (jobs : List Job) (checks : ℕ)
    → (health jobs (select_attention clock jobs) checks).tone ≡ success
    → All IsWell jobs
      × (checks ≡ 0)
      × (length (keep (λ j. not (present j.last_run)) jobs) < length jobs)
unfolding health select_attention
health-success clock jobs checks h =
    let (failed, none_bad, overdue, ran) = success_lem _ _ _ _ _ h in
    let count = λ (p : Attention → Bool). sym (count-sort (by_attention clock) p (needing jobs)) in
    (
      needing-none jobs (count (λ a. a.failed_last) ∙ failed) (count (λ a. a.overdue) ∙ overdue),
      none_bad,
      omega (arith, ran, length-keep-le (λ j. not (present j.last_run)) jobs),
    )

by_attention-behind :
    (clock : Clock) (a b : Attention)
    → by_attention clock a b ≡ Ordering.gt
    → failing_rank b ≤ failing_rank a
unfolding by_attention failing_rank
by_attention-behind clock a b h = ground arith

by_attention-front :
    (clock : Clock) (a b : Attention)
    → by_attention clock a b ≢ Ordering.gt
    → failing_rank a ≤ failing_rank b
unfolding by_attention failing_rank
by_attention-front clock a b h = ground arith

-- The entries of the attention list say of their job what is the case, and that is one of the two.
abbrev pub IsTrue : Attention → Type 0
IsTrue a =
    (a.failed_last ≡ ended_badly a.job.last_run)
    × (a.overdue ≡ is_overdue a.job)
    × ((a.failed_last || a.overdue) ≡ true)

needing-IsTrue : (jobs : List Job) → All IsTrue (needing jobs)
unfolding needing
needing-IsTrue [] = tt
needing-IsTrue (j ∷ jobs) = ground (arith, needing-IsTrue jobs)

needs : Job → Bool
needs j = ended_badly j.last_run || is_overdue j

map-needing : (jobs : List Job) → map (λ a. a.job) (needing jobs) ≡ keep needs jobs
unfolding needing needs
map-needing [] = refl
map-needing (j ∷ jobs) = ground (arith, map-needing jobs)

-- The attention list holds the jobs that need attention, each as often as it is given: those whose
-- last run failed or was interrupted, and those that are overdue; its entries tell which; and the
-- failing ones stand in front, whatever their dates.
pub select_attention_lem :
    (clock : Clock) (jobs : List Job)
    → Perm
        (map (λ a. a.job) (select_attention clock jobs))
        (keep (λ j. ended_badly j.last_run || is_overdue j) jobs)
      × All IsTrue (select_attention clock jobs)
      × Ranked failing_rank (select_attention clock jobs)
unfolding select_attention needs
select_attention_lem clock jobs = (
  subst (Perm (map (λ a. a.job) (select_attention clock jobs))) (map-needing jobs)
      (Perm.map (λ a. a.job) (sort-perm (by_attention clock) (needing jobs))),
  All-sort (by_attention clock) IsTrue (needing jobs) (needing-IsTrue jobs),
  sort-Ranked (by_attention clock) failing_rank (by_attention-behind clock)
      (by_attention-front clock) (needing jobs),
)

-- 0 for a job with a next date.
abbrev pub due_rank : Job → ℕ
due_rank j = if j.next_due_at == "" then 1 else 0

by_due-behind :
    (clock : Clock) (a b : Job) → by_due clock a b ≡ Ordering.gt → due_rank b ≤ due_rank a
unfolding by_due
by_due-behind clock a b h = ground arith

by_due-front :
    (clock : Clock) (a b : Job) → by_due clock a b ≢ Ordering.gt → due_rank a ≤ due_rank b
unfolding by_due
by_due-front clock a b h = ground arith

-- The list of upcoming backups holds jobs with a schedule that is on, five at most and as many as
-- there are up to that, and the ones with a date stand in front of those without.
pub select_upcoming_lem :
    (clock : Clock) (jobs : List Job)
    → All (λ j. j.schedule_enabled ≡ true) (select_upcoming clock jobs)
      × (length (select_upcoming clock jobs) ≡ min 5 (length (keep (λ j. j.schedule_enabled) jobs)))
      × Ranked due_rank (select_upcoming clock jobs)
unfolding select_upcoming
select_upcoming_lem clock jobs =
    let enabled = keep (λ j. j.schedule_enabled) jobs in
    let sorted = sort (by_due clock) enabled in
    (
      All-take (λ j. j.schedule_enabled ≡ true) 5 sorted
          (All-sort (by_due clock) _ enabled
            (All-keep_self _ (λ j. j.schedule_enabled) (λ j h. h) jobs)),
      length-take 5 sorted ∙ ap (min 5) (length-sort (by_due clock) enabled),
      Ranked-take due_rank 5 sorted
          (sort-Ranked (by_due clock) due_rank (by_due-behind clock) (by_due-front clock) enabled),
    )

rank_from_lem :
    (i : ℕ) (id : String) (l : List Attention) (r : Time) → r ≢ nan → rank_from i id l r ≢ nan
unfolding rank_from
rank_from_lem i id [] r h = h
rank_from_lem i id (a ∷ l) r h =
    rank_from_lem (i + 1) id l _
      (both_branches (λ t. t ≢ nan) (a.job.id == id) {x = at i} {y = r} (λ e. cc) h)

-- 0 where the rank is a place in the list.
abbrev pub place_rank : Time → ℕ
place_rank (at _) = 0
place_rank _ = 1

-- 0 for a job that the attention list names.
abbrev pub card_rank : List Attention → Job → ℕ
card_rank l j = place_rank (rank j.id l)

rank_behind :
    (ra rb : Time) (o : Ordering)
    → ra ≢ nan
    → rb ≢ nan
    → (if not (same_rank ra rb) then by_difference ra rb else o) ≡ Ordering.gt
    → place_rank rb ≤ place_rank ra
unfolding same_rank by_difference
rank_behind (at a) (at b) o h k e = omega arith
rank_behind (at a) infinite o h k e = absurd (ground arith)
rank_behind (at a) nan o h k e = absurd (k refl)
rank_behind infinite (at b) o h k e = omega arith
rank_behind infinite infinite o h k e = omega arith
rank_behind infinite nan o h k e = absurd (k refl)
rank_behind nan rb o h k e = absurd (h refl)

rank_front :
    (ra rb : Time) (o : Ordering)
    → ra ≢ nan
    → rb ≢ nan
    → (if not (same_rank ra rb) then by_difference ra rb else o) ≢ Ordering.gt
    → place_rank ra ≤ place_rank rb
unfolding same_rank by_difference
rank_front (at a) (at b) o h k e = omega arith
rank_front (at a) infinite o h k e = omega arith
rank_front (at a) nan o h k e = absurd (k refl)
rank_front infinite (at b) o h k e = absurd (e refl)
rank_front infinite infinite o h k e = omega arith
rank_front infinite nan o h k e = absurd (k refl)
rank_front nan rb o h k e = absurd (h refl)

rank_there : (id : String) (l : List Attention) → rank id l ≢ nan
unfolding rank
rank_there id l = rank_from_lem 0 id l infinite (λ e. cc)

-- The cards are the jobs, each as often as it is given, and those that the attention list names
-- stand in front of the others.
pub order_job_cards_lem :
    (clock : Clock) (jobs : List Job) (l : List Attention)
    → Perm (order_job_cards clock jobs l) jobs × Ranked (card_rank l) (order_job_cards clock jobs l)
unfolding order_job_cards by_card
order_job_cards_lem clock jobs l = (
  sort-perm (by_card clock l) jobs,
  sort-Ranked (by_card clock l) (card_rank l)
      (λ a b. rank_behind (rank a.id l) (rank b.id l) _ (rank_there a.id l) (rank_there b.id l))
      (λ a b. rank_front (rank a.id l) (rank b.id l) _ (rank_there a.id l) (rank_there b.id l))
      jobs,
)
