-- ===== src/Lib.antt =====
-- The verification library of the web interface of the restic backup manager.
--
-- The program is a server in Go (internal/core, cmd) and a React interface in JavaScript (ui/src).
-- This library models the interface's own logic: what it keeps, what it sends, what it makes of the
-- answers and of the events, and what it shows. React, the browser and the server are not modelled;
-- what they provide is an argument: the outcome of `fetch`, the messages of an event stream, a clock
-- and a locale, the answer to a question. Where code awaits an answer, the part up to the `await` and
-- the part behind it are two functions, so that anything can happen between them.
--
-- The parts and their sources:
--   Base: shared names, Boolean tests, lists over native numbers, JavaScript's strings, and
--     `Array.prototype.sort` by the sign of a comparator (Base.Sort), with its laws (Base.Ranks).
--   Api: ui/src/lib/api.js. `settle` is what `req` resolves to; the functions of Api.Endpoints give
--     the request of each endpoint, and Api.Encode is what the browser's `encodeURIComponent` and
--     `URLSearchParams` do.
--   Runs: ui/src/lib/runs.js. Format: ui/src/lib/format.js. Speed: ui/src/lib/speed.js.
--   Live: ui/src/lib/live.jsx. `on_message` is the handler of the shared stream, `on_stream` the
--     handler of a run's stream; a list of messages is the order in which they arrive.
--   UseFetch: ui/src/lib/use-fetch.js, loads that may answer in any order, as events.
--   Session: ui/src/lib/auth.jsx and the gate `RequireAuth` of ui/src/main.jsx.
--   StartRun: ui/src/lib/start-run.js, the answer of every endpoint that starts an operation.
--   Confirm: ui/src/components/confirm.jsx. DockerStatus: ui/src/lib/docker.js.
--   Retention: ui/src/lib/retention.js, and the editor in ui/src/components/retention-editor.jsx.
--   Schedule: ui/src/lib/schedule.js, and the editor in ui/src/components/schedule-editor.jsx.
--   Pagination: ui/src/lib/pagination.js and ui/src/components/pagination.jsx.
--   ListPage: what the three pages of lists share, and DetailPage what the pages of one thing share:
--     their loads, what they show, the page number and deletions. Sources: ui/src/routes/folders.jsx.
--     Jobs: ui/src/routes/jobs.jsx, when its dialog is filled in Jobs.Opening. Repositories: ui/src/routes/repositories.jsx, with Usage and Card.
--     JobDetail: ui/src/routes/job-detail.jsx. RepositoryDetail: ui/src/routes/repository-detail.jsx.
--   AuthForms: ui/src/routes/setup.jsx, login.jsx and settings.jsx, and the redirects.
--   Dashboard: ui/src/routes/dashboard.jsx, selection and order in the module itself, the sentence on
--     top in Dashboard.Health, the recent failures in Dashboard.Failures, the loads and the parts of
--     the page in Dashboard.Page, the texts of its cards in Dashboard.Cards.
--   Snapshots: the list of ui/src/components/snapshots-panel.jsx, its rows in Snapshots.Row.
--   Browser: ui/src/components/snapshot-browser.jsx, its breadcrumbs in Browser.Crumbs, what it shows
--     in Browser.View and the loads of its folders in Browser.Listing. Restore: ui/src/lib/snapshots.js, the dialog of
--     ui/src/components/snapshots-panel.jsx, and in Restore.Database that of
--     ui/src/components/db-restore-dialog.jsx.
--   History: ui/src/components/run-history.jsx, run-strip.jsx, log-panel.jsx and job-card.jsx; JobCard
--     has the card of a running job and the loads of the strips, History.Log the log on the screen, and
--     History.Rows the rows of runs, with those of ui/src/components/active-runs.jsx.
--   RunPage: ui/src/routes/run.jsx, and its page in RunPage.View.
--   Activity: ui/src/routes/activity.jsx.
--   Sites: ui/src/routes/coolify.jsx, its rows in Sites.Rows; QuickBackup: its dialog.
--     RepoSettings and SpeedLimit: the two cards of ui/src/components/repo-settings.jsx, with what they
--     show in RepoSettings.View.
--   SpeedTest: ui/src/components/speed-test.jsx. Shell: ui/src/components/shell.jsx and
--     getting-started.jsx, ui/src/lib/theme.jsx.
--   Tests: the theorems at concrete inputs.
--
-- How values are modelled. Counts, sizes, dates and durations are natural numbers; the code treats
-- them as such, and JavaScript's doubles hold them exactly below 2 ^ 53. Durations are in
-- milliseconds and quotients are kept as fractions until they are rounded. A text that may be
-- missing is "" where the code tests only whether it is there, and an option elsewhere. A date that
-- cannot be read is `none` for the clock, and `nan` in a comparator. `show` writes numbers below
-- 10 ^ 25, by recursion on that many digits; all other recursion is on a list or a number that the
-- code itself walks, but for two loops on fuel: `renders`, the effect that corrects a page number, and
-- `follow`, the redirects of the session; two steps are enough for each. The
-- lower case of a run's kind and the capital of a description are those of ASCII letters, since these
-- are the code's own words; of a search and of the names it is compared with, `toLowerCase` is an
-- argument.
--
-- Not modelled: markup, styles and icons; effects that only set the page's title or scroll;
-- what a regular expression finds, which is an argument; the Go server; the wrappers in ui/src/components/ui.
pub mod Base
pub mod Api
pub mod Runs
pub mod Live
pub mod Retention
pub mod Schedule
pub mod UseFetch
pub mod Session
pub mod Format
pub mod Pagination
pub mod StartRun
pub mod Confirm
pub mod DockerStatus
pub mod Speed
pub mod Dashboard
pub mod Browser
pub mod History
pub mod Restore
pub mod QuickBackup
pub mod RepoSettings
pub mod RunPage
pub mod SpeedLimit
pub mod Activity
pub mod ListPage
pub mod Sources
pub mod Repositories
pub mod Jobs
pub mod Snapshots
pub mod DetailPage
pub mod RepositoryDetail
pub mod JobDetail
pub mod AuthForms
pub mod JobCard
pub mod SpeedTest
pub mod Shell
pub mod Sites
pub mod Tests
