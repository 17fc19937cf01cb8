-- ===== src/Browser/Listing/Laws.antt =====
-- About the answers to the loads of folders (ui/src/components/snapshot-browser.jsx).
use restic_golang.Base.{
  ℕ, ◌≡◌, ◌⊎◌, refl, sym, ◌∙◌, inl, inr, String, Bool, true, false, ◌&&◌, List, [], ◌∷◌, arith,
  if◌then◌else◌, ◌==◌, eqb, length, both_branches, each_branch, eq_iff, eqb_iff,
}
use restic_golang.Browser.{Browser, Entry, reset, listing, listed, toggle}
use restic_golang.Browser.View.{
  Input, input, open_folder, next, back, set_in_place, set_stop_site, set_target,
}
use restic_golang.Browser.Listing.{
  Answer, Loads, ask, moved, asked_at, Event, opened, closed, pressed, ticked, slow_after, answered,
  is_current, settle, step, steps,
}

-- The list and the error of an answer.
abbrev pub Lists : Answer → Browser → Type 0
Lists a b =
    (b.entries ≡ (if a.ok then a.entries else [])) × (b.error ≡ (if a.ok then "" else a.message))

-- The dialog is closed, or it waits, or it shows the answer for the folder that it names.
abbrev pub Shows : (files : ℕ → String → Answer) → Loads → Type 0
Shows files s =
    (s.alive ≡ false)
    ⊎ ((s.browser.loading ≡ true) ⊎ Lists (files (length s.asked) s.browser.path) s.browser)

-- The last request is for the folder of the browser.
abbrev IsAsked : Loads → Type 0
IsAsked s = (s.alive ≡ false) ⊎ (asked_at (length s.asked) s.asked ≡ s.browser.path)

abbrev IsWell : (files : ℕ → String → Answer) → Loads → Type 0
IsWell files s = IsAsked s × Shows files s

ask-IsWell : (files : ℕ → String → Answer) (s : Loads) → IsWell files (ask s)
unfolding ask asked_at listing
ask-IsWell files s = (inr (ground arith), inr (inl refl))

listed_lem :
    (ok : Bool) (entries : List Entry) (message : String) (b : Browser)
    → ((listed ok entries message b).path ≡ b.path)
      × ((listed ok entries message b).entries ≡ (if ok then entries else []))
      × ((listed ok entries message b).error ≡ (if ok then "" else message))
unfolding listed
listed_lem true entries message b = (refl, refl, refl)
listed_lem false entries message b = (refl, refl, refl)

Lists-at :
    (files : ℕ → String → Answer) (n : ℕ) (p q : String) (b : Browser)
    → p ≡ q
    → Lists (files n p) b
    → Lists (files n q) b
Lists-at files n p q b e h = rw (sym e) h

settle-IsWell :
    (files : ℕ → String → Answer) (s : Loads)
    → s.alive ≡ true
    → IsAsked s
    → IsWell files (settle (files (length s.asked) (asked_at (length s.asked) s.asked)) s)
unfolding settle
settle-IsWell files s live (inl dead) = cc
settle-IsWell files s live (inr h) =
    let n = length s.asked in
    let at = asked_at n s.asked in
    let a = files n at in
    let b = listed a.ok a.entries a.message s.browser in
    let (path, entries, error) = listed_lem a.ok a.entries a.message s.browser in
    let same = h ∙ sym path in
    (inr same, inr (inr (Lists-at files n at b.path b same (entries, error))))

-- Two browsers with one list.
abbrev IsSame : Browser → Browser → Type 0
IsSame b c =
    (b.path ≡ c.path) × (b.loading ≡ c.loading) × (b.entries ≡ c.entries) × (b.error ≡ c.error)

keep-IsWell :
    (files : ℕ → String → Answer) (b : Browser) (s : Loads)
    → IsSame b s.browser
    → IsWell files s
    → IsWell files (record s { browser = b })
keep-IsWell files b s (p, l, n, e) (a, h) = (
  elim a [ inl dead ↦ inl dead | inr asked ↦ inr (asked ∙ sym p) ],
  elim h [
    | inl dead ↦ inl dead
    | inr (inl waits) ↦ inr (inl (l ∙ waits))
    | inr (inr (ns, es)) ↦
        inr (inr (Lists-at files (length s.asked) s.browser.path b.path b (sym p) (n ∙ ns, e ∙ es)))
  ],
)

-- An input changes nothing of the list but the folder.
input_lem :
    (b : Browser) (i : Input)
    → ((input b i).loading ≡ b.loading)
      × ((input b i).entries ≡ b.entries)
      × ((input b i).error ≡ b.error)
unfolding input
input_lem b (open_folder path) = (refl, refl, refl)
input_lem b next = (refl, refl, refl)
input_lem b back = (refl, refl, refl)
input_lem b (set_in_place checked) = (refl, refl, refl)
input_lem b (set_stop_site checked) = (refl, refl, refl)
input_lem b (set_target target) = (refl, refl, refl)

moved-IsWell :
    (files : ℕ → String → Answer) (b : Browser) (s : Loads)
    → (b.loading ≡ s.browser.loading)
      × (b.entries ≡ s.browser.entries)
      × (b.error ≡ s.browser.error)
    → IsWell files s
    → IsWell files (moved b s)
unfolding moved
moved-IsWell files b s same h =
    each_branch (IsWell files) (b.path == s.browser.path) {x = record s { browser = b }}
      {y = ask (record s { browser = b })}
      (λ e. keep-IsWell files b s ((eq_iff b.path s.browser.path).0 e, same.0, same.1, same.2) h)
      (λ _. ask-IsWell files (record s { browser = b }))

answered-IsWell :
    (files : ℕ → String → Answer) (mine : ℕ) (s : Loads)
    → IsWell files s
    → IsWell files (if is_current mine s then settle (files mine (asked_at mine s.asked)) s else s)
unfolding is_current
answered-IsWell files mine s h =
    each_branch (IsWell files) (s.alive && eqb mine (length s.asked))
      {x = settle (files mine (asked_at mine s.asked)) s} {y = s}
      (λ e.
        let live : s.alive ≡ true = ground arith in
        let last : mine ≡ length s.asked = (eqb_iff mine (length s.asked)).0 (ground arith) in
        rw last (settle-IsWell files s live h.0))
      (λ _. h)

step-IsWell :
    (files : ℕ → String → Answer) (s : Loads) (e : Event)
    → IsWell files s
    → IsWell files (step files s e)
unfolding step reset toggle
step-IsWell files s (opened start) h =
    moved-IsWell files (reset start (ask s).browser) (ask s) (refl, refl, refl) (ask-IsWell files s)
step-IsWell files s closed h = (inl refl, inl refl)
step-IsWell files s (pressed i) h =
    both_branches (IsWell files) s.alive
      (moved-IsWell files (input s.browser i) s (input_lem s.browser i) h) h
step-IsWell files s (ticked path) h =
    keep-IsWell files (toggle path s.browser) s (refl, refl, refl, refl) h
step-IsWell files s (slow_after mine) h =
    both_branches (IsWell files) (is_current mine s && s.browser.loading)
      (keep-IsWell files (record s.browser { slow = true }) s (refl, refl, refl, refl) h) h
step-IsWell files s (answered mine) h = answered-IsWell files mine s h

steps-IsWell :
    (files : ℕ → String → Answer) (s : Loads) (es : List Event)
    → IsWell files s
    → IsWell files (steps files s es)
unfolding steps
steps-IsWell files s [] h = h
steps-IsWell files s (e ∷ es) h = steps-IsWell files (step files s e) es (step-IsWell files s e h)

-- Whatever is pressed and in whatever order the answers come, an open dialog that does not wait shows
-- the list or the error of the answer to its last request, read for the folder that it names. It
-- starts closed, with any contents.
pub steps-Shows :
    (files : ℕ → String → Answer) (b : Browser) (es : List Event)
    → Shows files (steps files (record { browser = b; asked = []; alive = false }) es)
steps-Shows files b es =
    (steps-IsWell files (record { browser = b; asked = []; alive = false }) es
      (inl refl, inl refl)).1
