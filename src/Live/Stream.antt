-- ===== src/Live/Stream.antt =====
-- About the log lines of `useRunStream` of ui/src/lib/live.jsx.
use restic_golang.Base.{
  ℕ, ◌≤◌, ◌<◌, ◌≡◌, refl, ap, ◌∙◌, ◌⊎◌, inl, inr, Bool, true, Option, none, some, List, [], ◌∷◌,
  ◌++◌, map, arith, ◌==◌, All, All-append, both_branches, if◌then◌else◌, ◌&&◌,
}
use mathlib.Core.List.{append_assoc, append-nil, map-append}
use restic_golang.Runs.{Run, Progress}
use restic_golang.Live.{
  Line, Event, Message, RunStream, opened, add_line, set_progress, on_log, on_progress, on_event,
  on_stream, stream_all,
}

-- `y` has no number, or a higher one than `x`.
abbrev pub Before : Line → Line → Type 0
Before x y = (y.seq ≡ 0) ⊎ (x.seq < y.seq)

-- The numbers rise along the list; lines without a number may stand anywhere.
abbrev pub Increasing : List Line → Type 0
Increasing [] = Unit
Increasing (x ∷ xs) = All (Before x) xs × Increasing xs

pub record IsOrdered (s : RunStream) : Type 0 where
  pub increasing : Increasing s.lines
  pub seen : All (λ l. l.seq ≤ s.seen_seq) s.lines

Increasing-append :
    (xs : List Line) (l : Line)
    → Increasing xs
    → All (λ x. Before x l) xs
    → Increasing (xs ++ l ∷ [])
Increasing-append [] l _ _ = (tt, tt)
Increasing-append (x ∷ xs) l (h, i) (b, k) =
    (All-append (Before x) xs (l ∷ []) h (b, tt), Increasing-append xs l i k)

All-weaken :
    (P Q : Line → Type 0) → ((l : Line) → P l → Q l) → (ls : List Line) → All P ls → All Q ls
All-weaken P Q f [] _ = tt
All-weaken P Q f (l ∷ ls) (p, h) = (f l p, All-weaken P Q f ls h)

Before-unnumbered : (l : Line) (xs : List Line) → l.seq ≡ 0 → All (λ x. Before x l) xs
Before-unnumbered l [] e = tt
Before-unnumbered l (x ∷ xs) e = (inl e, Before-unnumbered l xs e)

module _ (l : Line) (s : RunStream) where
  -- The three ways of a line: without a number, delivered before, new.
  add_line-unnumbered : l.seq ≡ 0 → add_line l s ≡ record s { lines = s.lines ++ l ∷ [] }
  unfolding add_line
  add_line-unnumbered e = ground arith

  add_line-old : 0 < l.seq → l.seq ≤ s.seen_seq → add_line l s ≡ s
  unfolding add_line
  add_line-old p q = ground arith

  add_line-new :
      s.seen_seq < l.seq → add_line l s ≡ record s { lines = s.lines ++ l ∷ []; seen_seq = l.seq }
  unfolding add_line
  add_line-new p = ground arith

  seq_cases : (l.seq ≡ 0) ⊎ ((0 < l.seq) × (l.seq ≤ s.seen_seq)) ⊎ (s.seen_seq < l.seq)
  seq_cases = grind arith

add_line-IsOrdered : (l : Line) (s : RunStream) → IsOrdered s → IsOrdered (add_line l s)
add_line-IsOrdered l s o = elim (seq_cases l s) [
  | inl e ↦ rw (add_line-unnumbered l s e) (record {
    increasing = Increasing-append s.lines l o.increasing (Before-unnumbered l s.lines e);
    seen = All-append _ s.lines (l ∷ []) o.seen (omega arith);
  })
  | inr (inl (p, q)) ↦ rw (add_line-old l s p q) o
  | inr (inr p) ↦ rw (add_line-new l s p) (record {
    increasing =
        Increasing-append s.lines l o.increasing
          (All-weaken _ (λ x. Before x l) (λ x h. inr (omega arith)) s.lines o.seen);
    seen =
        All-append _ s.lines (l ∷ [])
          (All-weaken _ (λ x. x.seq ≤ l.seq) (λ x h. omega arith) s.lines o.seen) (omega arith);
  })
]

on_log-IsOrdered :
    (with_log : Bool) (ev : Event) (s : RunStream) → IsOrdered s → IsOrdered (on_log with_log ev s)
unfolding on_log
on_log-IsOrdered with_log ev s o = step ev.line
  where
    step :
        (line : Option Line)
        → IsOrdered (elim line [
          | none ↦ s
          | some l ↦ if ev.type == "log" && with_log then add_line l s else s
        ])
    step none = o
    step (some l) =
        both_branches IsOrdered (ev.type == "log" && with_log) (add_line-IsOrdered l s o) o

on_progress-IsOrdered :
    (with_log : Bool) (ev : Event) (s : RunStream)
    → IsOrdered s
    → IsOrdered (on_progress with_log ev s)
unfolding on_progress
on_progress-IsOrdered with_log ev s o = step ev.progress
  where
    step :
        (progress : Option Progress)
        → IsOrdered (elim progress [
          | none ↦ on_log with_log ev s
          | some p ↦
              if ev.type == "progress"
              then record s { run = set_progress p s.run }
              else on_log with_log ev s
        ])
    step none = on_log-IsOrdered with_log ev s o
    step (some p) =
        both_branches IsOrdered (ev.type == "progress")
          (record { increasing = o.increasing; seen = o.seen }) (on_log-IsOrdered with_log ev s o)

on_event-IsOrdered :
    (with_log : Bool) (ev : Event) (s : RunStream)
    → IsOrdered s
    → IsOrdered (on_event with_log ev s)
unfolding on_event
on_event-IsOrdered with_log ev s o = step ev.run
  where
    step :
        (run : Option Run)
        → IsOrdered (elim run [
          | none ↦ on_progress with_log ev s
          | some r ↦
              if ev.type == "run" then record s { run = some r } else on_progress with_log ev s
        ])
    step none = on_progress-IsOrdered with_log ev s o
    step (some r) =
        both_branches IsOrdered (ev.type == "run")
          (record { increasing = o.increasing; seen = o.seen })
          (on_progress-IsOrdered with_log ev s o)

stream_all-IsOrdered :
    (with_log : Bool) (ms : List Message) (s : RunStream)
    → IsOrdered s
    → IsOrdered (stream_all with_log s ms)
unfolding stream_all on_stream
stream_all-IsOrdered with_log [] s o = o
stream_all-IsOrdered with_log (none ∷ ms) s o = stream_all-IsOrdered with_log ms s o
stream_all-IsOrdered with_log (some ev ∷ ms) s o =
    stream_all-IsOrdered with_log ms _ (on_event-IsOrdered with_log ev s o)

-- Whatever the server sends, in whatever order and however often, the numbers of the lines shown
-- rise strictly: no numbered line is shown twice.
pub stream_all-Increasing :
    (with_log : Bool) (run : Option Run) (ms : List Message)
    → Increasing (stream_all with_log (opened run) ms).lines
stream_all-Increasing with_log run ms =
    (stream_all-IsOrdered with_log ms (opened run)
      (record { increasing = tt; seen = tt })).increasing

-- The message that delivers a line of the log.
abbrev pub log_message : Line → Message
log_message l = some (record { type = "log"; run = none; progress = none; line = some l })

-- A durable log: every line is numbered, above `k`, and the numbers rise.
abbrev pub Rising : ℕ → List Line → Type 0
Rising k [] = Unit
Rising k (l ∷ ls) = (k < l.seq) × Rising l.seq ls

last_seq : ℕ → List Line → ℕ
last_seq k [] = k
last_seq k (l ∷ ls) = last_seq l.seq ls

Rising-append :
    (k : ℕ) (ls ms : List Line) → Rising k (ls ++ ms) → Rising k ls × Rising (last_seq k ls) ms
unfolding last_seq
Rising-append k [] ms h = (tt, h)
Rising-append k (l ∷ ls) ms (p, h) = let (a, b) = Rising-append l.seq ls ms h in ((p, a), b)

last_seq-le : (k : ℕ) (ls : List Line) → Rising k ls → k ≤ last_seq k ls
unfolding last_seq
last_seq-le k [] h = omega arith
last_seq-le k (l ∷ ls) (p, h) = omega (arith, last_seq-le l.seq ls h)

Rising-seen :
    (k : ℕ) (ls : List Line) → Rising k ls → All (λ l. (k < l.seq) × (l.seq ≤ last_seq k ls)) ls
unfolding last_seq
Rising-seen k [] h = tt
Rising-seen k (l ∷ ls) (p, h) = (
  (p, last_seq-le l.seq ls h),
  All-weaken _ _ (λ m q. (omega arith, q.1)) ls (Rising-seen l.seq ls h),
)

-- New lines are appended, and old ones dropped.
stream_all-new :
    (ls : List Line) (s : RunStream)
    → Rising s.seen_seq ls
    → stream_all true s (map log_message ls)
      ≡ record s { lines = s.lines ++ ls; seen_seq = last_seq s.seen_seq ls }
unfolding stream_all last_seq
stream_all-new [] s h = rw (append-nil s.lines)
stream_all-new (l ∷ ls) s (p, h) =
    ap (λ t. stream_all true t (map log_message ls)) (add_line-new l s p)
    ∙ stream_all-new ls (record s { lines = s.lines ++ l ∷ []; seen_seq = l.seq }) h
    ∙ ap (λ (x : List Line). record s { lines = x; seen_seq = last_seq l.seq ls })
        (append_assoc s.lines (l ∷ []) ls)

stream_all-old :
    (ls : List Line) (s : RunStream)
    → All (λ l. (0 < l.seq) × (l.seq ≤ s.seen_seq)) ls
    → stream_all true s (map log_message ls) ≡ s
unfolding stream_all
stream_all-old [] s h = refl
stream_all-old (l ∷ ls) s ((p, q), h) =
    ap (λ t. stream_all true t (map log_message ls)) (add_line-old l s p q) ∙ stream_all-old ls s h

stream_all-append :
    (ms ns : List Message) (s : RunStream)
    → stream_all true s (ms ++ ns) ≡ stream_all true (stream_all true s ms) ns
unfolding stream_all
stream_all-append [] ns s = refl
stream_all-append (m ∷ ms) ns s = stream_all-append ms ns (on_stream true s m)

-- The lines of the durable log are numbered from 1 on and rise. The connection drops after the part
-- `old`, and the server replays the whole log on reconnection, as it has grown meanwhile: the lines
-- shown are then the log, each line once and in order.
pub stream_all-replay :
    (run : Option Run) (old new : List Line)
    → Rising 0 (old ++ new)
    → (stream_all true (opened run) (map log_message old ++ map log_message (old ++ new))).lines
      ≡ old ++ new
stream_all-replay run old new h =
    let (a, b) = Rising-append 0 old new h in
    let s : RunStream = record { run = run; lines = old; seen_seq = last_seq 0 old } in
    let again = map log_message old in
    let rest = map log_message new in
    ap (λ (t : RunStream). t.lines)
      (stream_all-append again (map log_message (old ++ new)) (opened run)
        ∙ ap (λ t. stream_all true t (map log_message (old ++ new)))
            (stream_all-new old (opened run) a)
        ∙ ap (stream_all true s) (map-append log_message old new)
        ∙ stream_all-append again rest s
        ∙ ap (λ t. stream_all true t rest) (stream_all-old old s (Rising-seen 0 old a))
        ∙ stream_all-new new s b)
