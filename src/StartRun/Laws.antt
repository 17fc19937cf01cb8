-- ===== src/StartRun/Laws.antt =====
-- About `handleStartResponse` of ui/src/lib/start-run.js.
use restic_golang.Api.{Response, Body}
use restic_golang.Base.{
  ◌≡◌, ◌≢◌, refl, ◌⊎◌, ◌↔◌, ap, sym, ◌∙◌, both_branches, inl, inr, String, Bool, true, false, ◌&&◌,
  Option, none, some, List, [], ◌∷◌, ◌==◌, eq_iff, eqb, arith, truthy, Bool-cases, ℕ,
}
use restic_golang.StartRun.{
  Effect, navigate, toast_success, toast_warning, toast_error, run_page, started, busy, with_body,
  handle_start_response, of_body,
}

-- Where an effect can lead the user.
abbrev pub Reaches : String → Effect → Type 0
Reaches url (navigate to) = to ≡ url
Reaches url (toast_success _ a) = a.target ≡ url
Reaches url (toast_warning _ _ none) = ⊥
Reaches url (toast_warning _ _ (some a)) = a.target ≡ url
Reaches url (toast_error _ _) = ⊥

-- The answer says that the run `id` started.
abbrev pub Started : Response → String → Type 0
Started res id = (b : Body) × (res.body ≡ some b) × (res.status ≡ 202) × (b.run_id ≡ id) × (id ≢ "")

-- The page is left for another one.
abbrev pub Leaves : Effect → Type 0
Leaves (navigate _) = Unit
Leaves _ = ⊥

-- The run `id` started, and the one effect leads to it: by leaving the page unless it is to stay.
abbrev pub Leads : Response → Bool → Bool × List Effect → Type 0
Leads res stay out =
    (id : String) × (e : Effect) × Started res id
    × (out ≡ (true, e ∷ []))
    × Reaches (run_page id) e
    × (Leaves e ↔ (stay ≡ false))

-- No run started, and the one effect tells so on the same page.
abbrev pub Explains : Response → Bool × List Effect → Type 0
Explains res out =
    (e : Effect) × (¬ ((id : String) × Started res id)) × (out ≡ (false, e ∷ [])) × (¬ Leaves e)

started-Leads :
    (res : Response) (stay : Bool) (b : Body)
    → Started res b.run_id
    → Leads res stay (started stay b)
unfolding started
started-Leads res true b h = (b.run_id, _, h, refl, refl, (λ l. absurd l, λ e. cc))
started-Leads res false b h = (b.run_id, _, h, refl, refl, (λ l. refl, λ e. tt))

body_eq : (b b' : Body) → some b ≡ some b' → b ≡ b'
body_eq b b' e = cc

some_ne : (b : Body) → ¬ (none ≡ some b)
some_ne b e = cc

no_run :
    (res : Response) (b : Body)
    → res.body ≡ some b
    → (eqb res.status 202 && truthy b.run_id) ≡ false
    → ¬ ((id : String) × Started res id)
no_run res b h g (id, (b', e, s, r, n)) =
    let same : b.run_id ≡ id = ap (λ (x : Body). x.run_id) (body_eq b b' (sym h ∙ e)) ∙ r in
    ground (arith, eq_iff b.run_id "")

guard_true : (id : String) (m : ℕ) → (eqb m 202 && truthy id) ≡ true → (m ≡ 202) × (id ≢ "")
guard_true id m g = ground (arith, eq_iff id "")

guarded :
    (res : Response) (fallback : String) (stay : Bool) (b : Body)
    → res.body ≡ some b
    → Leads res stay (with_body res fallback stay b) ⊎ Explains res (with_body res fallback stay b)
unfolding with_body busy
guarded res fallback stay b h = elim (Bool-cases (eqb res.status 202 && truthy b.run_id)) [
  | inl g ↦
      let (s, t) = guard_true b.run_id res.status g in
      rw g (inl (started-Leads res stay b (b, h, s, refl, t)))
  | inr g ↦
      let no = no_run res b h g in
      rw g (
        inr (
          both_branches (Explains res) (eqb res.status 409 && b.code == "busy")
            (_, no, refl, λ l. absurd l)
            (both_branches (Explains res) (b.code == "no_restic") (_, no, refl, λ l. absurd l)
              (_, no, refl, λ l. absurd l))))
]

of_body_lem :
    (res : Response) (fallback : String) (stay : Bool) (o : Option Body)
    → res.body ≡ o
    → Leads res stay (of_body res fallback stay o) ⊎ Explains res (of_body res fallback stay o)
unfolding of_body
of_body_lem res fallback stay none h =
    inr (_, (λ (id, (b, e, s, r, n)). absurd (some_ne b (sym h ∙ e))), refl, λ l. absurd l)
of_body_lem res fallback stay (some b) h = guarded res fallback stay b h

-- When the answer says that a run started (status 202 and a run's id), the result is true and the
-- one effect leads to that run's page: by going there, or, where the page is to stay, by a button of
-- a message. Of any other answer the result is false, and the one effect is a message on the same page.
pub handle_start_response_lem :
    (res : Response) (fallback : String) (stay : Bool)
    → Leads res stay (handle_start_response res fallback stay)
      ⊎ Explains res (handle_start_response res fallback stay)
unfolding handle_start_response
handle_start_response_lem res fallback stay = of_body_lem res fallback stay res.body refl
