-- ===== src/Sites/Laws.antt =====
-- About the projects of ui/src/routes/coolify.jsx.
use mathlib.Core.List.{append-nil, append_assoc, perm_middle, Perm}
use mathlib.Core.List.Perm
use mathlib.Core.Path.{subst}
use restic_golang.Base.{
  ◌≡◌, refl, sym, ap, ◌∙◌, inl, inr, Bool-cases, String, Bool, not, ◌&&◌, List, [], ◌∷◌, ◌++◌, ◌==◌,
  keep, upsert, value_at, value_at-upsert, each_branch,
}
use restic_golang.QuickBackup.{is_coolify_kind}
use restic_golang.Sites.{
  Resource, Projects, project_of, add_resource, add_resources, projects, matches, coolify, other,
}

-- The resources under the headings, in the order in which they are shown.
abbrev pub under : Projects → List Resource
under [] = []
under ((p, rs) ∷ rest) = rs ++ under rest

under-upsert :
    (p : String) (r : Resource) (m : Projects)
    → Perm (under (upsert p [] (λ rs. rs ++ r ∷ []) m)) (r ∷ under m)
under-upsert p r [] = Perm.refl (r ∷ [])
under-upsert p r ((k, rs) ∷ rest) =
    each_branch (λ (ps : Projects). Perm (under ps) (r ∷ (rs ++ under rest))) (p == k)
      {x = (k, rs ++ r ∷ []) ∷ rest} {y = (k, rs) ∷ upsert p [] (λ l. l ++ r ∷ []) rest}
      (λ _.
        subst (λ l. Perm l (r ∷ (rs ++ under rest))) (sym (append_assoc rs (r ∷ []) (under rest)))
          (perm_middle rs (under rest)))
      (λ _. Perm.trans (Perm.append_left rs (under-upsert p r rest)) (perm_middle rs (under rest)))

under-add_resources :
    (m : Projects) (rs : List Resource) → Perm (under (add_resources m rs)) (under m ++ rs)
unfolding add_resources add_resource
under-add_resources m [] =
    subst (λ l. Perm (under m) l) (sym (append-nil (under m))) (Perm.refl (under m))
under-add_resources m (r ∷ rs) = Perm.trans (under-add_resources (add_resource r m) rs) (
    Perm.trans (Perm.append_right rs (under-upsert (project_of r) r m))
      (Perm.symm (perm_middle (under m) rs)))

-- Two tests that exclude each other split what passes a third one.
split-Perm :
    (p m : Resource → Bool) (rs : List Resource)
    → Perm (keep (λ r. p r && m r) rs ++ keep (λ r. not (p r) && m r) rs) (keep m rs)
split-Perm p m [] = Perm.refl []
split-Perm p m (r ∷ rs) =
    let rest = split-Perm p m rs in
    elim (Bool-cases (p r)) [
      | inl e ↦ elim (Bool-cases (m r)) [
        | inl f ↦ rw (e, f) (Perm.cons r rest)
        | inr f ↦ rw (e, f) rest
      ]
      | inr e ↦ elim (Bool-cases (m r)) [
        | inl f ↦
            rw (e, f)
              (Perm.trans
                (perm_middle (keep (λ r. p r && m r) rs) (keep (λ r. not (p r) && m r) rs))
                (Perm.cons r rest))
        | inr f ↦ rw (e, f) rest
      ]
    ]

-- The resources of a project.
abbrev pub is_of : String → Resource → Bool
is_of p r = p == project_of r

value_at-add_resources :
    (p : String) (m : Projects) (rs : List Resource)
    → value_at p [] (add_resources m rs) ≡ value_at p [] m ++ keep (is_of p) rs
unfolding add_resources add_resource
value_at-add_resources p m [] = sym (append-nil (value_at p [] m))
value_at-add_resources p m (r ∷ rs) =
    value_at-add_resources p (add_resource r m) rs
    ∙ ap (λ l. l ++ keep (is_of p) rs) (value_at-upsert p (project_of r) [] (λ l. l ++ r ∷ []) m)
    ∙ elim (Bool-cases (is_of p r)) [
      | inl e ↦ rw e (append_assoc (value_at p [] m) (r ∷ []) (keep (is_of p) rs))
      | inr e ↦ rw e refl
    ]

-- For any search and whatever `toLowerCase` gives, every resource that matches is shown once: under a heading, or among the other
-- containers. Under a project's heading stand exactly the matching resources of Coolify's kinds of
-- that project, in the order of the answer.
pub projects_lem :
    (lower : String → String) (q : String) (rs : List Resource)
    → Perm
        (under (projects (coolify lower q rs)) ++ other lower q rs)
        (keep (λ r. matches lower r q) rs)
      × ((p : String)
          → value_at p [] (projects (coolify lower q rs)) ≡ keep (is_of p) (coolify lower q rs))
unfolding projects coolify other
projects_lem lower q rs =
    let sites = keep (λ (r : Resource). is_coolify_kind r.kind && matches lower r q) rs in
    let rest = keep (λ (r : Resource). not (is_coolify_kind r.kind) && matches lower r q) rs in
    (
      Perm.trans (Perm.append_right rest (under-add_resources [] sites))
          (split-Perm (λ r. is_coolify_kind r.kind) (λ r. matches lower r q) rs),
      λ p. value_at-add_resources p [] sites,
    )
