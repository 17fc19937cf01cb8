-- ===== src/Browser/Crumbs.antt =====
-- The path of the folder that is listed, as breadcrumbs (`Breadcrumbs` of
-- ui/src/components/snapshot-browser.jsx): its parts, and the folder behind each of them.
use mathlib.Core.List.{append_assoc}
use mathlib.Core.Path.{subst}
use text.Mathlib.TextLemmas.{append-nil}
use restic_golang.Base.{
  split, is_slash, HasNoSlash, split-HasNoSlash, slash-append, split-join, ℕ, suc, ◌+◌, ◌≡◌, refl,
  ap, String, Bool, true, false, List, [], ◌∷◌, eqb, truthy, All, All-keep, All-append,
  length-append, arith, ◌++◌, take, keep, concat, join, length,
}
use restic_golang.Browser.{crumb}

-- `path.split("/").filter(Boolean)`
unfoldable pub segments : String → List String
unfolding split
segments path = keep truthy (split path)

-- A button: its text, the folder it opens, and whether it stands for the folder that is listed.
pub record Crumb : Type 0 where
  pub text : String
  pub to : String
  pub last : Bool

unfoldable pub crumbs_from : (parts : List String) → ℕ → List String → List Crumb
unfolding crumb
crumbs_from parts i [] = []
crumbs_from parts i (p ∷ ps) =
    record { text = p; to = crumb parts (i + 1); last = eqb (i + 1) (length parts) }
    ∷ crumbs_from parts (i + 1) ps

unfoldable pub crumbs : String → List Crumb
unfolding segments crumbs_from
crumbs path = crumbs_from (segments path) 0 (segments path)

abbrev pub is_empty : List String → Bool
is_empty [] = true
is_empty (_ ∷ _) = false

segments-HasNoSlash : (path : String) → All HasNoSlash (segments path)
unfolding segments
segments-HasNoSlash path = All-keep HasNoSlash truthy (split path) (split-HasNoSlash path)

split-path :
    (p : String) (ps : List String)
    → All HasNoSlash (p ∷ ps)
    → split (concat ("/" ∷ join "/" (p ∷ ps) ∷ [])) ≡ "" ∷ p ∷ ps
unfolding split is_slash
split-path p ps (h, t) =
    rw (append-nil (join "/" (p ∷ ps)))
      (rw (slash-append (join "/" (p ∷ ps))) (ap ("" ∷◌) (split-join p ps h t)))

-- The breadcrumbs of the parts `ps` behind the parts `done`: each is named for its part, opens the
-- absolute path of the parts up to its own, and is marked exactly if it is the last.
abbrev pub IsTrail : (done ps : List String) → List Crumb → Type 0
IsTrail done [] cs = cs ≡ []
IsTrail done (p ∷ ps) [] = ¬ Unit
IsTrail done (p ∷ ps) (c ∷ cs) =
    (c.text ≡ p)
    × (split c.to ≡ "" ∷ done ++ p ∷ [])
    × (c.last ≡ is_empty ps)
    × IsTrail (done ++ p ∷ []) ps cs

take-snoc :
    (done : List String) (p : String) (ps : List String)
    → take (suc (length done)) (done ++ p ∷ ps) ≡ done ++ p ∷ []
take-snoc [] p ps = refl
take-snoc (d ∷ done) p ps = ap (d ∷◌) (take-snoc done p ps)

take-one :
    (done : List String) (p : String) (ps : List String)
    → take (length done + 1) (done ++ p ∷ ps) ≡ done ++ p ∷ []
take-one done p ps =
    let n : length done + 1 ≡ suc (length done) = omega arith in rw n (take-snoc done p ps)

split-snoc :
    (done : List String) (p : String)
    → All HasNoSlash done
    → HasNoSlash p
    → split (concat ("/" ∷ join "/" (done ++ p ∷ []) ∷ [])) ≡ "" ∷ done ++ p ∷ []
split-snoc [] p h k = split-path p [] (k, tt)
split-snoc (d ∷ done) p (h, t) k =
    split-path d (done ++ p ∷ []) (h, All-append HasNoSlash done (p ∷ []) t (k, tt))

split-crumb :
    (done : List String) (p : String) (ps : List String)
    → All HasNoSlash done
    → HasNoSlash p
    → split (crumb (done ++ p ∷ ps) (length done + 1)) ≡ "" ∷ done ++ p ∷ []
unfolding crumb
split-crumb done p ps h k = rw (take-one done p ps) (split-snoc done p h k)

last_lem :
    (done : List String) (p : String) (ps : List String)
    → eqb (length done + 1) (length (done ++ p ∷ ps)) ≡ is_empty ps
last_lem done p [] = let n = length-append done (p ∷ []) in ground arith
last_lem done p (q ∷ ps) = let n = length-append done (p ∷ q ∷ ps) in ground arith

crumbs_from-IsTrail :
    (done ps : List String)
    → All HasNoSlash done
    → All HasNoSlash ps
    → IsTrail done ps (crumbs_from (done ++ ps) (length done) ps)
unfolding crumbs_from
crumbs_from-IsTrail done [] h t = refl
crumbs_from-IsTrail done (p ∷ ps) h (k, t) = (
  refl,
  split-crumb done p ps h k,
  last_lem done p ps,
  let parts = append_assoc done (p ∷ []) ps in
      let n : length (done ++ p ∷ []) ≡ length done + 1 =
        omega (arith, length-append done (p ∷ [])) in
      let one = done ++ p ∷ [] in
      let rest = crumbs_from-IsTrail one ps (All-append HasNoSlash done (p ∷ []) h (k, tt)) t in
      subst (λ l. IsTrail one ps (crumbs_from l (length done + 1) ps)) parts
        (subst (λ i. IsTrail one ps (crumbs_from (one ++ ps) i ps)) n rest),
)

-- The breadcrumbs of any path are one for each of its parts that is not empty, in order: each is named
-- for its part, it opens the absolute path, with a slash in front, of exactly the parts up to its own,
-- and the last of them, and no other, is marked as the folder that is listed.
pub crumbs-IsTrail : (path : String) → IsTrail [] (segments path) (crumbs path)
unfolding crumbs
crumbs-IsTrail path = crumbs_from-IsTrail [] (segments path) tt (segments-HasNoSlash path)
