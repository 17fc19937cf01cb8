-- ===== src/Tests/Policies.antt =====
-- The retention form and the requests at concrete inputs.
use restic_golang.Base.{
  split, is_slash, HasNoSlash, concat, [], ◌∷◌, ◌≡◌, ◌⊎◌, refl, true, false, some, All, codes,
}
use restic_golang.Api.Encode.{encode_uri_component}
use restic_golang.Api.Laws.{IsInert}
use restic_golang.Api.Addresses.{addresses_lem}
use restic_golang.Api.Endpoints.{
  container_databases, containers_using, docker_call, files, repositories_call,
}
use restic_golang.Retention.{Policy, empty_counts, retention_form_from_job, retention_payload}
use restic_golang.Retention.Editor.{Editor, submit}
use restic_golang.Retention.Laws.{Sends, Refuses, submit_guard, retention_form_from_job-payload}

-- A custom policy, enabled and without a rule.
abbrev no_rules : Policy
no_rules = record { enabled = true; preset = "custom"; counts = empty_counts }

-- The id of a repository.
one_part : HasNoSlash "r1"
unfolding is_slash
one_part = (refl, (refl, tt))

abbrev editor : Editor
editor = record { form = no_rules; busy = false; applying = false; error = "" }

submit_guard_example :
    Sends (retention_payload no_rules) (submit editor)
    ⊎ Refuses (retention_payload no_rules) (submit editor)
submit_guard_example = submit_guard editor

retention_form_from_job-payload_example :
    (retention_form_from_job (some (retention_payload no_rules)) ≡ retention_payload no_rules)
    × (retention_payload (retention_payload no_rules) ≡ retention_payload no_rules)
retention_form_from_job-payload_example = retention_form_from_job-payload no_rules

addresses_lem_example :
    (split (docker_call (container_databases "db/1")).url
      ≡ "" ∷ "api" ∷ "docker" ∷ "containers" ∷ encode_uri_component "db/1" ∷ "databases" ∷ [])
    × (split (docker_call (containers_using "/srv?a&b")).url
        ≡ ""
          ∷ "api"
          ∷ "docker"
          ∷ concat ("containers-using?path=" ∷ encode_uri_component "/srv?a&b" ∷ [])
          ∷ [])
    × (split (repositories_call (files "r1" "a/b" "/srv?a&b")).url
        ≡ ""
          ∷ "api"
          ∷ "repositories"
          ∷ "r1"
          ∷ "snapshots"
          ∷ encode_uri_component "a/b"
          ∷ concat ("ls?path=" ∷ encode_uri_component "/srv?a&b" ∷ [])
          ∷ [])
    × All (λ s. All IsInert (codes (encode_uri_component s))) ("db/1" ∷ "a/b" ∷ "/srv?a&b" ∷ [])
addresses_lem_example = addresses_lem "db/1" "a/b" "/srv?a&b" "r1" one_part

encoded : encode_uri_component "a/b?c=ü" ≡ "a%2Fb%3Fc%3D%C3%BC"
unfolding encode_uri_component
encoded = refl
