-- ===== src/Api/Addresses.antt =====
-- About the addresses of ui/src/lib/api.js into which a text is put by `encodeURIComponent`.
use Prim.Native.String
use text.Mathlib.TextLemmas.{append-nil, append_assoc, cons-append}
use restic_golang.Api.Encode.{encode_uri_component}
use restic_golang.Api.Endpoints.{
  container_databases, containers_using, docker_call, files, repositories_call,
}
use restic_golang.Api.Laws.{IsInert, encode_uri_component-IsInert}
use restic_golang.Base.{
  ◌≡◌, ap, ◌∙◌, String, [], ◌∷◌, ◌++◌, arith, All, codes, concat, split, is_slash, split-HasNoSlash,
  HasNoSlash, split-append, split-slash, split-part, slash-append, HasNoSlash-append,
}

inert-HasNoSlash : (s : String) → All IsInert (codes s) → HasNoSlash s
unfolding codes is_slash
inert-HasNoSlash String.[] h = tt
inert-HasNoSlash (String.◌∷◌ c s) (i, h) = (ground (arith, i.0), inert-HasNoSlash s h)

encoded-HasNoSlash : (s : String) → HasNoSlash (encode_uri_component s)
encoded-HasNoSlash s = inert-HasNoSlash (encode_uri_component s) (encode_uri_component-IsInert s)

-- A text that is put between two slashes.
split-between :
    (p e s : String)
    → HasNoSlash e
    → split (String.◌++◌ (String.◌++◌ p "/") (String.◌++◌ e (String.◌∷◌ "/" s)))
      ≡ split p ++ e ∷ split s
split-between p e s h =
    let x = String.◌++◌ e (String.◌∷◌ "/" s) in
    rw (append_assoc p "/" x)
      (rw (slash-append x) (split-append p x ∙ ap (split p ++◌) (split-slash e s h)))

-- A text at the end.
split-last :
    (p q e : String)
    → HasNoSlash q
    → HasNoSlash e
    → split (String.◌++◌ (String.◌++◌ p (String.◌∷◌ "/" q)) e) ≡ split p ++ String.◌++◌ q e ∷ []
split-last p q e h k = rw (append_assoc p (String.◌∷◌ "/" q) e) (
    rw (cons-append "/" q e) (
      split-append p (String.◌++◌ q e)
      ∙ ap (split p ++◌) (split-part (String.◌++◌ q e) (HasNoSlash-append q e h k))))

split-container :
    (e : String)
    → HasNoSlash e
    → split (concat ("/api/docker/containers/" ∷ e ∷ "/databases" ∷ []))
      ≡ "" ∷ "api" ∷ "docker" ∷ "containers" ∷ e ∷ "databases" ∷ []
unfolding split is_slash
split-container e h = split-between "/api/docker/containers" e "databases" h

split-query :
    (e : String)
    → HasNoSlash e
    → split (concat ("/api/docker/containers-using?path=" ∷ e ∷ []))
      ≡ "" ∷ "api" ∷ "docker" ∷ concat ("containers-using?path=" ∷ e ∷ []) ∷ []
unfolding split is_slash
split-query e h = rw (append-nil e) (
    split-last "/api/docker" "containers-using?path=" e
      (split-HasNoSlash "containers-using?path=").0 h)

split-files :
    (id s e : String)
    → HasNoSlash id
    → HasNoSlash s
    → HasNoSlash e
    → split (concat ("/api/repositories/" ∷ id ∷ "/snapshots/" ∷ s ∷ "/ls?path=" ∷ e ∷ []))
      ≡ "" ∷ "api" ∷ "repositories" ∷ id ∷ "snapshots" ∷ s ∷ concat ("ls?path=" ∷ e ∷ []) ∷ []
unfolding split is_slash
split-files id s e h k l =
    let last = String.◌++◌ "ls?path=" e in
    let one = split-part last (HasNoSlash-append "ls?path=" e (split-HasNoSlash "ls?path=").0 l) in
    let behind = String.◌++◌ "snapshots/" (String.◌++◌ s (String.◌∷◌ "/" last)) in
    rw (append-nil e) (
      rw (cons-append "/" "ls?path=" e) (
        rw (cons-append "/" "snapshots/" (String.◌++◌ s (String.◌∷◌ "/" last))) (
          split-between "/api/repositories" id behind h
          ∙ ap (λ l. "" ∷ "api" ∷ "repositories" ∷ id ∷ l)
              (split-between "snapshots" s last k ∙ ap (λ l. "snapshots" ∷ s ∷ l) one))))

-- Whatever a container is called, and for any snapshot's id and any path: the addresses that list a
-- container's databases, that ask which containers use a path, and that list a folder of a snapshot
-- have exactly their own parts between slashes. The encoded text fills the one part that is meant for
-- it, or ends the last one behind `path=`, and no encoded text holds `/`, `?`, `#`, `&`, `=`,
-- `+` or a space. The id of the repository, which is not encoded, must hold no slash.
pub addresses_lem :
    (container snapshot_id path id : String)
    → HasNoSlash id
    → let encode = encode_uri_component in
      (split (docker_call (container_databases container)).url
        ≡ "" ∷ "api" ∷ "docker" ∷ "containers" ∷ encode container ∷ "databases" ∷ [])
      × (split (docker_call (containers_using path)).url
          ≡ "" ∷ "api" ∷ "docker" ∷ concat ("containers-using?path=" ∷ encode path ∷ []) ∷ [])
      × (split (repositories_call (files id snapshot_id path)).url
          ≡ ""
            ∷ "api"
            ∷ "repositories"
            ∷ id
            ∷ "snapshots"
            ∷ encode snapshot_id
            ∷ concat ("ls?path=" ∷ encode path ∷ [])
            ∷ [])
      × All (λ s. All IsInert (codes (encode s))) (container ∷ snapshot_id ∷ path ∷ [])
unfolding docker_call repositories_call
addresses_lem container snapshot_id path id h =
    let inert = encode_uri_component-IsInert in
    (
      split-container (encode_uri_component container) (encoded-HasNoSlash container),
      split-query (encode_uri_component path) (encoded-HasNoSlash path),
      split-files id (encode_uri_component snapshot_id) (encode_uri_component path) h
          (encoded-HasNoSlash snapshot_id) (encoded-HasNoSlash path),
      (inert container, (inert snapshot_id, (inert path, tt))),
    )
