-- ===== src/Repositories/Secrets.antt =====
-- About the secrets in the dialog of ui/src/routes/repositories.jsx.
use restic_golang.Base.{◌≡◌, refl, ◌∙◌, String, true, some, List, [], ◌∷◌}
use restic_golang.Repositories.{
  Form, Repository, Dialog, Input, name, backend_type, local_path, endpoint, bucket, region,
  access_key, secret_key, password, set, type_all, form_of, opened, body,
}

-- What was typed last into one of the two inputs, and `before` where nothing was.
abbrev pub last_password : (before : String) → List (Input × String) → String
last_password before [] = before
last_password before ((password, v) ∷ rest) = last_password v rest
last_password before (_ ∷ rest) = last_password before rest

abbrev pub last_secret_key : (before : String) → List (Input × String) → String
last_secret_key before [] = before
last_secret_key before ((secret_key, v) ∷ rest) = last_secret_key v rest
last_secret_key before (_ ∷ rest) = last_secret_key before rest

password-set :
    (f : Form) (i : Input) (v : String) (rest : List (Input × String))
    → last_password (set f i v).password rest ≡ last_password f.password ((i, v) ∷ rest)
unfolding set
password-set f name v rest = refl
password-set f backend_type v rest = refl
password-set f local_path v rest = refl
password-set f endpoint v rest = refl
password-set f bucket v rest = refl
password-set f region v rest = refl
password-set f access_key v rest = refl
password-set f secret_key v rest = refl
password-set f password v rest = refl

secret_key-set :
    (f : Form) (i : Input) (v : String) (rest : List (Input × String))
    → last_secret_key (set f i v).secret_key rest ≡ last_secret_key f.secret_key ((i, v) ∷ rest)
unfolding set
secret_key-set f name v rest = refl
secret_key-set f backend_type v rest = refl
secret_key-set f local_path v rest = refl
secret_key-set f endpoint v rest = refl
secret_key-set f bucket v rest = refl
secret_key-set f region v rest = refl
secret_key-set f access_key v rest = refl
secret_key-set f secret_key v rest = refl
secret_key-set f password v rest = refl

password-type_all :
    (f : Form) (typed : List (Input × String))
    → (type_all f typed).password ≡ last_password f.password typed
unfolding type_all
password-type_all f [] = refl
password-type_all f ((i, v) ∷ rest) = password-type_all (set f i v) rest ∙ password-set f i v rest

secret_key-type_all :
    (f : Form) (typed : List (Input × String))
    → (type_all f typed).secret_key ≡ last_secret_key f.secret_key typed
unfolding type_all
secret_key-type_all f [] = refl
secret_key-type_all f ((i, v) ∷ rest) =
    secret_key-type_all (set f i v) rest ∙ secret_key-set f i v rest

-- The dialog opens to edit a repository, whatever it showed before, and then any inputs are typed
-- into. The password and the secret key of the request are what was typed last into their own
-- inputs since, and empty where nothing was: no secret that was there before is sent.
pub body-secrets :
    (r : Repository) (d : Dialog) (typed : List (Input × String))
    → let sent = body (type_all (opened true (some r) d).form typed) in
      (sent.password ≡ last_password "" typed) × (sent.secret_key ≡ last_secret_key "" typed)
unfolding opened form_of body
body-secrets r d typed = (password-type_all _ typed, secret_key-type_all _ typed)
