-- ===== src/Command/Log.antt =====
-- What cmd/server/main.go logs: logAndRecover around every handler, and setSingularityLogLevel, which
-- passes the level on to the CLI client through the environment.
use singularity_cri.Base.{
  ◌≡◌, ◌≢◌, refl, ℕ, Bool, true, false, not, ◌&&◌, Option, none, some, List, [], ◌∷◌, if◌then◌else◌,
  leb, ◌⊎◌, inl, inr, length, ap, ◌∙◌,
}
use singularity_cri.Base.Text.{Text, codes, text_eq, text_beq}
use singularity_cri.Base.Dict.{Dict, lookup, insert, lookup-insert}
use singularity_cri.Base.Result.{Result, Error, ok, err, panic, errorf, is_ok}
use singularity_cri.Runtime.BuildConfig.{oci_base_cmd}

-- k8s.AuthConfig
pub record Auth : Type 0 where
  pub username : Text
  pub password : Text
  pub auth : Text
  pub server_address : Text
  pub identity_token : Text
  pub registry_token : Text

-- Reset
abbrev pub no_auth : Auth
no_auth = record {
  username = [];
  password = [];
  auth = [];
  server_address = [];
  identity_token = [];
  registry_token = [];
}

-- A request: PullImageRequest with its image and its credentials, or any other, as JSON gives it.
pub data Request : Type 0 where
  pull_image : Text → Option Auth → Request
  other : Text → Request

unfoldable pub masked : Request → Request
masked (Request.pull_image image (some a)) = Request.pull_image image (some no_auth)
masked (Request.pull_image image none) = Request.pull_image image none
masked (Request.other text) = Request.other text

-- How a handler ends: with an answer, with an error, or with a panic and its value.
pub data Ending (A : Type 0) : Type 0 where
  returned : A → Ending A
  failed : Error → Ending A
  panicked : Text → Ending A

-- A line of the log: the value of a panic that was caught, or a request with its answer.
pub data Line (A : Type 0) : Type 0 where
  caught_panic : Text → Line A
  answered : Request → Result A → Line A

module _ {S A : Type 0} where
  logged_for : Bool → Request → Ending A × S → (Result A × S) × List (Line A)
  unfolding masked
  logged_for debug r (Ending.returned a, s) =
      ((ok a, s), if debug then Line.answered (masked r) (ok a) ∷ [] else [])
  logged_for debug r (Ending.failed e, s) = ((err e, s), Line.answered (masked r) (err e) ∷ [])
  logged_for debug r (Ending.panicked value, s) =
      ((err (errorf "panic"), s), Line.caught_panic value ∷ [])

  -- logAndRecover, with a handler that does not write to its request
  unfoldable pub log_and_recover :
      Bool → (Request → S → Ending A × S) → Request → S → (Result A × S) × List (Line A)
  unfolding logged_for
  log_and_recover debug handler r s = logged_for debug r (handler r s)

-- The request that a line shows has no credentials. What the answer, the error or the value of a panic
-- has is up to the handler.
abbrev pub IsMasked : {A : Type 0} → Line A → Type 0
IsMasked (Line.caught_panic _) = Unit
IsMasked (Line.answered (Request.pull_image image (some a)) _) = a ≡ no_auth
IsMasked (Line.answered (Request.pull_image image none) _) = Unit
IsMasked (Line.answered (Request.other text) _) = Unit

abbrev pub AllMasked : {A : Type 0} → List (Line A) → Type 0
AllMasked [] = Unit
AllMasked (l ∷ ls) = IsMasked l × AllMasked ls

-- Two requests that are the same but for the credentials: both have some, or both have none.
abbrev pub AreAlike : Request → Request → Type 0
AreAlike (Request.pull_image image (some _)) (Request.pull_image image' (some _)) = image ≡ image'
AreAlike (Request.pull_image image none) (Request.pull_image image' none) = image ≡ image'
AreAlike (Request.other text) (Request.other text') = text ≡ text'
AreAlike _ _ = ⊥

masked-IsMasked : {A : Type 0} (r : Request) (a : Result A) → IsMasked (Line.answered (masked r) a)
unfolding masked
masked-IsMasked (Request.pull_image image (some a)) b = refl
masked-IsMasked (Request.pull_image image none) b = tt
masked-IsMasked (Request.other text) b = tt

masked-eq : (r q : Request) → AreAlike r q → masked r ≡ masked q
unfolding masked
masked-eq (Request.pull_image image (some a)) (Request.pull_image image' (some b)) h =
    ap (λ i. Request.pull_image i (some no_auth)) h
masked-eq (Request.pull_image image none) (Request.pull_image image' none) h =
    ap (λ i. Request.pull_image i none) h
masked-eq (Request.other text) (Request.other text') h = ap Request.other h
masked-eq (Request.pull_image image none) (Request.pull_image image' (some b)) h = absurd h
masked-eq (Request.pull_image image none) (Request.other text') h = absurd h
masked-eq (Request.pull_image image (some a)) (Request.pull_image image' none) h = absurd h
masked-eq (Request.pull_image image (some a)) (Request.other text') h = absurd h
masked-eq (Request.other text) (Request.pull_image image' _) h = absurd h

-- For two requests that are the same but for their credentials, for which the handler ends in the
-- same way, with an answer, an error or a panic: logAndRecover does not panic, no request in a
-- line of the log has credentials, where the answer is an error there is exactly one line, and the
-- lines of the two are the same, so that they have no more of the credentials than the handler's
-- answer, error or panic value has.
pub log_and_recover-AllMasked :
    {S A : Type 0} (debug : Bool) (handler : Request → S → Ending A × S) (r q : Request) (s : S)
    → AreAlike r q
    → handler r s ≡ handler q s
    → ((log_and_recover debug handler r s).0.0 ≢ panic)
      × AllMasked (log_and_recover debug handler r s).1
      × ((is_ok (log_and_recover debug handler r s).0.0 ≡ true)
          ⊎ (length (log_and_recover debug handler r s).1 ≡ 1))
      × ((log_and_recover debug handler r s).1 ≡ (log_and_recover debug handler q s).1)
unfolding log_and_recover logged_for
log_and_recover-AllMasked {S} {A} debug handler r q s alike same =
    let (n, m, o, l) = from (handler r s).0 (handler r s).1 debug in
    (n, m, o, l ∙ ap (λ (e : Ending A × S). (logged_for debug q e).1) same)
  where
    from :
        (e : Ending A) (t : S) (d : Bool)
        → let (out, lines) = logged_for d r (e, t) in
          (out.0 ≢ panic)
          × AllMasked lines
          × ((is_ok out.0 ≡ true) ⊎ (length lines ≡ 1))
          × (lines ≡ (logged_for d q (e, t)).1)
    from (Ending.returned a) t true = (
      λ p. cc,
      (masked-IsMasked r (ok a), tt),
      inl refl,
      ap (λ x. Line.answered x (ok a) ∷ []) (masked-eq r q alike),
    )
    from (Ending.returned a) t false = (λ p. cc, tt, inl refl, refl)
    from (Ending.failed e) t d = (
      λ p. cc,
      (masked-IsMasked r (err e), tt),
      inr refl,
      ap (λ x. Line.answered x (err e) ∷ []) (masked-eq r q alike),
    )
    from (Ending.panicked value) t d = (λ p. cc, (tt, tt), inr refl, refl)

-- A signed integer as strconv.Atoi gives it: whether it is negative, and its magnitude.
pub record Level : Type 0 where
  pub negative : Bool
  pub magnitude : ℕ

-- The level that strconv.Atoi reads, and the environment, which os.Setenv may refuse to change.
set_level : Bool → Option Level → Dict Text → Dict Text
set_level refused none env = env
set_level refused (some level) env =
    if not level.negative && leb 6 level.magnitude
    then if refused then env else insert (codes "SINGULARITY_LOG_LEVEL") (codes "debug") env
    else env

-- setSingularityLogLevel, with the value of the flag -v where it is defined
unfoldable pub set_log_level : (Text → Option Level) → Bool → Option Text → Dict Text → Dict Text
unfolding set_level
set_log_level atoi refused none env = env
set_log_level atoi refused (some value) env = set_level refused (atoi value) env

-- os.Getenv, which gives an empty text for a variable that is not set
abbrev pub get_env : Text → Dict Text → Text
get_env name env = elim (lookup name env) [ none ↦ [] | some value ↦ value ]

-- Where the value of the flag -v reads as a level and os.Setenv does not fail: the base command of the
-- CLI client after setSingularityLogLevel is that of "debug" where the level is 6 or more, and that of
-- the level in the environment before otherwise.
pub oci_base_cmd-set_log_level :
    (atoi : Text → Option Level) (value : Text) (level : Level) (env : Dict Text)
    → atoi value ≡ some level
    → oci_base_cmd
        (get_env (codes "SINGULARITY_LOG_LEVEL") (set_log_level atoi false (some value) env))
      ≡ oci_base_cmd (
          if not level.negative && leb 6 level.magnitude
          then codes "debug"
          else get_env (codes "SINGULARITY_LOG_LEVEL") env)
unfolding set_log_level set_level text_beq
oci_base_cmd-set_log_level atoi value level env h =
    ap (λ l. oci_base_cmd (get_env (codes "SINGULARITY_LOG_LEVEL") (set_level false l env))) h
    ∙ from (not level.negative && leb 6 level.magnitude)
  where
    from :
        (b : Bool)
        → oci_base_cmd (
            get_env
              (codes "SINGULARITY_LOG_LEVEL")
              (if b then insert (codes "SINGULARITY_LOG_LEVEL") (codes "debug") env else env))
          ≡ oci_base_cmd (if b then codes "debug" else get_env (codes "SINGULARITY_LOG_LEVEL") env)
    from true =
        ap (λ (found : Option Text). oci_base_cmd (elim found [ none ↦ [] | some v ↦ v ]))
          (lookup-insert (codes "SINGULARITY_LOG_LEVEL") (codes "SINGULARITY_LOG_LEVEL")
            (codes "debug") env)
    from false = refl
