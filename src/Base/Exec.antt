-- ===== src/Base/Exec.antt =====
-- Methods that mutate what they point to and may fail: what was written before an error or a panic
-- stays written, so that the state comes back beside the outcome.
use Prim.Native.String.{String}
use Prim.Native.Nat.{ℕ}
use mathlib.Core.Path.{◌≡◌, refl, ◌∙◌}
use native.Mathlib.Omega.{arith}
use singularity_cri.Base.Result.{Error, Result, ok, err, panic, wrapf}

abbrev pub Exec {ℓ} : Type ℓ → Type ℓ → Type ℓ
Exec S A = S → Result A × S

module _ {ℓ} {S A : Type ℓ} where
  abbrev pub pure : A → Exec S A
  pure a s = (ok a, s)

  abbrev pub raise : Error → Exec S A
  raise e s = (err e, s)

  abbrev pub crash : Exec S A
  crash s = (panic, s)

  abbrev pub gets : (S → A) → Exec S A
  gets f s = (ok (f s), s)

  -- if err := m(); err != nil { return fmt.Errorf("…: %v", err) }
  abbrev wrapped : String → Result A × S → Result A × S
  wrapped message (ok a, s) = (ok a, s)
  wrapped message (err e, s) = (err (wrapf message e), s)
  wrapped message (panic, s) = (panic, s)

  abbrev pub wrapping : String → Exec S A → Exec S A
  wrapping message m s = wrapped message (m s)

abbrev pub modify {ℓ} : {S : Type ℓ} → (S → S) → Exec S (Unit {ℓ})
modify f s = (ok tt, f s)

module _ {ℓ} {S A B : Type ℓ} where
  abbrev pub continue : Result A × S → (A → Exec S B) → Result B × S
  continue (ok a, s) f = f a s
  continue (err e, s) f = (err e, s)
  continue (panic, s) f = (panic, s)

  infixl 10 ◌>>=◌ ◌>>◌
  abbrev pub ◌>>=◌ : Exec S A → (A → Exec S B) → Exec S B
  ◌>>=◌ m f s = continue (m s) f

  abbrev pub ◌>>◌ : Exec S A → Exec S B → Exec S B
  m >> n = m >>= λ _. n

module _ {ℓ} {S A : Type ℓ} where
  abbrev pub caught : Result A × S → Result (Result A) × S
  caught (ok a, s) = (ok (ok a), s)
  caught (err e, s) = (ok (err e), s)
  caught (panic, s) = (panic, s)

  -- v, err := m(), for code that goes on to look at `err`
  abbrev pub attempt : Exec S A → Exec S (Result A)
  attempt m s = caught (m s)

  abbrev pub dropped : Result A × S → Result (Unit {ℓ}) × S
  dropped (ok a, s) = (ok tt, s)
  dropped (err e, s) = (ok tt, s)
  dropped (panic, s) = (panic, s)

  -- if err := m(); err != nil { glog.Errorf(…) }
  abbrev pub logged : Exec S A → Exec S (Unit {ℓ})
  logged m s = dropped (m s)

-- A sequence that returns runs its second part from where the first part returned.
module _ {S : Type 0} (m n : Exec S (Unit {0})) (s : S) (h : ((m >> n) s).0 ≡ ok tt) where
  pub first-ok : (m s).0 ≡ ok tt
  first-ok = ground arith

  pub then_lem : (m >> n) s ≡ n (m s).1
  then_lem = ground arith

-- The parts of a sequence that returns a value.
module _ {S A B : Type 0} where
  pub >>=-eq-ok :
      (m : Exec S A) (f : A → Exec S B) (s : S) {b : B}
      → ((m >>= f) s).0 ≡ ok b
      → (a : A) × ((m s).0 ≡ ok a) × ((f a (m s).1).0 ≡ ok b)
  >>=-eq-ok m f s {b} h = from (m s).0 (m s).1 h
    where
      from :
          (r : Result A) (t : S)
          → (continue (r, t) f).0 ≡ ok b
          → (a : A) × (r ≡ ok a) × ((f a t).0 ≡ ok b)
      from (ok a) t h = (a, refl, h)
      from (err e) t h = cc
      from panic t h = cc

module _ {S A : Type 0} where
  pub wrapping-eq-ok :
      (message : String) (m : Exec S A) (s : S) {a : A}
      → (wrapping message m s).0 ≡ ok a
      → (m s).0 ≡ ok a
  wrapping-eq-ok message m s {a} h = from (m s).0 (m s).1 h
    where
      from : (r : Result A) (t : S) → (wrapped message (r, t)).0 ≡ ok a → r ≡ ok a
      from (ok x) t h = h
      from (err e) t h = cc
      from panic t h = cc

-- Calls that keep a number of the state.
module _ {S : Type 0} (count : S → ℕ) where
  abbrev pub Keeps : {A : Type 0} → Exec S A → Type 0
  Keeps m = (s : S) → count (m s).1 ≡ count s

  pub Keeps->>= :
      {A B : Type 0} (m : Exec S A) (f : A → Exec S B)
      → Keeps m
      → ((a : A) → Keeps (f a))
      → Keeps (m >>= f)
  Keeps->>= {A} m f k l s = from (m s).0 (m s).1 (k s)
    where
      from : (r : Result A) (t : S) → count t ≡ count s → count (continue (r, t) f).1 ≡ count s
      from (ok a) t h = l a t ∙ h
      from (err e) t h = h
      from panic t h = h

  pub Keeps-wrapping :
      {A : Type 0} (message : String) (m : Exec S A) → Keeps m → Keeps (wrapping message m)
  Keeps-wrapping {A} message m k s = from (m s).0 (m s).1 (k s)
    where
      from : (r : Result A) (t : S) → count t ≡ count s → count (wrapped message (r, t)).1 ≡ count s
      from (ok a) t h = h
      from (err e) t h = h
      from panic t h = h

  pub Keeps-attempt : {A : Type 0} (m : Exec S A) → Keeps m → Keeps (attempt m)
  Keeps-attempt {A} m k s = from (m s).0 (m s).1 (k s)
    where
      from : (r : Result A) (t : S) → count t ≡ count s → count (caught (r, t)).1 ≡ count s
      from (ok a) t h = h
      from (err e) t h = h
      from panic t h = h

  pub Keeps-logged : {A : Type 0} (m : Exec S A) → Keeps m → Keeps (logged m)
  Keeps-logged {A} m k s = from (m s).0 (m s).1 (k s)
    where
      from : (r : Result A) (t : S) → count t ≡ count s → count (dropped (r, t)).1 ≡ count s
      from (ok a) t h = h
      from (err e) t h = h
      from panic t h = h
