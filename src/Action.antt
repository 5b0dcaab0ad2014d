-- ===== src/Action.antt =====
-- Code that changes state and may raise. The state comes back beside the exception too: what was
-- written before a raise stays written.
use fastapi_core.Result.{Result, ok, err, Exn}

abbrev pub Action {ℓ} : Type 0 → Type ℓ → Type ℓ
Action S A = S → Result A × S

abbrev after {ℓ} : {A : Type ℓ} → Result A → Result (Unit {0}) → Result A
after r (ok _) = r
after r (err e) = err e

module _ {ℓ} {S : Type 0} {A : Type ℓ} where
  abbrev pub pure : A → Action S A
  pure a s = (ok a, s)

  abbrev pub raise : Exn → Action S A
  raise e s = (err e, s)

  abbrev pub lift : Result A → Action S A
  lift r s = (r, s)

  abbrev pub gets : (S → A) → Action S A
  gets f s = (ok (f s), s)

  abbrev handle : Result A → (Exn → Action S A) → Action S A
  handle (ok a) h s = (ok a, s)
  handle (err e) h s = h e s

  -- `try: m; except BaseException as e: h(e)`
  abbrev pub try_except : Action S A → (Exn → Action S A) → Action S A
  try_except m h s = let (r, s') = m s in handle r h s'

  -- `try: m; finally: f`: an exception of `f` takes the place of the result of `m`.
  abbrev pub try_finally : Action S A → Action S (Unit {0}) → Action S A
  try_finally m f s = let (r, s') = m s in let (q, s'') = f s' in (after r q, s'')

abbrev pub modify : {S : Type 0} → (S → S) → Action S (Unit {0})
modify f s = (ok tt, f s)

module _ {ℓ κ} {S : Type 0} {A : Type ℓ} {B : Type κ} where
  abbrev continue : Result A → (A → Action S B) → Action S B
  continue (ok a) f s = f a s
  continue (err e) f s = (err e, s)

  infixl 5 ◌>>=◌
  abbrev pub ◌>>=◌ : Action S A → (A → Action S B) → Action S B
  ◌>>=◌ m f s = let (r, s') = m s in continue r f s'

  infixl 5 ◌>>◌
  abbrev pub ◌>>◌ : Action S A → Action S B → Action S B
  ◌>>◌ m k s = let (r, s') = m s in continue r (λ _. k) s'
