-- ===== src/Common/Results.antt =====
-- `ProxyResult<T>`, its `?`, and methods that also change a state.
use chenni_x_api.Prelude.{Option, none, some}
use chenni_x_api.Common.Errors.{ProxyError}

pub data ProxyResult {ℓ} (A : Type ℓ) : Type ℓ where
  ok : A → ProxyResult A
  err : ProxyError → ProxyResult A

-- A method on a state `S` that may fail. The state comes back after a failure too.
abbrev pub Action : Type 0 → Type 0 → Type 0
Action S A = S → ProxyResult A × S

module _ {S : Type 0} where
  abbrev pub pure : {A : Type 0} → A → Action S A
  pure a s = (ok a, s)

  abbrev pub raise : {A : Type 0} → ProxyError → Action S A
  raise e s = (err e, s)

  infixl 5 ◌>>=◌ ◌>>◌
  abbrev pub ◌>>=◌ : {A B : Type 0} → Action S A → (A → Action S B) → Action S B
  ◌>>=◌ m f s = let (r, s') = m s in elim r [ ok a ↦ f a s' | err e ↦ (err e, s') ]

  abbrev pub ◌>>◌ : {A B : Type 0} → Action S A → Action S B → Action S B
  m >> k = m >>= λ _. k

  -- `ok_or_else(..)?`
  abbrev pub or_raise : {A : Type 0} → Option A → ProxyError → Action S A
  or_raise none e = raise e
  or_raise (some a) _ = pure a
