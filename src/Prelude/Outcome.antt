-- ===== src/Prelude/Outcome.antt =====
-- How a call of kernel code ends: it returns, it calls kpanic, or it does what C leaves undefined.
use mathlib.Core.Path.{◌≡◌, refl}

pub data Outcome {ℓ} (S : Type ℓ) : Type ℓ where
  ok : S → Outcome S
  panic fault : Outcome S

infixl 5 ◌>>=◌
abbrev pub ◌>>=◌ {ℓ κ} : {S : Type ℓ} {T : Type κ} → Outcome S → (S → Outcome T) → Outcome T
call >>= next = elim call [ ok s ↦ next s | panic ↦ panic | fault ↦ fault ]

abbrev pub map_ok {ℓ κ} : {S : Type ℓ} {T : Type κ} → (S → T) → Outcome S → Outcome T
map_ok g call = call >>= λ s. ok (g s)

-- A chain that returns has its first call return.
pub ok_of_bind {ℓ κ} :
    {S : Type ℓ} {T : Type κ} (call : Outcome S) (next : S → Outcome T) {t : T}
    → (call >>= next) ≡ ok t
    → (s : S) × (call ≡ ok s) × (next s ≡ ok t)
ok_of_bind (ok s) next returns = (s, refl, returns)
ok_of_bind panic next returns = cc
ok_of_bind fault next returns = cc
