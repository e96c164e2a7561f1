-- ===== src/AiService/Effects.antt =====
-- Calls that change a state and may fail.
use spacegate.Common.Result.{Result, ok, err}
use spacegate.AiService.Rules.{ServiceError}

abbrev pub M : Type 0 → Type 0 → Type 0
M S A = S → S × Result ServiceError A

infixl 5 ◌>>=◌ ◌>>◌
abbrev pub ◌>>=◌ : {S A B : Type 0} → M S A → (A → M S B) → M S B
◌>>=◌ m f s = let (s', r) = m s in elim r [ ok a ↦ f a s' | err e ↦ (s', err e) ]

abbrev pub ◌>>◌ : {S B : Type 0} → M S (Unit {0}) → M S B → M S B
m >> k = m >>= λ _. k

abbrev pub pure : {S A : Type 0} → A → M S A
pure a s = (s, ok a)

abbrev pub fail : {S A : Type 0} → ServiceError → M S A
fail e s = (s, err e)

abbrev pub lift : {S A : Type 0} → Result ServiceError A → M S A
lift r s = (s, r)

-- A command that fails with an error, or works.
abbrev pub command : {S A : Type 0} → Result ServiceError (Unit {0}) → (S → S × A) → M S A
command (err e) run s = (s, err e)
command (ok t) run s = let (s', a) = run s in (s', ok a)

abbrev pub change : {S : Type 0} → (S → S) → M S (Unit {0})
change f s = (f s, ok tt)

-- `let _ = …`
abbrev pub ignoring : {S A : Type 0} → M S A → M S (Unit {0})
ignoring m s = let (s', r) = m s in (s', ok tt)
