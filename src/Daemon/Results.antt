-- ===== src/Daemon/Results.antt =====
-- Operations on a state that can throw: what was changed before an exception stays changed.

-- The exceptions of the metadata store; `out_of_range` and `exception` are those of std.
pub data Failure : Type 0 where
  not_found exists db_exception out_of_range exception : Failure

pub data Result (A : Type 0) : Type 0 where
  ok : A → Result A
  err : Failure → Result A

abbrev pub M : Type 0 → Type 0 → Type 0
M S A = S → Result A × S

abbrev pub then_run : {S A B : Type 0} → Result A × S → (A → M S B) → Result B × S
then_run (ok a, s) f = f a s
then_run (err e, s) f = (err e, s)

infixl 5 ◌>>=◌ ◌>>◌
abbrev pub ◌>>=◌ : {S A B : Type 0} → M S A → (A → M S B) → M S B
◌>>=◌ m f s = then_run (m s) f

abbrev pub ◌>>◌ : {S A B : Type 0} → M S A → M S B → M S B
m >> k = m >>= λ _. k

abbrev pub return : {S A : Type 0} → A → M S A
return a s = (ok a, s)

abbrev pub throw : {S A : Type 0} → Failure → M S A
throw e s = (err e, s)

-- try and catch, with what each outcome becomes.
abbrev pub finish : {S A B : Type 0} → (A → B) → (Failure → B) → Result A × S → B × S
finish good bad (ok a, s) = (good a, s)
finish good bad (err e, s) = (bad e, s)

abbrev pub handle : {S A B : Type 0} → (A → B) → (Failure → B) → M S A → S → B × S
handle good bad m s = finish good bad (m s)
