-- ===== src/Prelude/Effects.antt =====
-- Calls that may throw and change a state: what they changed before a throw stays changed.
use mathlib.Core.Path.{◌≡◌, refl, sym, subst}
use sentinel_act.Prelude.Results.{Result, ok, err, Error}

abbrev pub Run : (S A : Type 0) → Type 0
Run S A = S → Result A × S

-- `await first; …`: a throw ends both, with the state that the first one left.
infixl 5 ◌>>=◌ ◌>>◌
abbrev pub ◌>>=◌ : {S A B : Type 0} → Run S A → (A → Run S B) → Run S B
(first >>= continue) s =
    let done = first s in
    elim done.0 [ err thrown ↦ (err thrown, done.1) | ok value ↦ continue value done.1 ]

abbrev pub ◌>>◌ : {S A B : Type 0} → Run S A → Run S B → Run S B
first >> second = first >>= λ _. second

-- A call that only reads.
abbrev pub reading : {S A : Type 0} → Result A → Run S A
reading r s = (r, s)

-- A call that cannot throw.
abbrev pub change : {S : Type 0} → (S → S) → Run S (Unit {0})
change f s = (ok tt, f s)

-- What the second of two calls starts from.
pub then-err :
    {S A B : Type 0} (first : Run S A) (second : Run S B) (s : S) (e : Error)
    → (first s).0 ≡ err e
    → (first >> second) s ≡ (err e, (first s).1)
then-err {S = S} {B = B} first second s e h =
    subst
      (λ r.
        ◌≡◌ {A = Result B × S}
          (elim r [ err thrown ↦ (err thrown, (first s).1) | ok value ↦ second (first s).1 ])
          (err e, (first s).1))
      (sym h) refl

pub then-ok :
    {S A B : Type 0} (first : Run S A) (second : Run S B) (s : S) (a : A)
    → (first s).0 ≡ ok a
    → (first >> second) s ≡ second (first s).1
then-ok {S = S} {B = B} first second s a h =
    subst
      (λ r.
        ◌≡◌ {A = Result B × S}
          (elim r [ err thrown ↦ (err thrown, (first s).1) | ok value ↦ second (first s).1 ])
          (second (first s).1))
      (sym h) refl
