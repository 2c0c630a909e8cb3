-- ===== src/Prelude/Stateful.antt =====
-- Code that changes a state and ends with a value or an error; what it changed before an error stays
-- changed.
use mathlib.Core.Bool.{Bool, true, false}
use mathlib.Core.Path.{◌≡◌, refl}
use qingzhou_ssh.Prelude.Tests.{if◌then◌else◌}
use qingzhou_ssh.Prelude.Result.{Result, ok, err}

abbrev pub Act : Type 0 → Type 0 → Type 0 → Type 0
Act S E A = S → S × Result E A

module _ {S E : Type 0} where
  abbrev pub continue : {A B : Type 0} → (A → Act S E B) → S × Result E A → S × Result E B
  continue next (s, ok a) = next a s
  continue next (s, err e) = (s, err e)

  infixl 5 ◌>>◌ ◌>>=◌
  unfoldable pub ◌>>=◌ : {A B : Type 0} → Act S E A → (A → Act S E B) → Act S E B
  (first >>= next) s = continue next (first s)

  abbrev pub ◌>>◌ : {B : Type 0} → Act S E (Unit {0}) → Act S E B → Act S E B
  first >> second = first >>= λ u. second

  unfoldable pub pure : {A : Type 0} → A → Act S E A
  pure a s = (s, ok a)

  unfoldable pub throw : {A : Type 0} → E → Act S E A
  throw e s = (s, err e)

  -- What was computed or answered elsewhere.
  unfoldable pub given : {A : Type 0} → Result E A → Act S E A
  given r s = (s, r)

  unfoldable pub modify : (S → S) → Act S E (Unit {0})
  modify f s = (f s, ok tt)

  unfoldable pub get : Act S E S
  get s = (s, ok s)

abbrev pub mapped : {S E F A : Type 0} → (E → F) → S × Result E A → S × Result F A
mapped f (s, ok a) = (s, ok a)
mapped f (s, err e) = (s, err (f e))

-- `map_err`, and the `From` that `?` applies.
unfoldable pub map_err : {S E F A : Type 0} → (E → F) → Act S E A → Act S F A
map_err f action s = mapped f (action s)

-- The state keeps `I`, a value has `Q`, an error `N`.
abbrev pub Ended :
    {S E A : Type 0} → (S → Type 0) → (E → Type 0) → (A → Type 0) → S × Result E A → Type 0
Ended I N Q (s, ok a) = I s × Q a
Ended I N Q (s, err e) = I s × N e

pub record Keeps {S E A : Type 0} (I : S → Type 0) (N : E → Type 0) (Q : A → Type 0)
    (action : Act S E A) : Type 0 where
  pub holds : (s : S) → I s → Ended I N Q (action s)

given-Ended :
    {S E A : Type 0} (I : S → Type 0) (N : E → Type 0) (Q : A → Type 0) (s : S)
    → I s
    → (r : Result E A) → ((a : A) → r ≡ ok a → Q a)
    → ((e : E) → r ≡ err e → N e)
    → Ended I N Q (s, r)
given-Ended I N Q s i (ok a) good bad = (i, good a refl)
given-Ended I N Q s i (err e) good bad = (i, bad e refl)

module _ {S E : Type 0} {I : S → Type 0} {N : E → Type 0} where
  continue-Ended :
      {A B : Type 0} {Q : A → Type 0} {R : B → Type 0} {next : A → Act S E B}
      → ((a : A) → Q a → Keeps I N R (next a))
      → (x : S × Result E A) → Ended I N Q x
      → Ended I N R (continue next x)
  continue-Ended then_next (s, ok a) h = (then_next a h.1).holds s h.0
  continue-Ended then_next (s, err e) h = h

  pub >>=-Keeps :
      {A B : Type 0} {Q : A → Type 0} {R : B → Type 0} {first : Act S E A} {next : A → Act S E B}
      → Keeps I N Q first
      → ((a : A) → Q a → Keeps I N R (next a))
      → Keeps I N R (first >>= next)
  unfolding ◌>>=◌
  >>=-Keeps {first} h then_next = record {
    holds = λ s i. continue-Ended then_next (first s) (h.holds s i);
  }

  pub pure-Keeps : {A : Type 0} {Q : A → Type 0} (a : A) → Q a → Keeps I N Q (pure a)
  unfolding pure
  pure-Keeps a q = record { holds = λ s i. (i, q) }

  pub throw-Keeps : {A : Type 0} {Q : A → Type 0} (e : E) → N e → Keeps I N Q (throw e)
  unfolding throw
  throw-Keeps e n = record { holds = λ s i. (i, n) }

  pub given-Keeps :
      {A : Type 0} {Q : A → Type 0} (r : Result E A)
      → ((a : A) → r ≡ ok a → Q a)
      → ((e : E) → r ≡ err e → N e)
      → Keeps I N Q (given r)
  unfolding given
  given-Keeps {Q} r good bad = record { holds = λ s i. given-Ended I N Q s i r good bad }

  pub modify-Keeps : (f : S → S) → ((s : S) → I s → I (f s)) → Keeps I N (λ u. Unit {0}) (modify f)
  unfolding modify
  modify-Keeps f h = record { holds = λ s i. (h s i, tt) }

  pub get-Keeps : Keeps I N I get
  unfolding get
  get-Keeps = record { holds = λ s i. (i, i) }

  pub if-Keeps :
      {A : Type 0} {Q : A → Type 0} {yes_part no_part : Act S E A} (test : Bool)
      → Keeps I N Q yes_part
      → Keeps I N Q no_part
      → Keeps I N Q (if test then yes_part else no_part)
  if-Keeps true h k = h
  if-Keeps false h k = k

module _ {S E F : Type 0} (I : S → Type 0) (N : E → Type 0) (M : F → Type 0) (f : E → F) where
  mapped-Ended :
      {A : Type 0} (Q : A → Type 0)
      → ((e : E) → N e → M (f e))
      → (x : S × Result E A) → Ended I N Q x
      → Ended I M Q (mapped f x)
  mapped-Ended Q fine (s, ok a) h = h
  mapped-Ended Q fine (s, err e) h = (h.0, fine e h.1)

  pub map_err-Keeps :
      {A : Type 0} {Q : A → Type 0} {action : Act S E A}
      → ((e : E) → N e → M (f e))
      → Keeps I N Q action
      → Keeps I M Q (map_err f action)
  unfolding map_err
  map_err-Keeps {Q} {action} fine h = record {
    holds = λ s i. mapped-Ended Q fine (action s) (h.holds s i);
  }

abbrev pub attempted : {S E F A : Type 0} → S × Result E A → S × Result F (Result E A)
attempted (s, r) = (s, ok r)

-- What is matched on: an error of the action is a value of what follows.
unfoldable pub attempt : {S E F A : Type 0} → Act S E A → Act S F (Result E A)
attempt action s = attempted (action s)

abbrev pub Answered : {E A : Type 0} → (E → Type 0) → (A → Type 0) → Result E A → Type 0
Answered N Q (ok a) = Q a
Answered N Q (err e) = N e

attempted-Ended :
    {S E F A : Type 0} (I : S → Type 0) (N : E → Type 0) (M : F → Type 0) (Q : A → Type 0)
    (x : S × Result E A)
    → Ended I N Q x
    → Ended I M (Answered N Q) (attempted x)
attempted-Ended I N M Q (s, ok a) h = h
attempted-Ended I N M Q (s, err e) h = h

pub attempt-Keeps :
    {S E F A : Type 0} (I : S → Type 0) (N : E → Type 0) (M : F → Type 0) (Q : A → Type 0)
    {action : Act S E A}
    → Keeps I N Q action
    → Keeps I M (Answered N Q) (attempt action)
unfolding attempt
attempt-Keeps I N M Q {action} h = record {
  holds = λ s i. attempted-Ended I N M Q (action s) (h.holds s i);
}
