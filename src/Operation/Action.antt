-- ===== src/Operation/Action.antt =====
-- What a method of services/operation_service.rs does: it reads and changes a world, and ends with a
-- value or with an error; what it changed before an error stays changed.
use qingzhou_ssh.Prelude.{ℕ, ◌+◌, Bool, true, false, List, ◌∷◌, if◌then◌else◌}
use qingzhou_ssh.Prelude.Result.{ok, err}
use qingzhou_ssh.Error.{AppError, AppResult}
use qingzhou_ssh.Operation.Status.{OperationPhase}
use qingzhou_ssh.Operation.Table.{Store}

-- What is done outside of the database: a restore point is captured, a command of a step is run on the
-- server, a network change is confirmed, a restore point is applied.
pub data Effect : Type 0 where
  captured : Effect
  ran : OperationPhase → ℕ → Effect
  confirmed : Effect
  restored : Effect

-- The clock gives a time for each time that it is read; the log has the latest effect first.
pub record World : Type 0 where
  pub store : Store
  pub clock : ℕ → ℕ
  pub reads : ℕ
  pub log : List Effect

abbrev pub Action : Type 0 → Type 0
Action A = World → World × AppResult A

module _ {A : Type 0} where
  abbrev pub pure : A → Action A
  pure a w = (w, ok a)

  abbrev pub throw : AppError → Action A
  throw e w = (w, err e)

  -- What was computed or answered elsewhere.
  abbrev pub given : AppResult A → Action A
  given r w = (w, r)

-- What follows runs on the value; an error ends the chain.
abbrev pub continue : {A B : Type 0} → (A → Action B) → World × AppResult A → World × AppResult B
continue next (w, ok a) = next a w
continue next (w, err e) = (w, err e)

infixl 5 ◌>>◌ ◌>>=◌
unfoldable pub ◌>>=◌ : {A B : Type 0} → Action A → (A → Action B) → Action B
(first >>= next) w = continue next (first w)

abbrev pub ◌>>◌ : {B : Type 0} → Action (Unit {0}) → Action B → Action B
first >> second = first >>= λ u. second

-- `now_millis`.
unfoldable pub now_millis : Action ℕ
now_millis w = (record w { reads = w.reads + 1 }, ok (w.clock w.reads))

unfoldable pub note : Effect → Action (Unit {0})
note e w = (record w { log = e ∷ w.log }, ok tt)

abbrev pub stored : World → AppResult Store → World × AppResult (Unit {0})
stored w (ok s) = (record w { store = s }, ok tt)
stored w (err e) = (w, err e)

-- A statement on the tables; a refused one changes nothing.
unfoldable pub db : (Store → AppResult Store) → Action (Unit {0})
db statement w = stored w (statement w.store)

-- From a world where `P` holds, the action ends with a value and `Q`, or with an error and `E`.
abbrev pub Ensured :
    {A : Type 0} → (A → World → Type 0) → (World → Type 0) → World × AppResult A → Type 0
Ensured Q E (w, ok a) = Q a w
Ensured Q E (w, err e) = E w

pub record Ensures {A : Type 0} (P : World → Type 0) (action : Action A) (Q : A → World → Type 0)
    (E : World → Type 0) : Type 0 where
  pub holds : (w : World) → P w → Ensured Q E (action w)

continue-Ensured :
    {A B : Type 0} {Q : A → World → Type 0} {R : B → World → Type 0} {E : World → Type 0}
    {next : A → Action B}
    → ((a : A) → Ensures (Q a) (next a) R E)
    → (x : World × AppResult A) → Ensured Q E x
    → Ensured R E (continue next x)
continue-Ensured then_next (w, ok a) h = (then_next a).holds w h
continue-Ensured then_next (w, err e) h = h

-- One action after another.
pub >>=-Ensures :
    {A B : Type 0} {P : World → Type 0} {Q : A → World → Type 0} {R : B → World → Type 0}
    {E : World → Type 0} {first : Action A} {next : A → Action B}
    → Ensures P first Q E
    → ((a : A) → Ensures (Q a) (next a) R E)
    → Ensures P (first >>= next) R E
unfolding ◌>>=◌
>>=-Ensures {first} h then_next = record {
  holds = λ w p. continue-Ensured then_next (first w) (h.holds w p);
}

Ensured-weaken :
    {A : Type 0} {Q R : A → World → Type 0} (E : World → Type 0)
    → ((a : A) (w : World) → Q a w → R a w)
    → (x : World × AppResult A) → Ensured Q E x
    → Ensured R E x
Ensured-weaken E weaker (w, ok a) h = weaker a w h
Ensured-weaken E weaker (w, err e) h = h

pub Ensures-weaken :
    {A : Type 0} {P : World → Type 0} {Q R : A → World → Type 0} {E : World → Type 0}
    {action : Action A}
    → Ensures P action Q E
    → ((a : A) (w : World) → Q a w → R a w)
    → Ensures P action R E
Ensures-weaken {E} {action} h weaker = record {
  holds = λ w p. Ensured-weaken E weaker (action w) (h.holds w p);
}

pub if-Ensures :
    {A : Type 0} {P : World → Type 0} {Q : A → World → Type 0} {E : World → Type 0}
    {yes_part no_part : Action A} (test : Bool)
    → Ensures P yes_part Q E
    → Ensures P no_part Q E
    → Ensures P (if test then yes_part else no_part) Q E
if-Ensures true h k = h
if-Ensures false h k = k
