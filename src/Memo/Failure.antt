-- ===== src/Memo/Failure.antt =====
-- `_observable` and `FailureRecord` of src/strategy_engine/indicators/evaluation_context.py. What
-- Python itself does is a parameter: deep copies, `str`, and the constructors of exceptions.
use Prim.Native.String.{String}
use strategy_engine.Prelude.{
  ℕ, ◌≡◌, refl, ◌↔◌, Bool, true, Option, none, some, if◌then◌else◌, arith,
}

-- The fields that only an engine error has: code, message, details and status.
pub record Payload (A : Type 0) : Type 0 where
  pub code : String
  pub message : String
  pub details : A
  pub status_code : ℕ

-- An exception object; `args` and `details` are values of `A`, and `engine` is there for instances of
-- `StrategyEngineError`.
pub record Exc (A : Type 0) : Type 0 where
  pub category : String
  pub args : A
  pub engine : Option (Payload A)

pub record Observable (A : Type 0) : Type 0 where
  pub category : String
  pub text : String
  pub args : A
  pub engine : Option (Payload A)

pub record FailureRecord (A : Type 0) : Type 0 where
  pub category : String
  pub args : A
  pub engine_payload : Option (Payload A)

-- `deepcopy` and the constructors raise where they are `none`: `construct` is `category(*args)`,
-- `allocate` is `category.__new__(category, *args)`, which leaves the engine's fields unset, and
-- `set_payload` is `StrategyEngineError.__init__`. `unrebuilt` is what escapes when a failure is
-- not rebuilt, and `no_details` the empty dictionary.
pub record Python (A : Type 0) : Type 0 where
  pub deepcopy : A → Option A
  pub text : Exc A → String
  pub construct : String → A → Option (Exc A)
  pub allocate : String → A → Option (Exc A)
  pub set_payload : Exc A → Payload A → Exc A
  pub unrebuilt : Exc A
  pub no_details : A
  pub same : Observable A → Observable A → Bool

-- `same` is the equality of observables.
pub record IsPython {A : Type 0} (py : Python A) : Type 0 where
  pub same_iff : (a b : Observable A) → (py.same a b ≡ true) ↔ (a ≡ b)

module _ {A : Type 0} (py : Python A) where
  unfoldable pub observable : Exc A → Observable A
  observable exc = record {
    category = exc.category;
    text = py.text exc;
    args = exc.args;
    engine = exc.engine;
  }

  unfoldable pub copy_payload : Payload A → Option (Payload A)
  copy_payload payload = elim (py.deepcopy payload.details) [
    | none ↦ none
    | some details ↦ some (record payload { details = details })
  ]

  -- `none` where rebuilding the exception raises.
  rebuild : String → A → Option (Payload A) → Option (Exc A)
  rebuild category args none = py.construct category args
  rebuild category args (some payload) = elim (py.allocate category args) [
    | none ↦ none
    | some exc ↦ elim (copy_payload payload) [
      | none ↦ none
      | some copied ↦ some (py.set_payload exc copied)
    ]
  ]

  unfoldable pub replay : FailureRecord A → Option (Exc A)
  unfolding rebuild
  replay r = elim (py.deepcopy r.args) [
    | none ↦ none
    | some args ↦ rebuild r.category args r.engine_payload
  ]

  -- The record of `capture`, before its check.
  engine_of : Option (Payload A) → Option (Option (Payload A))
  engine_of none = some none
  engine_of (some payload) = elim (copy_payload payload) [
    | none ↦ none
    | some copied ↦ some (some copied)
  ]

  record_of : Exc A → Option (FailureRecord A)
  record_of exc = elim (engine_of exc.engine) [
    | none ↦ none
    | some engine ↦ elim (py.deepcopy exc.args) [
      | none ↦ none
      | some args ↦ some (record { category = exc.category; args = args; engine_payload = engine })
    ]
  ]

  -- The check of `capture` on what the record gives back.
  if_replayed : Exc A → FailureRecord A → Option (Exc A) → Option (FailureRecord A)
  if_replayed exc r none = none
  if_replayed exc r (some again) =
      if py.same (observable again) (observable exc) then some r else none

  unfoldable pub capture : Exc A → Option (FailureRecord A)
  unfolding record_of engine_of if_replayed
  capture exc = elim (record_of exc) [ none ↦ none | some r ↦ if_replayed exc r (replay r) ]

  -- What a consumer of a stored failure raises.
  unfoldable pub replayed : FailureRecord A → Exc A
  replayed r = elim (replay r) [ none ↦ py.unrebuilt | some exc ↦ exc ]

  -- A captured failure gives back the same observables.
  module _ (law : IsPython py) where
    if_replayed-observable :
        (exc : Exc A) (r s : FailureRecord A) (o : Option (Exc A))
        → replay r ≡ o
        → if_replayed exc r o ≡ some s
        → observable (replayed s) ≡ observable exc
    unfolding if_replayed replayed
    if_replayed-observable exc r s none e h = cc
    if_replayed-observable exc r s (some again) e h =
        ground (arith, law.same_iff (observable again) (observable exc))

    pub capture-replayed :
        (exc : Exc A) (r : FailureRecord A)
        → capture exc ≡ some r
        → observable (replayed r) ≡ observable exc
    unfolding capture
    capture-replayed exc r h = from_record (record_of exc) h
      where
        from_record :
            (o : Option (FailureRecord A))
            → elim o [ none ↦ none | some r ↦ if_replayed exc r (replay r) ] ≡ some r
            → observable (replayed r) ≡ observable exc
        from_record none k = cc
        from_record (some s) k = if_replayed-observable exc s r (replay s) refl k
