-- ===== src/Task/Lifecycle.antt =====
-- backend/app/core/task_registry.py: the life of one task under `TaskRecord.transition` and
-- `apply_result`.
use mama_ai.Prelude.{
  ℕ, String, ◌≡◌, ◌≢◌, ◌⊎◌, inl, inr, refl, true, false, Option, none, some, arith, eq_iff, sym,
  subst, Bool-cases,
}
use mama_ai.Result.{ok, Result-cases}
use mama_ai.Task.{
  TaskStatus, pending, running, waiting_approval, succeeded, failed, cancelled, rolled_back,
  TaskResult, same,
}
use mama_ai.Task.Record.{TaskRecord, is_terminal, allowed, transition, store_result, apply_result}

pub same_iff : (a b : TaskStatus) → same a b ≡ true → a ≡ b
same_iff a b h = ground arith

pub same_self : (a : TaskStatus) → same a a ≡ true
same_self pending = refl
same_self _ = refl

-- The diagram of statuses: a task starts, waits and ends, and may fail or be cancelled before.
infix 40 ◌⟶◌ ◌⟶*◌
pub data ◌⟶◌ : TaskStatus → TaskStatus → Type 0 where
  start : pending ⟶ running
  park : pending ⟶ waiting_approval
  resume : waiting_approval ⟶ running
  ask : running ⟶ waiting_approval
  finish : running ⟶ succeeded
  undo : running ⟶ rolled_back
  fail : {s : TaskStatus} → is_terminal s ≡ false → s ⟶ failed
  drop : {s : TaskStatus} → is_terminal s ≡ false → s ⟶ cancelled

pub data ◌⟶*◌ : TaskStatus → TaskStatus → Type 0 where
  here : {s : TaskStatus} → s ⟶* s
  step : {s t u : TaskStatus} → s ⟶ t → t ⟶* u → s ⟶* u

-- Timestamps agree with the status.
pub record IsTimed {J : Type 0} (r : TaskRecord J) : Type 0 where
  pub ended : (is_terminal r.status ≡ false) ⊎ (r.finished_at ≢ none)
  pub begun : (r.status ≢ running) ⊎ (r.started_at ≢ none)

-- The same as two implications.
module _ {J : Type 0} {r : TaskRecord J} where
  pub IsTimed-intro :
      (is_terminal r.status ≡ true → r.finished_at ≢ none)
      → (r.status ≡ running → r.started_at ≢ none)
      → IsTimed r
  IsTimed-intro h k = record {
    ended = elim (Bool-cases (is_terminal r.status)) [ inl e ↦ inr (h e) | inr e ↦ inl e ];
    begun = elim (Bool-cases (same r.status running)) [
      | inl e ↦ inr (k (same_iff r.status running e))
      | inr e ↦ inl (λ q. ground arith)
    ];
  }

  ended_at : IsTimed r → is_terminal r.status ≡ true → r.finished_at ≢ none
  ended_at v e = elim v.ended [ inl n ↦ cc | inr n ↦ n ]

  begun_at : IsTimed r → r.status ≡ running → r.started_at ≢ none
  begun_at v e = elim v.begun [ inl n ↦ absurd (n e) | inr n ↦ n ]

allowed→⟶ : (a b : TaskStatus) → allowed a b ≡ true → a ⟶ b
unfolding allowed
allowed→⟶ a b h = grind (arith, start, park, resume, ask, finish, undo, fail, drop)

pub ⟶→allowed : {a b : TaskStatus} → a ⟶ b → allowed a b ≡ true
unfolding allowed
⟶→allowed start = refl
⟶→allowed park = refl
⟶→allowed resume = refl
⟶→allowed ask = refl
⟶→allowed finish = refl
⟶→allowed undo = refl
⟶→allowed (fail {s = pending} h) = refl
⟶→allowed (fail {s = running} h) = refl
⟶→allowed (fail {s = waiting_approval} h) = refl
⟶→allowed (fail h) = ground arith
⟶→allowed (drop {s = pending} h) = refl
⟶→allowed (drop {s = running} h) = refl
⟶→allowed (drop {s = waiting_approval} h) = refl
⟶→allowed (drop h) = ground arith

pub terminal_stuck : {a b : TaskStatus} → a ⟶ b → is_terminal a ≡ false
terminal_stuck start = refl
terminal_stuck park = refl
terminal_stuck resume = refl
terminal_stuck ask = refl
terminal_stuck finish = refl
terminal_stuck undo = refl
terminal_stuck (fail h) = h
terminal_stuck (drop h) = h

pub ⟶*_trans : {a b c : TaskStatus} → a ⟶* b → b ⟶* c → a ⟶* c
⟶*_trans here q = q
⟶*_trans (step e p) q = step e (⟶*_trans p q)

-- A terminal status reaches no other status.
pub terminal_final : {a b : TaskStatus} → a ⟶* b → is_terminal a ≡ true → b ≡ a
terminal_final here h = refl
terminal_final (step e r) h = cc (terminal_stuck e)

module _ {J : Type 0} where
  pub transition-IsTimed :
      (s : TaskStatus) (m e : Option String) (now : ℕ) {r r' : TaskRecord J}
      → IsTimed r
      → transition s m e now r ≡ ok r'
      → IsTimed r'
  unfolding transition
  transition-IsTimed s m e now {r} {r'} v h =
      IsTimed-intro (λ t. ground (arith, ended_at v))
        (λ t. ground (arith, begun_at v, same_iff s (r.status)))

  -- A transition that succeeds leaves the record as it is, or goes along an edge of the diagram of
  -- statuses to the status that was asked for.
  pub transition-⟶ :
      (s : TaskStatus) (m e : Option String) (now : ℕ) {r r' : TaskRecord J}
      → transition s m e now r ≡ ok r'
      → (r' ≡ r) ⊎ ((r.status ⟶ s) × (r'.status ≡ s))
  unfolding transition
  transition-⟶ s m e now {r} {r'} h = ground (arith, allowed→⟶ r.status s)

  -- A record in a terminal status stays in it, whatever transition is asked for.
  pub transition_terminal :
      (s : TaskStatus) (m e : Option String) (now : ℕ) {r r' : TaskRecord J}
      → is_terminal r.status ≡ true
      → transition s m e now r ≡ ok r'
      → r' ≡ r
  transition_terminal s m e now t h = elim (transition-⟶ s m e now h) [
    | inl p ↦ p
    | inr (p, q) ↦ cc (terminal_stuck p)
  ]

  -- A result that is accepted went through its transition, and its fields are stored after it.
  pub apply_result-transition :
      (x : TaskResult J) (now later : ℕ) (r : TaskRecord J) {r' : TaskRecord J}
      → apply_result x now later r ≡ ok r'
      → (m : TaskRecord J) × (x.task_id ≡ r.task_id)
        × (transition x.status (some x.message) x.error now r ≡ ok m)
        × (r' ≡ store_result x later m)
  unfolding apply_result
  apply_result-transition x now later r {r'} h =
      elim (Result-cases (transition x.status (some x.message) x.error now r)) [
        | inl (e, q) ↦ absurd (ground arith)
        | inr (m, q) ↦ (m, ground (arith, eq_iff x.task_id r.task_id), q, ground arith)
      ]

  store_result-IsTimed :
      (x : TaskResult J) (later : ℕ) (m : TaskRecord J)
      → IsTimed m
      → IsTimed (store_result x later m)
  unfolding store_result
  store_result-IsTimed x later m v = IsTimed-intro (λ t e. ground (arith, ended_at v t)) (λ t e. cc)

  pub apply_result-IsTimed :
      (x : TaskResult J) (now later : ℕ) {r r' : TaskRecord J}
      → IsTimed r
      → apply_result x now later r ≡ ok r'
      → IsTimed r'
  apply_result-IsTimed x now later {r} {r'} v h =
      let (m, _, t, e) = apply_result-transition x now later r h in
      subst IsTimed (sym e) (
        store_result-IsTimed x later m
          (transition-IsTimed x.status (some x.message) x.error now v t))

  pub transition-⟶* :
      (s : TaskStatus) (m e : Option String) (now : ℕ) (r : TaskRecord J) {r' : TaskRecord J}
      → transition s m e now r ≡ ok r'
      → r.status ⟶* r'.status
  transition-⟶* s m e now r h = elim (transition-⟶ s m e now h) [
    | inl p ↦ rw p here
    | inr (p, q) ↦ rw q (step p here)
  ]

  store_result-status :
      (x : TaskResult J) (later : ℕ) (m : TaskRecord J) → (store_result x later m).status ≡ m.status
  unfolding store_result
  store_result-status x later m = refl

  pub apply_result-⟶* :
      (x : TaskResult J) (now later : ℕ) (r : TaskRecord J) {r' : TaskRecord J}
      → apply_result x now later r ≡ ok r'
      → r.status ⟶* r'.status
  apply_result-⟶* x now later r h =
      let (m, _, t, e) = apply_result-transition x now later r h in
      rw (e, store_result-status x later m)
        (transition-⟶* x.status (some x.message) x.error now r t)
