-- ===== src/Queue/Refine.antt =====
-- backend/app/database/queue_db.py: what the calls of the store do to one job, which is a machine
-- of its own. A job of the machine has a status and two numbers, and its steps are written out here.
use mama_ai.Prelude.{
  ℕ, String, ◌≡◌, ◌≤◌, ◌<◌, ◌+◌, arith, Bool, true, false, ◌||◌, ltb, ◌⊎◌, ◌==◌, eq_iff, Option,
  none, some, List, [], ◌∷◌, Bool-cases, inl, inr, subst,
}
use mama_ai.Dict
use mama_ai.Dict.{Dict}
use mama_ai.Dict.Laws.{get-put, Holds-get}
use mama_ai.Queue.{QueueStatus, queued, claimed, completed, failed, cancelled, QueueRow, QueueDb}
use mama_ai.Queue.Store.{new_row, clear, is_open, fail_row}
use mama_ai.Queue.Claim.{is_available, is_exhausted}
use mama_ai.Queue.Life.{
  ◌⇝◌, claims, finishes, fails, exhausts, retries, cancels, Change, unchanged, logs, inserts, moves,
  IsSound,
}
use mama_ai.Queue.Valid.{IsValid, Change-IsValid}
use mama_ai.Queue.History.{
  Call, perform, perform_all, perform-Change, perform-IsValid, is_clear, is_clear-perform,
}

-- A job: its status, the attempts of its cycle, and their greatest number.
pub record Job : Type 0 where
  pub status : QueueStatus
  pub attempts : ℕ
  pub most : ℕ

abbrev at : QueueStatus → ℕ → ℕ → Job
at status n m = record { status = status; attempts = n; most = m }

-- The steps of a job.
infix 40 ◌↝◌
pub data ◌↝◌ : Job → Job → Type 0 where
  is_taken : (n m : ℕ) → n < m → at queued n m ↝ at claimed (n + 1) m
  is_taken_over : (n m : ℕ) → n < m → at claimed n m ↝ at claimed (n + 1) m
  is_done : (n m : ℕ) → at claimed n m ↝ at completed n m
  waits : (n m : ℕ) → n < m → at claimed n m ↝ at queued n m
  gives_up : (n m : ℕ) → m ≤ n → at claimed n m ↝ at failed n m
  starts_over : (n m m' : ℕ) → 1 ≤ m' → m' ≤ 10 → at failed n m ↝ at queued 0 m'
  is_dropped : (n m : ℕ) → at queued n m ↝ at cancelled n m
  is_stopped : (n m : ℕ) → at claimed n m ↝ at cancelled n m

-- The runs of the machine: a job is created, makes its steps, and is removed only if `wiped`.
pub data Lives (wiped : Bool) (o : Option Job) : Option Job → Type 0 where
  stays : Lives wiped o o
  born : (m : ℕ) → 1 ≤ m → m ≤ 10 → Lives wiped o none → Lives wiped o (some (at queued 0 m))
  goes_on : {v : Job} (r : Job) → Lives wiped o (some v) → v ↝ r → Lives wiped o (some r)
  removed : {v : Option Job} → wiped ≡ true → Lives wiped o v → Lives wiped o none

-- the job of a row
abbrev pub job_of : QueueRow → Job
job_of r = record { status = r.status; attempts = r.attempts; most = r.max_attempts }

abbrev pub job_in : Option QueueRow → Option Job
job_in none = none
job_in (some r) = some (job_of r)

-- the job of an ID
abbrev pub job_at : String → QueueDb → Option Job
job_at id s = job_in (Dict.get id s.rows)

-- `clear` is among the calls.
abbrev pub any_clear : List Call → Bool
any_clear [] = false
any_clear (c ∷ cs) = is_clear c || any_clear cs

taken_step :
    (v : QueueRow) (n m : ℕ)
    → ((v.status ≡ queued) × (n < m)) ⊎ ((v.status ≡ claimed) × (n < m))
    → at v.status n m ↝ at claimed (n + 1) m
taken_step v n m (inl (e, h)) = rw e (is_taken n m h)
taken_step v n m (inr (e, h)) = rw e (is_taken_over n m h)

available_cases :
    (id : String) (now : ℕ) (v : QueueRow)
    → IsSound id v
    → is_available now v ≡ true
    → ((v.status ≡ queued) × (v.attempts < v.max_attempts))
      ⊎ ((v.status ≡ claimed) × (v.attempts < v.max_attempts))
unfolding is_available
available_cases id now v h a = ground (arith, h.spare)

fail_step :
    (error : String) (delay now : ℕ) (v : QueueRow)
    → v.status ≡ claimed
    → job_of v ↝ job_of (fail_row error delay now v)
unfolding fail_row
fail_step error delay now v s = elim (Bool-cases (ltb v.attempts v.max_attempts)) [
  | inl e ↦ rw (s, e) (waits v.attempts v.max_attempts (ground arith))
  | inr e ↦ rw (s, e) (gives_up v.attempts v.max_attempts (ground arith))
]

exhausted_cases :
    (now : ℕ) (v : QueueRow)
    → is_exhausted now v ≡ true
    → (v.status ≡ claimed) × (v.max_attempts ≤ v.attempts)
unfolding is_exhausted
exhausted_cases now v a = ground arith

open_cases : (x : QueueStatus) → is_open x ≡ true → (x ≡ queued) ⊎ (x ≡ claimed)
open_cases x h = ground arith

open_step : (v : QueueRow) (n m : ℕ) → is_open v.status ≡ true → at v.status n m ↝ at cancelled n m
open_step v n m h = elim (open_cases v.status h) [
  | inl e ↦ rw e (is_dropped n m)
  | inr e ↦ rw e (is_stopped n m)
]

⇝-↝ : {v r : QueueRow} (id : String) → IsSound id v → v ⇝ r → job_of v ↝ job_of r
⇝-↝ {v} id h (claims worker expiry now a) =
    taken_step v v.attempts v.max_attempts (available_cases id now v h a)
⇝-↝ {v} id h (finishes now s) = rw s (is_done v.attempts v.max_attempts)
⇝-↝ {v} id h (fails error delay now s) = fail_step error delay now v s
⇝-↝ {v} id h (exhausts error now s) =
    let (e, l) = exhausted_cases now v s in rw e (gives_up v.attempts v.max_attempts l)
⇝-↝ {v} id h (retries most available now s l u) =
    rw s (starts_over v.attempts v.max_attempts most l u)
⇝-↝ {v} id h (cancels now s) = open_step v v.attempts v.max_attempts s

module _ (wiped : Bool) where
  Lives-trans : {a b c : Option Job} → Lives wiped a b → Lives wiped b c → Lives wiped a c
  Lives-trans p stays = p
  Lives-trans p (born m l u q) = born m l u (Lives-trans p q)
  Lives-trans p (goes_on r q s) = goes_on r (Lives-trans p q) s
  Lives-trans p (removed e q) = removed e (Lives-trans p q)

  Lives-put :
      (o : Option Job) (k id : String) (r : QueueRow) (d : Dict QueueRow)
      → Lives wiped o (job_in (Dict.get id d))
      → ((k == id) ≡ true → Lives wiped o (some (job_of r)))
      → Lives wiped o (job_in (Dict.get id (Dict.put k r d)))
  Lives-put o k id r d old new = elim (Bool-cases (k == id)) [
    | inl e ↦ rw (get-put k id r d, e) (new e)
    | inr e ↦ rw (get-put k id r d, e) old
  ]

  at_key :
      (o : Option Job) (k id : String) (d : Dict QueueRow) {x : Option QueueRow}
      → Lives wiped o (job_in (Dict.get id d))
      → Dict.get k d ≡ x
      → (k == id) ≡ true
      → Lives wiped o (job_in x)
  at_key o k id d h g e = subst (λ y. Lives wiped o (job_in y)) g (rw ((eq_iff k id).0 e) h)

  Change-Lives :
      {s t : QueueDb} (id : String)
      → IsValid s
      → Change s t
      → Lives wiped (job_at id s) (job_at id t)
  Change-Lives id v unchanged = stays
  Change-Lives id v (logs k r e c g t) = Change-Lives id v c
  Change-Lives {s} id v (inserts {d = d} task owner most available now e c g n l u t) =
      let before = Change-Lives id v c in
      Lives-put (job_at id s) task id (new_row task owner most available now) d.rows before
        (λ q. born most l u (at_key (job_at id s) task id d.rows before g q))
  Change-Lives {s} id valid (moves {d = d} k v r e c g step t) =
      let before = Change-Lives id valid c in
      let sound = Holds-get IsSound k d.rows (Change-IsValid c valid).sound g in
      Lives-put (job_at id s) k id r d.rows before
        (λ q. goes_on (job_of r) (at_key (job_at id s) k id d.rows before g q) (⇝-↝ k sound step))

  perform-Lives :
      (c : Call) (s : QueueDb) (id : String)
      → IsValid s
      → (is_clear c ≡ true → wiped ≡ true)
      → Lives wiped (job_at id s) (job_at id (perform c s))
  unfolding clear Dict.get
  perform-Lives c s id v h = elim (Bool-cases (is_clear c)) [
    | inl e ↦ rw (is_clear-perform c s e) (removed (h e) stays)
    | inr e ↦ Change-Lives id v (perform-Change c s e v)
  ]

  all-Lives :
      (cs : List Call) (s : QueueDb) (id : String)
      → IsValid s
      → (any_clear cs ≡ true → wiped ≡ true)
      → Lives wiped (job_at id s) (job_at id (perform_all cs s))
  unfolding perform_all
  all-Lives [] s id v h = stays
  all-Lives (c ∷ cs) s id v h =
      Lives-trans (perform-Lives c s id v (λ e. h (ground arith)))
        (all-Lives cs (perform c s) id (perform-IsValid c s v) (λ e. h (ground arith)))

-- On a valid queue, every list of calls, returning or raising, moves every job along runs of one
-- machine only, in which a job is a status, the attempts that it has used and those that it may
-- use: it is created queued, with none used of 1 to 10; queued or claimed with an attempt left, it
-- is claimed with one more used; claimed, it is completed, or queued again, if an attempt is left,
-- or failed, if none is; failed, it is queued again with none used of 1 to 10; queued or claimed,
-- it is cancelled; and it is removed only if `clear` is among the calls.
pub perform_all-Lives :
    (cs : List Call) (s : QueueDb) (id : String)
    → IsValid s
    → Lives (any_clear cs) (job_at id s) (job_at id (perform_all cs s))
perform_all-Lives cs s id v = all-Lives (any_clear cs) cs s id v (λ e. e)
