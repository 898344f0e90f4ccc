-- ===== src/Workflow/Forever.antt =====
-- `run_forever` of src/modules/messages/workflow.py, over a sequence of passes: whether `run_once`
-- returned or raised, and the clock after it. `max_loops` is 0 where the source has None, since both
-- mean no bound. The sleeps and the texts that are sent are left out.
use realxianyu.Base.{
  ℕ, zero, suc, ◌+◌, ◌-◌, ◌*◌, ◌≤◌, ◌<◌, ◌≡◌, refl, subst, Bool, true, false, ◌&&◌, ◌||◌, List, [],
  ◌∷◌, ◌++◌, arith, min, map, ltb, leb, if◌then◌else◌, Bool-cases, inl, inr,
}
use realxianyu.Base.Lists.{length}

pub data Pass : Type 0 where
  returned raised : ℕ → Pass

pub record Loop : Type 0 where
  pub loops : ℕ
  pub consecutive_failures : ℕ
  pub last_heartbeat_ts : ℕ
  pub heartbeats : List ℕ

-- how a run stands after the given passes
pub data Run : Type 0 where
  going : Loop → Run
  finished : Loop → Run
  exited : Loop → Run

-- _RUN_FOREVER_CONSECUTIVE_FAIL_MAX
abbrev pub fail_max : ℕ
fail_max = 10

abbrev pub beat : ℕ → ℕ → Loop → Loop
beat minutes now l =
    if ltb 0 minutes
      && (leb l.last_heartbeat_ts 0 || leb (minutes * 60) (now - l.last_heartbeat_ts))
    then record l { last_heartbeat_ts = now; heartbeats = l.heartbeats ++ l.loops ∷ [] }
    else l

unfoldable pub one_pass : ℕ → ℕ → Loop → Pass → Run
one_pass max_loops minutes l (raised now) =
    let l' = record l { loops = suc l.loops; consecutive_failures = suc l.consecutive_failures } in
    if leb fail_max l'.consecutive_failures then exited l' else going l'
one_pass max_loops minutes l (returned now) =
    let l' = beat minutes now (record l { loops = suc l.loops; consecutive_failures = 0 }) in
    if ltb 0 max_loops && leb max_loops l'.loops then finished l' else going l'

-- the loop, which stops once it has finished or exited
unfoldable pub continue_run : ℕ → ℕ → Run → Pass → Run
unfolding one_pass
continue_run max_loops minutes (going l) p = one_pass max_loops minutes l p
continue_run max_loops minutes (finished l) p = finished l
continue_run max_loops minutes (exited l) p = exited l

unfoldable pub run_forever : ℕ → ℕ → List Pass → Run → Run
unfolding continue_run
run_forever max_loops minutes [] r = r
run_forever max_loops minutes (p ∷ ps) r =
    run_forever max_loops minutes ps (continue_run max_loops minutes r p)

-- `n` passes in a row that raise
abbrev pub failures : ℕ → List Pass
failures zero = []
failures (suc n) = raised 0 ∷ failures n

abbrev pub stopped : Run → Bool
stopped (going l) = false
stopped (finished l) = true
stopped (exited l) = true

stays_stopped :
    (max_loops minutes : ℕ) (ps : List Pass) (r : Run)
    → stopped r ≡ true
    → run_forever max_loops minutes ps r ≡ r
unfolding run_forever continue_run
stays_stopped m b [] r h = refl
stays_stopped m b (p ∷ ps) (going l) h = ground arith
stays_stopped m b (p ∷ ps) (finished l) h = stays_stopped m b ps (finished l) h
stays_stopped m b (p ∷ ps) (exited l) h = stays_stopped m b ps (exited l) h

abbrev pub failed : ℕ → Loop → Loop
failed k l = record l { loops = l.loops + k; consecutive_failures = l.consecutive_failures + k }

-- Passes that raise never finish the loop, however small `max_loops` is: while fewer than ten have
-- raised in a row it goes on, and at the tenth it exits with the error.
pub run_forever-failures :
    (max_loops minutes n : ℕ) (l : Loop)
    → l.consecutive_failures < 10
    → let l' = failed (min n (10 - l.consecutive_failures)) l in
      run_forever max_loops minutes (failures n) (going l)
      ≡ (if leb 10 (l.consecutive_failures + n) then exited l' else going l')
unfolding run_forever continue_run one_pass
run_forever-failures m b zero l h = ground arith
run_forever-failures m b (suc n) l h = elim (Bool-cases (leb 10 (suc l.consecutive_failures))) [
  | inl last ↦ ground (
    arith,
    stays_stopped m b (failures n)
        (exited
          (record l { loops = suc l.loops; consecutive_failures = suc l.consecutive_failures }))
        refl,
  )
  | inr more ↦ ground (
    arith,
    run_forever-failures m b n
        (record l { loops = suc l.loops; consecutive_failures = suc l.consecutive_failures })
        (ground arith),
  )
]

abbrev pub loop_of : Run → Loop
loop_of (going l) = l
loop_of (finished l) = l
loop_of (exited l) = l

beat-loops : (minutes now : ℕ) (l : Loop) → ((beat minutes now l).loops ≡ l.loops)
beat-loops b now l = ground arith

positive : (m : ℕ) → 0 < m → ltb 0 m ≡ true
positive m h = ground arith

less : (m n : ℕ) → leb m n ≡ false → n < m
less m n h = ground arith

-- the state after a pass that returned, with `l` its loop
abbrev checked : ℕ → Loop → Run
checked max_loops l = if ltb 0 max_loops && leb max_loops l.loops then finished l else going l

-- the loops that are made, and whether the run has stopped, after `n` more passes
abbrev Counts : ℕ → ℕ → ℕ → Run → Type 0
Counts max_loops loops n r =
    ((loop_of r).loops ≡ min max_loops (loops + n)) × (stopped r ≡ leb max_loops (loops + n))

checked-Counts :
    (max_loops minutes : ℕ) (nows : List ℕ) (l : Loop)
    → 0 < max_loops
    → l.loops ≤ max_loops
    → Counts max_loops l.loops
        (length nows)
        (run_forever max_loops minutes (map returned nows) (checked max_loops l))
unfolding run_forever continue_run one_pass
checked-Counts m b [] l pos le = ground arith
checked-Counts m b (now ∷ nows) l pos le = elim (Bool-cases (leb m l.loops)) [
  | inl last ↦
      rw (last, positive m pos, stays_stopped m b (map returned nows) (finished l) refl)
        (ground arith)
  | inr more ↦
      let l' = beat b now (record l { loops = suc l.loops; consecutive_failures = 0 }) in
      let same : l'.loops ≡ suc l.loops =
        beat-loops b now (record l { loops = suc l.loops; consecutive_failures = 0 }) in
      let rest = checked-Counts m b nows l' pos (omega (arith, same, less m l.loops more)) in
      let r = run_forever m b (map returned nows) (checked m l') in
      let sum : l'.loops + length nows ≡ l.loops + suc (length nows) = omega (arith, same) in
      rw (more, positive m pos)
        (subst (λ k. ((loop_of r).loops ≡ min m k) × (stopped r ≡ leb m k)) sum rest)
]

-- Where every pass returns, the loop makes exactly `max_loops` passes if that many are left, and has
-- stopped exactly then.
pub run_forever-returned :
    (max_loops minutes : ℕ) (nows : List ℕ) (l : Loop)
    → l.loops < max_loops
    → let r = run_forever max_loops minutes (map returned nows) (going l) in
      ((loop_of r).loops ≡ min max_loops (l.loops + length nows))
      × (stopped r ≡ leb max_loops (l.loops + length nows))
unfolding run_forever
run_forever-returned m b nows l h =
    let unchecked : checked m l ≡ going l = ground (arith, h) in
    subst (λ r. Counts m l.loops (length nows) (run_forever m b (map returned nows) r)) unchecked
      (checked-Counts m b nows l (omega arith) (omega arith))
