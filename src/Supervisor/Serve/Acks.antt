-- ===== src/Supervisor/Serve/Acks.antt =====
-- What a child's Ack and Nack do to the jobs it holds.
use tarsk.Base.{
  List, Option-cases, Text, [], arith, false, inl, inr, length, length-append, nat_eq, none, some,
  text, true, ℕ, ◌++◌, ◌+◌, ◌∷◌, ◌≡◌,
}
use tarsk.Broker.{u64}
use tarsk.Supervisor.{BrokerApi, Job, Outcome}
use tarsk.Wire.{Value, binary, integer, policy, read_directive, string}
use tarsk.Base.Dict.{Distinct, Distinct-remove, length-remove-found, lookup, lookup-remove_self}
use tarsk.Base.Float.{Float}
use tarsk.Supervisor.Checking.{Meets, Serving, going}
use tarsk.Supervisor.Serve.{on_ack, on_answer, on_nack}

module _ {fl : Float} {api : BrokerApi fl} where
  -- The jobs of a child that no outcome has reached the settle task for, and those that wait there.
  abbrev pub held_jobs : Serving api → ℕ
  held_jobs v = length v.child.inflight + length v.child.to_settle

  -- An answer for a task in flight adds one to the tasks that the child has done, and its job leaves
  -- `inflight` and waits to be settled with the child's outcome; any other answer, and so a second
  -- one for the same task, changes nothing. The settle task takes what it is handed.
  pub on_answer_once :
      (w : Meets api) (task_id : ℕ) (outcome : Outcome) (v : Serving api)
      → Distinct v.child.inflight
      → w.settle_open ≡ true
      → let after = (on_answer w task_id outcome v).1 in
        (held_jobs after ≡ held_jobs v)
        × Distinct after.child.inflight
        × (on_answer w task_id outcome after ≡ (going, after))
        × (after.child.to_settle ≡ elim (lookup task_id v.child.inflight) [
          | none ↦ v.child.to_settle
          | some job ↦ v.child.to_settle ++ ((job, outcome) ∷ [])
        ])
        × (after.child.tasks_done ≡ elim (lookup task_id v.child.inflight) [
          | none ↦ v.child.tasks_done
          | some job ↦ u64 (v.child.tasks_done + 1)
        ])
  unfolding on_answer
  on_answer_once w task_id outcome v d takes =
      elim (Option-cases (lookup task_id v.child.inflight)) [
        | inl none_here ↦ ground (arith, none_here, d)
        | inr (job, e) ↦ ground (
          arith,
          e,
          takes,
          Distinct-remove task_id v.child.inflight d,
          lookup-remove_self task_id v.child.inflight,
          length-remove-found task_id job v.child.inflight d e,
          length-append v.child.to_settle ((job, outcome) ∷ []),
        )
      ]

  -- A well-formed answer for a task in flight is counted and leaves the job to be settled: after an
  -- Ack with a success and the child's result, after a Nack with a failure and the child's words and
  -- directive.
  on_ack_answers :
      (w : Meets api) (task_id : ℕ) (result error traceback : Text) (rest : List Value)
      (job : Job api.Acker) (v : Serving api)
      → lookup task_id v.child.inflight ≡ some job
      → w.settle_open ≡ true
      → let ack = string (text "Ack") ∷ integer task_id ∷ binary result ∷ rest in
        let said =
          string (text "Nack") ∷ integer task_id ∷ string error ∷ string traceback ∷ rest in
        let after_ack = on_ack w ack v in
        let after_nack = on_nack w said v in
        let success : Outcome = record {
          succeeded = true;
          result = result;
          error_type = [];
          traceback = [];
          directive = policy;
        } in
        let failure : Outcome = record {
          succeeded = false;
          result = [];
          error_type = error;
          traceback = traceback;
          directive = read_directive said;
        } in
        (after_ack.0 ≡ going)
        × (after_nack.0 ≡ going)
        × (after_ack.1.child.tasks_done ≡ u64 (v.child.tasks_done + 1))
        × (after_nack.1.child.tasks_done ≡ u64 (v.child.tasks_done + 1))
        × (after_ack.1.child.to_settle ≡ v.child.to_settle ++ ((job, success) ∷ []))
        × (after_nack.1.child.to_settle ≡ v.child.to_settle ++ ((job, failure) ∷ []))
  unfolding on_ack on_nack on_answer
  on_ack_answers w task_id result error traceback rest job v e takes = ground (arith, e, takes)
