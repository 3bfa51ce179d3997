-- ===== src/Delivery/RequestCommits.antt =====
-- The requests of clients commit transactions of api/db.py and nothing else.
use mathlib.Core.Path.{subst}
use distribu_q.Worker.Settle.{publish_event-world}
use distribu_q.Config.{default_scheduled_set, low_queue, high_queue, default_queue}
use distribu_q.Delivery.Commits.{
  Commits, Commits-nothing, Commits-bind, Commits-query, Commits-attempt, Commits-try_query,
  Reaches, Reaches-commit, Reaches-trans, sent, returned,
}
use distribu_q.Events.{emit_job_status_changed, emit_job_submitted, publish_event}
use distribu_q.Json.{Fields}
use distribu_q.Base.{
  ℕ, String, refl, ap, inl, inr, Option, none, some, List, Bool-cases, Option-cases,
}
use distribu_q.Result.{http, Result, Exn}
use distribu_q.Schema.{pending, Job, status_text}
use distribu_q.Api.{JobCreateRequest, JobCreateResponse, ReplayResponse}
use distribu_q.Api.{
  post_job, submit_job, check_rule, place, announce, new_job, is_accepted, withdraw,
  cancel_job_by_id, replay_dead_letter_job,
}
use distribu_q.Base.Int.{pos}
use distribu_q.DeadLetters.{replay_dead_letter}
use distribu_q.History.{creates, cancels, replays, commit, after_insert, Tx}
use distribu_q.Jobs.{CancelRecord, create_job, cancel_job, NewJob}
use distribu_q.World.{
  ◌>>=◌, ◌>>◌, pure, raise, command_, query, try_query, Action, Exec, World, lift,
}
use distribu_q.Redis.{lrem_all, zrem, Redis}
use distribu_q.Redis.Client.{enqueue_job, schedule_job}

module _ (P : Tx → Type 0) (adds : (id : ℕ) (n : NewJob) → P (creates id n))
    (cancelled : (id : ℕ) → P (cancels id)) where
  publish-Commits : (t : String) (fs : Fields) → Commits P (publish_event t fs)
  publish-Commits t fs =
      Commits-nothing P (publish_event t fs) (λ w. ap (λ x. x.1.db) (publish_event-world t fs w).1)

  refused {ℓ} : {A : Type ℓ} (x : Exn) → Commits P (raise {A = A} x)
  refused x = Commits-nothing P (raise x) (λ w. refl)

  place-Commits : (id : ℕ) (req : JobCreateRequest) → Commits P (place id req)
  unfolding place
  place-Commits id req = elim (Option-cases req.scheduled_for) [
    | inl e ↦ rw (e, place) (sent P (λ r. (enqueue_job id req.priority none r).0))
    | inr (d, e) ↦
        let zadd_at : ℕ → Action =
          λ t. command_ (λ r. (schedule_job id t default_scheduled_set r).0) in
        rw (e, place)
          (Commits-bind P (lift d.timestamp) zadd_at
            (Commits-nothing P (lift d.timestamp) (λ w. refl))
            (λ t. sent P (λ r. (schedule_job id t default_scheduled_set r).0)))
  ]

  module _ (croniter : List ℕ → ℕ → Result ℕ) (uuid_text iso : ℕ → String) where
    announce-Commits :
        (id : ℕ) (req : JobCreateRequest) → Commits P (announce croniter uuid_text iso id req)
    unfolding announce emit_job_submitted
    announce-Commits id req = Commits-attempt P _ (publish-Commits _ _)

    submit_job-Commits :
        (req : JobCreateRequest) → Commits P (submit_job croniter uuid_text iso req)
    unfolding submit_job commit
    submit_job-Commits req =
        let rule : Action = λ w. (check_rule croniter uuid_text iso req.recurrence_rule w.now, w) in
        let insert : Exec Job = try_query (λ w. create_job w.fresh (new_job req) w.now) in
        let answer : Job → Exec JobCreateResponse =
          λ j. pure (record { job_id = j.id; status = pending }) in
        let tell : Job → Exec JobCreateResponse =
          λ j. announce croniter uuid_text iso j.id req >> answer j in
        let rest : Job → Exec JobCreateResponse = λ j. place j.id req >> tell j in
        Commits-bind P rule (λ _. insert >>= rest) (Commits-nothing P rule (λ w. refl))
          (λ _.
            Commits-bind P insert rest
              (Commits-try_query P (λ w. create_job w.fresh (new_job req) w.now)
                (λ w db j e. subst (Reaches P w.db) (ap (after_insert w.db) e) (
                  Reaches-commit P (w.now, creates w.fresh (new_job req)) w.db
                    (adds w.fresh (new_job req)))))
              (λ j.
                Commits-bind P (place j.id req) (λ _. tell j) (place-Commits j.id req)
                  (λ _.
                    Commits-bind P (announce croniter uuid_text iso j.id req) (λ _. answer j)
                      (announce-Commits j.id req)
                      (λ _. returned P (record { job_id = j.id; status = pending })))))

    pub post_job-Commits :
        (req : JobCreateRequest) → Commits P (post_job croniter uuid_text iso req)
    unfolding post_job
    post_job-Commits req = elim (Bool-cases (is_accepted req)) [
      | inl e ↦ rw (e, post_job) (submit_job-Commits req)
      | inr e ↦ rw (e, post_job) (refused (http 422))
    ]

  withdraw-Commits :
      (uuid_text : ℕ → String) (id : ℕ) (c : CancelRecord) → Commits P (withdraw uuid_text id c)
  unfolding withdraw emit_job_status_changed
  withdraw-Commits uuid_text id c =
      let last : Action =
        emit_job_status_changed (uuid_text id) c.type (status_text c.status) none in
      let c4 : Action = command_ (λ r. zrem default_scheduled_set id r) in
      let c3 : Action = command_ (λ r. (lrem_all low_queue id r).0) in
      let c2 : Action = command_ (λ r. (lrem_all high_queue id r).0) in
      let c1 : Action = command_ (λ r. (lrem_all default_queue id r).0) in
      Commits-attempt P (c1 >> (c2 >> (c3 >> (c4 >> last)))) (
        Commits-bind P c1 (λ _. c2 >> (c3 >> (c4 >> last)))
          (sent P (λ r. (lrem_all default_queue id r).0))
          (λ _.
            Commits-bind P c2 (λ _. c3 >> (c4 >> last)) (sent P (λ r. (lrem_all high_queue id r).0))
              (λ _.
                Commits-bind P c3 (λ _. c4 >> last) (sent P (λ r. (lrem_all low_queue id r).0))
                  (λ _.
                    Commits-bind P c4 (λ _. last) (sent P (λ r. zrem default_scheduled_set id r))
                      (λ _. publish-Commits _ _)))))

  pub cancel_job_by_id-Commits :
      (uuid_text : ℕ → String) (id : ℕ) → Commits P (cancel_job_by_id uuid_text id)
  unfolding cancel_job_by_id commit
  cancel_job_by_id-Commits uuid_text id =
      Commits-bind P (query (λ w. cancel_job id w.now))
        (λ found. elim found [
          | none ↦ raise (http 404)
          | some r ↦ withdraw uuid_text id r >> pure r
        ])
        (Commits-query P (λ w. cancel_job id w.now)
          (λ w. Reaches-commit P (w.now, cancels id) w.db (cancelled id)))
        answered
    where
      answered :
          (found : Option CancelRecord)
          → Commits P {A = CancelRecord}
              (elim found [ none ↦ raise (http 404) | some r ↦ withdraw uuid_text id r >> pure r ])
      answered none = refused (http 404)
      answered (some r) =
          Commits-bind P (withdraw uuid_text id r) (λ _. pure r) (withdraw-Commits uuid_text id r)
            (λ _. returned P r)

  pub replay_dead_letter_job-Commits :
      (id : ℕ) → P (replays id) → Commits P (replay_dead_letter_job id)
  unfolding replay_dead_letter_job commit
  replay_dead_letter_job-Commits id mine = record {
    reaches = λ w.
        let w1 : World = record w { db = (replay_dead_letter id w.now w.db).0 } in
        let step : Reaches P w.db w1.db = Reaches-commit P (w.now, replays id) w.db mine in
        elim (Option-cases (replay_dead_letter id w.now w.db).1) [
          | inl e ↦ rw (e, replay_dead_letter_job) step
          | inr (d, e) ↦
              let f : Redis → Redis = λ r. (enqueue_job d.job_id (pos 0) none r).0 in
              let answer : ReplayResponse = record {
                job_id = d.job_id;
                dead_letter_id = d.dead_letter_id;
                status = pending;
              } in
              rw (e, replay_dead_letter_job)
                (Reaches-trans P w.db w1.db ((command_ f >> pure answer) w1).1.db step (
                  (Commits-bind P (command_ f) (λ _. pure answer) (sent P f)
                      (λ _. returned P answer)).reaches
                    w1))
        ];
  }
