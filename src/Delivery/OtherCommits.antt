-- ===== src/Delivery/OtherCommits.antt =====
-- Requests and passes commit transactions of api/db.py and worker/db.py and nothing else.
use distribu_q.Config.{worker_timeout_sec, default_visibility_timeout_sec}
use distribu_q.Schema.{Job}
use distribu_q.Redis.Client.{promote_due_scheduled_jobs, enqueue_job, schedule_job, requeue_job}
use distribu_q.Workers.{mark_expired_workers_dead}
use distribu_q.Jobs.{
  reclaim_due_retry_jobs, reclaim_stale_jobs, DueRetry, ReclaimedJob, get_pending_scheduled_jobs,
}
use distribu_q.Redis.{Redis, lpush}
use distribu_q.Reaper.{Reaper, push_each, requeue_each}
use distribu_q.Delivery.Commits.{
  Commits, Commits-command, Commits-nothing, Commits-for_each, Commits-query, Reaches-commit,
  Commits-catch, Commits-bind, Commits-attempt, AllowsPasses, sent_each, returned, sent,
}
use distribu_q.Scheduler.{Scheduler, sync_from_db, sync_job, promote_retries, run_reaper, timed}
use distribu_q.Base.{ℕ, refl, inl, inr, none, List, Option-cases, length}
use distribu_q.History.{reclaims_stale, reclaims_due, expires, commit, Tx}
use distribu_q.World.{◌>>=◌, ◌>>◌, gets, pure, command_, query, for_each, Action, Exec, attempt}
use distribu_q.Scheduler
use distribu_q.Reaper

module _ (P : Tx → Type 0) (allowed : AllowsPasses P) where
  expire-Commits : (timeout : ℕ) → Commits P (query (λ w. mark_expired_workers_dead timeout w.now))
  unfolding commit
  expire-Commits timeout =
      Commits-query P (λ w. mark_expired_workers_dead timeout w.now)
        (λ w. Reaches-commit P (w.now, expires timeout) w.db (allowed.expired timeout))

  stale-Commits : (timeout : ℕ) → Commits P (query (λ w. reclaim_stale_jobs timeout w.now))
  unfolding commit
  stale-Commits timeout =
      Commits-query P (λ w. reclaim_stale_jobs timeout w.now)
        (λ w. Reaches-commit P (w.now, reclaims_stale timeout) w.db (allowed.stale timeout))

  due-Commits : Commits P (query (λ w. reclaim_due_retry_jobs w.now))
  unfolding commit
  due-Commits =
      Commits-query P (λ w. reclaim_due_retry_jobs w.now)
        (λ w. Reaches-commit P (w.now, reclaims_due) w.db allowed.due)

  module _ (self : Scheduler) where
    pub promote_due-Commits : Commits P (distribu_q.Scheduler.run_once self)
    unfolding distribu_q.Scheduler.run_once
    promote_due-Commits = record {
      reaches = λ w.
          (Commits-command P
              (promote_due_scheduled_jobs self.target_queue self.scheduled_set w.now)).reaches
            w;
    }

    pub promote_retries-Commits : Commits P (promote_retries self)
    unfolding promote_retries
    promote_retries-Commits =
        let f : DueRetry → Redis → Redis = λ j r. (enqueue_job j.id j.priority none r).0 in
        let rest : List DueRetry → Exec ℕ =
          λ ds. for_each (λ j. command_ (f j)) ds >> pure (length ds) in
        Commits-catch P (query (λ w. reclaim_due_retry_jobs w.now) >>= rest) (λ _. pure 0)
          (Commits-bind P (query (λ w. reclaim_due_retry_jobs w.now)) rest due-Commits (λ ds.
            Commits-bind P (for_each (λ j. command_ (f j)) ds) (λ _. pure (length ds))
              (sent_each P f ds) (λ _. returned P (length ds))))
          (λ x. returned P 0)

    pub run_reaper-Commits : Commits P (run_reaper self)
    unfolding run_reaper
    run_reaper-Commits =
        let f : ReclaimedJob → Redis → Redis = λ j r. (enqueue_job j.id j.priority none r).0 in
        let expire = query (λ w. mark_expired_workers_dead worker_timeout_sec w.now) in
        let stale = query (λ w. reclaim_stale_jobs default_visibility_timeout_sec w.now) in
        let rest : List ReclaimedJob → Action = λ js. for_each (λ j. command_ (f j)) js in
        Commits-attempt P (expire >> (stale >>= rest)) (
          Commits-bind P expire (λ _. stale >>= rest) (expire-Commits worker_timeout_sec)
            (λ _.
              Commits-bind P stale rest (stale-Commits default_visibility_timeout_sec)
                (λ js. sent_each P f js)))

    sync_job-Commits : (j : Job) → Commits P (sync_job self j)
    unfolding sync_job
    sync_job-Commits j = elim (Option-cases j.scheduled_for) [
      | inl e ↦ rw (e, sync_job) (returned P tt)
      | inr (t, e) ↦ rw (e, sync_job) (sent P (λ r. (schedule_job j.id t self.scheduled_set r).0))
    ]

    pub sync_from_db-Commits : Commits P (sync_from_db self)
    unfolding sync_from_db
    sync_from_db-Commits =
        let read = gets (λ w. get_pending_scheduled_jobs w.db) in
        let rest : List Job → Exec ℕ = λ js. for_each (sync_job self) js >> pure (timed self js) in
        Commits-catch P (read >>= rest) (λ _. pure 0)
          (Commits-bind P read rest (Commits-nothing P read (λ w. refl)) (λ js.
            Commits-bind P (for_each (sync_job self) js) (λ _. pure (timed self js))
              (Commits-for_each P (sync_job self) js sync_job-Commits)
              (λ _. returned P (timed self js))))
          (λ x. returned P 0)

  module _ (self : Reaper) where
    requeue_each-Commits : (js : List ReclaimedJob) → Commits P (requeue_each self js)
    unfolding requeue_each
    requeue_each-Commits js =
        let f : ReclaimedJob → Action = λ j.
          attempt (command_ (λ r. requeue_job j.id self.processing_queue self.source_queue r)) in
        Commits-for_each P f js (λ j.
          Commits-attempt P
            (command_ (λ r. requeue_job j.id self.processing_queue self.source_queue r))
            (sent P (λ r. requeue_job j.id self.processing_queue self.source_queue r)))

    push_each-Commits : (ds : List DueRetry) → Commits P (push_each self ds)
    unfolding push_each
    push_each-Commits ds =
        let f : DueRetry → Action =
          λ j. attempt (command_ (λ r. (lpush self.source_queue j.id r).0)) in
        Commits-for_each P f ds (λ j.
          Commits-attempt P (command_ (λ r. (lpush self.source_queue j.id r).0))
            (sent P (λ r. (lpush self.source_queue j.id r).0)))

    pub recover-Commits : Commits P (distribu_q.Reaper.run_once self)
    unfolding distribu_q.Reaper.run_once
    recover-Commits =
        let expire = query (λ w. mark_expired_workers_dead self.heartbeat_timeout_sec w.now) in
        let stale = query (λ w. reclaim_stale_jobs self.visibility_timeout_sec w.now) in
        let due = query (λ w. reclaim_due_retry_jobs w.now) in
        let last : List ReclaimedJob → List DueRetry → Exec (List ReclaimedJob) =
          λ js ds. push_each self ds >> pure js in
        let rest : List ReclaimedJob → Exec (List ReclaimedJob) =
          λ js. requeue_each self js >> (due >>= last js) in
        Commits-bind P expire (λ _. stale >>= rest) (expire-Commits self.heartbeat_timeout_sec)
          (λ _. Commits-bind P stale rest (stale-Commits self.visibility_timeout_sec) (λ js.
            Commits-bind P (requeue_each self js) (λ _. due >>= last js) (requeue_each-Commits js)
              (λ _. Commits-bind P due (last js) due-Commits (λ ds.
                Commits-bind P (push_each self ds) (λ _. pure js) (push_each-Commits ds)
                  (λ _. returned P js)))))
