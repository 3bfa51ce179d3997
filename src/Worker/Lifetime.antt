-- ===== src/Worker/Lifetime.antt =====
-- The end of a worker's life.
use distribu_q.World.Loops.{then-ok, command_-up}
use distribu_q.Heartbeat.{beat}
use distribu_q.Heartbeat.Liveness.{worker_of}
use distribu_q.Worker.Settle.{publish_event-world}
use distribu_q.World.{World, attempt, finally, ◌>>◌, continue, update, command_}
use distribu_q.Events.{emit_worker_dead}
use distribu_q.Redis.{Redis}
use distribu_q.Schema.{Db, WorkerRow, is_alive}
use distribu_q.Worker.{start}
use distribu_q.Workers.{mark_worker_dead, is_worker, bury}
use distribu_q.Handlers.{Registry}
use distribu_q.Worker.{Runtime, Self, shutdown, serve}
use distribu_q.Base.{
  find_row, find_row-update_where, find_row_holds, ◌≡◌, refl, sym, ap, ◌∙◌, inl, inr, Bool, true,
  false, some, List, Option-cases,
}
use distribu_q.Json.{str, end, field}

module _ (rt : Runtime) (self : Self) (registry : Registry) where
  shutdown-db :
      (w : World) → (shutdown rt self registry w).1.db ≡ mark_worker_dead self.worker_id w.db
  unfolding shutdown emit_worker_dead
  shutdown-db w =
      let (es, e) =
        publish_event-world "worker.dead" (field "worker_id" (str self.worker_id) end) w in
      ap (λ x. (continue (λ _. update (λ w2. mark_worker_dead self.worker_id)) x.0 x.1).1.db) e

  mark_worker_dead-row :
      (db : Db) (r : WorkerRow)
      → worker_of self.worker_id (mark_worker_dead self.worker_id db) ≡ some r
      → is_alive r.status ≡ false
  unfolding mark_worker_dead
  mark_worker_dead-row db r e =
      let moved =
        find_row-update_where (is_worker self.worker_id) (is_worker self.worker_id) bury db.workers
          (λ x. refl) in
      elim (Option-cases (find_row (is_worker self.worker_id) db.workers)) [
        | inl f ↦ absurd cc
        | inr (x, f) ↦
            let hit = find_row_holds (is_worker self.worker_id) db.workers x f in
            let m = rw (f, hit) at moved in
            let same : bury x ≡ r = cc in ap (λ y. is_alive y.status) (sym same)
      ]

  -- A worker whose first PING is answered ends with its row DEAD, if it has one, whatever its jobs
  -- and the other processes do in between and however many turns it serves.
  pub start-dead :
      (turns : List (Bool × (Redis → Redis))) (w : World) (r : WorkerRow)
      → w.redis_up ≡ true
      → worker_of self.worker_id (start rt self registry turns w).1.db ≡ some r
      → is_alive r.status ≡ false
  unfolding start beat
  start-dead turns w r up e =
      let w1 : World = (attempt (beat self.worker_id) w).1 in
      let v : World = (serve rt self registry turns w1).1 in
      let pinged : start rt self registry turns w
          ≡ (finally (serve rt self registry turns) (shutdown rt self registry)) w1 =
        then-ok (command_ (λ q. q))
          (attempt (beat self.worker_id)
            >> finally (serve rt self registry turns) (shutdown rt self registry))
          w w (command_-up (λ q. q) w up)
        ∙ then-ok (attempt (beat self.worker_id))
            (finally (serve rt self registry turns) (shutdown rt self registry)) w w1 refl in
      mark_worker_dead-row v.db r
        (ap (λ d. worker_of self.worker_id d) (sym (ap (λ x. x.1.db) pinged ∙ shutdown-db v)) ∙ e)
