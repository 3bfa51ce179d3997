-- ===== src/Delivery/Stranded.antt =====
-- A job whose key is in no queue: no pass of the scheduler or the reaper puts it back.
use distribu_q.Delivery.{
  Call, promote_due, wake_retries, reap_stale, sync_all, recover_all, advance,
}
use distribu_q.Redis.Schedule.{elem, members}
use distribu_q.World.Loops.{each}
use distribu_q.Delivery.Held.{
  elem-remove_first, elem-append, elem-members-without, elem-members_insert,
}
use distribu_q.Delivery.{Call}
use distribu_q.Config.{high_queue, default_queue, default_scheduled_set, low_queue}
use distribu_q.Redis.{lpush, rpush, lrem_first, zrem, Redis, zadd, without}
use distribu_q.Redis.Client.{promote_each}
use distribu_q.Base.{
  ℕ, String, ◌≡◌, ◌∙◌, Bool, true, false, ◌||◌, List, [], ◌∷◌, arith, str_eq, eq_iff, ◌==◌, All,
}

abbrev pub is_queue : String → Bool
is_queue k = str_eq k high_queue || (str_eq k default_queue || str_eq k low_queue)

-- Neither a queue nor the sorted set of delayed jobs holds the key.
abbrev pub Absent : ℕ → Redis → Type 0
Absent id r =
    ((k : String) → is_queue k ≡ true → elem id (r.lists k) ≡ false)
    × (elem id (members (r.zsets default_scheduled_set)) ≡ false)

-- The passes, and the time between them.
abbrev pub is_pass : Call → Bool
is_pass promote_due = true
is_pass wake_retries = true
is_pass reap_stale = true
is_pass sync_all = true
is_pass recover_all = true
is_pass (advance now fresh rand) = true
is_pass _ = false

module _ (id : ℕ) where
  abbrev pub Spares : (Redis → Redis) → Type 0
  Spares f = (r : Redis) → Absent id r → Absent id (f r)

  pub lpush-Spares : (k : String) (v : ℕ) → (v == id) ≡ false → Spares (λ r. (lpush k v r).0)
  unfolding lpush
  lpush-Spares k v ne r (out, z) = (λ j queue. ground (arith, eq_iff k j, out j queue), z)

  pub rpush-Spares : (k : String) (v : ℕ) → (v == id) ≡ false → Spares (λ r. (rpush k v r).0)
  unfolding rpush
  rpush-Spares k v ne r (out, z) =
      (λ j queue. ground (arith, eq_iff k j, out j queue, elem-append id (r.lists k) (v ∷ [])), z)

  pub lrem_first-Spares :
      (k : String) (v : ℕ) → (v == id) ≡ false → Spares (λ r. (lrem_first k v r).0)
  unfolding lrem_first
  lrem_first-Spares k v ne r (out, z) = (
    λ j queue.
        let miss : (id == v) ≡ false = ground arith in
        ground (arith, eq_iff k j, out j queue, elem-remove_first id v (r.lists k) miss),
    z,
  )

  pub zadd-Spares :
      (v t : ℕ) → (v == id) ≡ false → Spares (λ r. (zadd default_scheduled_set v t r).0)
  unfolding zadd
  zadd-Spares v t ne r (out, z) =
      let miss : (id == v) ≡ false = ground arith in
      (
        out,
        elem-members_insert id v t (without v (r.zsets default_scheduled_set))
            ∙ rw (ne, elem-members-without id v (r.zsets default_scheduled_set) miss) z,
      )

  pub zrem-Spares : (v : ℕ) → (v == id) ≡ false → Spares (zrem default_scheduled_set v)
  unfolding zrem
  zrem-Spares v ne r (out, z) =
      let miss : (id == v) ≡ false = ground arith in
      (out, elem-members-without id v (r.zsets default_scheduled_set) miss ∙ z)

  pub promote_each-Spares :
      (target : String) (vs : List ℕ)
      → elem id vs ≡ false
      → Spares (promote_each default_scheduled_set target vs)
  unfolding promote_each
  promote_each-Spares target [] out r a = a
  promote_each-Spares target (v ∷ vs) out r a =
      let ne : (v == id) ≡ false = ground arith in
      promote_each-Spares target vs (ground arith)
        (lpush target v (zrem default_scheduled_set v r)).0
        (lpush-Spares target v ne (zrem default_scheduled_set v r) (zrem-Spares v ne r a))

  -- A loop over other keys.
  pub each-Spares {ℓ} :
      {A : Type ℓ} (f : A → Redis → Redis) (key : A → ℕ) (xs : List A)
      → ((a : A) → (key a == id) ≡ false → Spares (f a))
      → All (λ a. (key a == id) ≡ false) xs
      → Spares (each f xs)
  each-Spares f key [] spares others r a = a
  each-Spares f key (x ∷ xs) spares others r a =
      each-Spares f key xs spares others.1 (f x r) (spares x others.0 r a)
