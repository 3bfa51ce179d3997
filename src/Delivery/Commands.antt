-- ===== src/Delivery/Commands.antt =====
-- What each command of Redis does to the keys that it holds.
use mathlib.Core.Path.{subst}
use distribu_q.Config.{default_scheduled_set}
use distribu_q.Delivery.Held.{
  is_key, Keeps, Held, elem-append, elem-remove_first, elem-members-without, elem-remove_all,
  elem-members_insert,
}
use distribu_q.Redis.{zrem, rpush, lrem_first, zadd, lpush, lrem_all, Redis, without}
use distribu_q.Redis.Client.{requeue_job, promote_each}
use distribu_q.Base.{
  ℕ, String, ◌≡◌, sym, inl, inr, true, false, List, [], ◌∷◌, arith, eq_iff, ◌==◌, ==_iff,
  Bool-cases,
}

module _ (p : String) where
  pub lpush-Keeps : (k : String) (v : ℕ) → Keeps p (λ r. (lpush k v r).0)
  unfolding lpush
  lpush-Keeps k v r id (inr e) = inr e
  lpush-Keeps k v r id (inl (j, key, e)) = inl (j, key, ground (arith, eq_iff k j))

  pub lpush-Held : (k : String) (v : ℕ) (r : Redis) → is_key p k ≡ true → Held p (lpush k v r).0 v
  unfolding lpush
  lpush-Held k v r key = inl (k, key, ground (arith, eq_iff k k))

  pub rpush-Keeps : (k : String) (v : ℕ) → Keeps p (λ r. (rpush k v r).0)
  unfolding rpush
  rpush-Keeps k v r id (inr e) = inr e
  rpush-Keeps k v r id (inl (j, key, e)) =
      inl (j, key, ground (arith, eq_iff k j, elem-append id (r.lists k) (v ∷ [])))

  pub rpush-Held : (k : String) (v : ℕ) (r : Redis) → is_key p k ≡ true → Held p (rpush k v r).0 v
  unfolding rpush
  rpush-Held k v r key =
      inl (k, key, ground (arith, eq_iff k k, elem-append v (r.lists k) (v ∷ [])))

  pub lrem_first-Held :
      (k : String) (v id : ℕ) (r : Redis)
      → (id == v) ≡ false
      → Held p r id
      → Held p (lrem_first k v r).0 id
  unfolding lrem_first
  lrem_first-Held k v id r ne (inr e) = inr e
  lrem_first-Held k v id r ne (inl (j, key, e)) =
      inl (j, key, ground (arith, eq_iff k j, elem-remove_first id v (r.lists k)))

  pub lrem_all-Held :
      (k : String) (v id : ℕ) (r : Redis)
      → (id == v) ≡ false
      → Held p r id
      → Held p (lrem_all k v r).0 id
  unfolding lrem_all
  lrem_all-Held k v id r ne (inr e) = inr e
  lrem_all-Held k v id r ne (inl (j, key, e)) =
      inl (j, key, ground (arith, eq_iff k j, elem-remove_all id v (r.lists k)))

  pub zrem-Held :
      (k : String) (v id : ℕ) (r : Redis) → (id == v) ≡ false → Held p r id → Held p (zrem k v r) id
  unfolding zrem
  zrem-Held k v id r ne (inl e) = inl e
  zrem-Held k v id r ne (inr e) =
      inr (ground (arith, eq_iff k default_scheduled_set, elem-members-without id v (r.zsets k)))

  pub zadd-Held : (v t : ℕ) (r : Redis) → Held p (zadd default_scheduled_set v t r).0 v
  unfolding zadd
  zadd-Held v t r =
      inr (ground (arith, elem-members_insert v v t (without v (r.zsets default_scheduled_set))))

  pub zadd-Keeps : (v t : ℕ) → Keeps p (λ r. (zadd default_scheduled_set v t r).0)
  unfolding zadd
  zadd-Keeps v t r id (inl e) = inl e
  zadd-Keeps v t r id (inr e) = inr (
      ground (
        arith,
        elem-members_insert id v t (without v (r.zsets default_scheduled_set)),
        elem-members-without id v (r.zsets default_scheduled_set),
      ))

  -- The step of the promotion.
  pub promote-Keeps :
      (k target : String) (v : ℕ)
      → is_key p target ≡ true
      → Keeps p (λ r. (lpush target v (zrem k v r)).0)
  promote-Keeps k target v key r id h = elim (Bool-cases (id == v)) [
    | inl hit ↦
        subst (Held p (lpush target v (zrem k v r)).0) (sym ((==_iff id v).0 hit))
          (lpush-Held target v (zrem k v r) key)
    | inr miss ↦ lpush-Keeps target v (zrem k v r) id (zrem-Held k v id r miss h)
  ]

  pub promote_each-Keeps :
      (k target : String) (vs : List ℕ)
      → is_key p target ≡ true
      → Keeps p (promote_each k target vs)
  unfolding promote_each
  promote_each-Keeps k target [] key r id h = h
  promote_each-Keeps k target (v ∷ vs) key r id h =
      promote_each-Keeps k target vs key (lpush target v (zrem k v r)).0 id
        (promote-Keeps k target v key r id h)

  pub requeue_job-Keeps :
      (v : ℕ) (processing target : String)
      → is_key p target ≡ true
      → Keeps p (requeue_job v processing target)
  unfolding requeue_job
  requeue_job-Keeps v processing target key r id h = elim (Bool-cases (id == v)) [
    | inl hit ↦
        subst (Held p (requeue_job v processing target r)) (sym ((==_iff id v).0 hit))
          (rpush-Held target v (lrem_first processing v r).0 key)
    | inr miss ↦
        rpush-Keeps target v (lrem_first processing v r).0 id
          (lrem_first-Held processing v id r miss h)
  ]
