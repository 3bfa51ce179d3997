-- ===== src/Delivery/Commits.antt =====
-- Actions whose effect on Postgres is that of some transactions, one after another, each of them of
-- a kind `P`.
use distribu_q.Json.{Json}
use mathlib.Core.Path.{subst}
use distribu_q.Schema.{Db}
use distribu_q.Redis.{Redis}
use distribu_q.History.{
  run, Tx, commit, locks, succeeds, retries, archives, reclaims_stale, reclaims_due, expires,
}
use distribu_q.Base.{
  ℕ, ◌≡◌, refl, sym, ap, ◌∙◌, inl, inr, List, [], ◌∷◌, ◌++◌, Bool-cases, String, All,
}
use distribu_q.Result.{err, ok, Exn, Result, Result-cases}
use distribu_q.World.{
  ◌>>=◌, World, Exec, Action, attempt, catch, finally, command, update, query, for_each, pure,
  recover, try_query, continue, try_update, command_,
}

-- The transactions of the passes, and those of a worker that has a job.
pub record AllowsPasses (P : Tx → Type 0) : Type 0 where
  pub stale : (timeout : ℕ) → P (reclaims_stale timeout)
  pub due : P reclaims_due
  pub expired : (timeout : ℕ) → P (expires timeout)

pub record AllowsJob (P : Tx → Type 0) (id : ℕ) : Type 0 where
  pub locked : (worker : String) → P (locks id worker)
  pub succeeded : (v : Json) → P (succeeds id v)
  pub retried : (m : String) (t : ℕ) → P (retries id m t)
  pub archived : (dl : ℕ) (m : String) (n : ℕ) → P (archives dl id m n)

All-append {ℓ κ} :
    {A : Type ℓ} (P : A → Type κ) (xs ys : List A) → All P xs → All P ys → All P (xs ++ ys)
All-append P [] ys hs ks = ks
All-append P (x ∷ xs) ys hs ks = (hs.0, All-append P xs ys hs.1 ks)

module _ (P : Tx → Type 0) where
  abbrev pub Reaches : Db → Db → Type 0
  Reaches db db' = (ts : List (ℕ × Tx)) × All (λ t. P t.1) ts × (db' ≡ run ts db)

  pub record Commits {ℓ} {A : Type ℓ} (m : Exec A) : Type ℓ where
    pub reaches : (w : World) → Reaches w.db (m w).1.db

  run-append : (ts us : List (ℕ × Tx)) (db : Db) → run (ts ++ us) db ≡ run us (run ts db)
  unfolding run
  run-append [] us db = refl
  run-append (t ∷ ts) us db = run-append ts us (commit t db)

  pub Reaches-refl : (db : Db) → Reaches db db
  unfolding run
  Reaches-refl db = ([], tt, refl)

  pub Reaches-trans : (a b c : Db) → Reaches a b → Reaches b c → Reaches a c
  Reaches-trans a b c (ts, ps, e) (us, qs, f) =
      (ts ++ us, All-append (λ t. P t.1) ts us ps qs, f ∙ ap (run us) e ∙ sym (run-append ts us a))

  pub Reaches-commit : (t : ℕ × Tx) (db : Db) → P t.1 → Reaches db (commit t db)
  unfolding run
  Reaches-commit t db h = (t ∷ [], (h, tt), refl)

  module _ {ℓ κ} {A : Type ℓ} {B : Type κ} where
    continue-Reaches :
        (next : A → Exec B) (r : Result A) (w : World)
        → ((a : A) → Commits (next a))
        → Reaches w.db (continue next r w).1.db
    continue-Reaches next (err x) w h = Reaches-refl w.db
    continue-Reaches next (ok a) w h = (h a).reaches w

    pub Commits-bind :
        (m : Exec A) (next : A → Exec B)
        → Commits m
        → ((a : A) → Commits (next a))
        → Commits (m >>= next)
    Commits-bind m next first rest = record {
      reaches = λ w.
          Reaches-trans w.db (m w).1.db ((m >>= next) w).1.db (first.reaches w)
            (continue-Reaches next (m w).0 (m w).1 rest);
    }

  module _ {ℓ} {A : Type ℓ} where
    -- Actions that leave Postgres alone.
    pub Commits-nothing : (m : Exec A) → ((w : World) → (m w).1.db ≡ w.db) → Commits m
    Commits-nothing m h = record {
      reaches = λ w. subst (Reaches w.db) (sym (h w)) (Reaches-refl w.db);
    }

    recover-Reaches :
        (handle : Exn → Exec A) (r : Result A) (w : World)
        → ((x : Exn) → Commits (handle x))
        → Reaches w.db (recover handle r w).1.db
    recover-Reaches handle (err x) w h = (h x).reaches w
    recover-Reaches handle (ok a) w h = Reaches-refl w.db

    pub Commits-catch :
        (m : Exec A) (handle : Exn → Exec A)
        → Commits m
        → ((x : Exn) → Commits (handle x))
        → Commits (catch m handle)
    Commits-catch m handle first rest = record {
      reaches = λ w.
          Reaches-trans w.db (m w).1.db (catch m handle w).1.db (first.reaches w)
            (recover-Reaches handle (m w).0 (m w).1 rest);
    }

    pub Commits-finally :
        (m : Exec A) (last : Action) → Commits m → Commits last → Commits (finally m last)
    Commits-finally m last first rest = record {
      reaches = λ w.
          Reaches-trans w.db (m w).1.db (finally m last w).1.db (first.reaches w)
            (rest.reaches (m w).1);
    }

    pub Commits-query :
        (f : World → Db → Db × A) → ((w : World) → Reaches w.db (f w w.db).0) → Commits (query f)
    Commits-query f h = record { reaches = h }

    pub Commits-try_query :
        (f : World → Db → Result (Db × A))
        → ((w : World) (db : Db) (a : A) → f w w.db ≡ ok (db, a) → Reaches w.db db)
        → Commits (try_query f)
    Commits-try_query f h = record {
      reaches = λ w. elim (Result-cases (f w w.db)) [
        | inl (x, e) ↦ rw e (Reaches-refl w.db)
        | inr ((db, a), e) ↦ rw e (h w db a e)
      ];
    }

    pub Commits-command : (f : Redis → Redis × A) → Commits (command f)
    Commits-command f =
        Commits-nothing (command f)
          (λ w. elim (Bool-cases w.redis_up) [ inl e ↦ rw e refl | inr e ↦ rw e refl ])

    pub Commits-for_each :
        (f : A → Action) (xs : List A) → ((a : A) → Commits (f a)) → Commits (for_each f xs)
    Commits-for_each f [] h = record { reaches = λ w. Reaches-refl w.db }
    Commits-for_each f (x ∷ xs) h =
        Commits-bind (f x) (λ _. for_each f xs) (h x) (λ _. Commits-for_each f xs h)

  pub Commits-update :
      (f : World → Db → Db) → ((w : World) → Reaches w.db (f w w.db)) → Commits (update f)
  Commits-update f h = record { reaches = h }

  pub Commits-attempt : (m : Action) → Commits m → Commits (attempt m)
  Commits-attempt m h =
      Commits-catch m (λ _. pure tt) h (λ x. Commits-nothing (pure tt) (λ w. refl))

  pub Commits-try_update :
      (f : World → Db → Result Db)
      → ((w : World) (db : Db) → f w w.db ≡ ok db → Reaches w.db db)
      → Commits (try_update f)
  Commits-try_update f h = record {
    reaches = λ w. elim (Result-cases (f w w.db)) [
      | inl (x, e) ↦ rw e (Reaches-refl w.db)
      | inr (db, e) ↦ rw e (h w db e)
    ];
  }

  pub sent : (f : Redis → Redis) → Commits (command_ f)
  sent f = Commits-command (λ r. (f r, tt))

  pub sent_each {ℓ} :
      {A : Type ℓ} (f : A → Redis → Redis) (xs : List A)
      → Commits (for_each (λ a. command_ (f a)) xs)
  sent_each f xs = Commits-for_each (λ a. command_ (f a)) xs (λ a. sent (f a))

  pub returned {ℓ} : {A : Type ℓ} (a : A) → Commits (pure a)
  returned a = Commits-nothing (pure a) (λ w. refl)
