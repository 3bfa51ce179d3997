-- ===== src/World/Loops.antt =====
-- Redis commands one after another, and loops that send some for each of their elements.
use distribu_q.World.{
  World, for_each, command_, attempt, continue, recover, pure, ◌>>◌, Action, Exec,
}
use distribu_q.Redis.{Redis}
use distribu_q.Base.{◌≡◌, refl, true, false, List, [], ◌∷◌, ap, ◌∙◌, inl, inr}
use distribu_q.Result.{ok, connection_error, err, Result-cases}

pub command_-up :
    (f : Redis → Redis) (w : World)
    → w.redis_up ≡ true
    → command_ f w ≡ (ok tt, record w { redis = f w.redis })
command_-up f w up = rw up refl

pub command_-down :
    (f : Redis → Redis) (w : World) → w.redis_up ≡ false → command_ f w ≡ (err connection_error, w)
command_-down f w down = rw down refl

pub attempt-ok : (m : Action) (w v : World) → m w ≡ (ok tt, v) → attempt m w ≡ (ok tt, v)
attempt-ok m w v e = ap (λ x. recover (λ _. pure tt) x.0 x.1) e

pub then-ok {ℓ} :
    {B : Type ℓ} (m : Action) (next : Exec B) (w v : World)
    → m w ≡ (ok tt, v)
    → (m >> next) w ≡ next v
then-ok m next w v e = ap (λ x. continue (λ _. next) x.0 x.1) e

module _ {ℓ} {A : Type ℓ} (f : A → Redis → Redis) where
  abbrev pub each : List A → Redis → Redis
  each [] r = r
  each (a ∷ rest) r = each rest (f a r)

  pub for_each-command :
      (xs : List A) (w : World)
      → w.redis_up ≡ true
      → for_each (λ a. command_ (f a)) xs w ≡ (ok tt, record w { redis = each xs w.redis })
  for_each-command [] w up = refl
  for_each-command (a ∷ rest) w up =
      ap (λ x. continue (λ _. for_each (λ b. command_ (f b)) rest) x.0 x.1) (command_-up (f a) w up)
      ∙ (for_each-command rest (record w { redis = f a w.redis }) up)

  pub for_each-attempt :
      (xs : List A) (w : World)
      → w.redis_up ≡ true
      → for_each (λ a. attempt (command_ (f a))) xs w
        ≡ (ok tt, record w { redis = each xs w.redis })
  for_each-attempt [] w up = refl
  for_each-attempt (a ∷ rest) w up =
      ap
        (λ x.
          continue (λ _. for_each (λ b. attempt (command_ (f b))) rest)
            (recover (λ _. pure tt) x.0 x.1).0 (recover (λ _. pure tt) x.0 x.1).1)
        (command_-up (f a) w up)
      ∙ (for_each-attempt rest (record w { redis = f a w.redis }) up)

  pub for_each-attempt_down :
      (xs : List A) (w : World)
      → w.redis_up ≡ false
      → for_each (λ a. attempt (command_ (f a))) xs w ≡ (ok tt, w)
  for_each-attempt_down [] w down = refl
  for_each-attempt_down (a ∷ rest) w down =
      ap
        (λ x.
          continue (λ _. for_each (λ b. attempt (command_ (f b))) rest)
            (recover (λ _. pure tt) x.0 x.1).0 (recover (λ _. pure tt) x.0 x.1).1)
        (command_-down (f a) w down)
      ∙ for_each-attempt_down rest w down

-- An exception that is dropped leaves the world as it was when it was raised.
pub attempt-world : (m : Action) (w : World) → (attempt m w).1 ≡ (m w).1
attempt-world m w = elim (Result-cases (m w).0) [ inl (x, e) ↦ rw e refl | inr (u, e) ↦ rw e refl ]
