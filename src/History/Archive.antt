-- ===== src/History/Archive.antt =====
-- The dead letters against the jobs: which rows of the archive a job in DEAD_LETTER has.
use distribu_q.DeadLetters.{has_dl_id, is_of_job}
use distribu_q.Schema.{dead_letter, Db, DeadLetter, Job, is_status}
use distribu_q.Base.{
  [], ◌∷◌, none, some, update_where, select, find_row, ℕ, ◌≡◌, refl, ◌∙◌, inl, inr, Bool, true,
  false, ◌||◌, not, List, ◌++◌, arith, ◌==◌, Bool-cases, All,
}

abbrev pub has_letter : ℕ → List DeadLetter → Bool
has_letter id [] = false
has_letter id (d ∷ ds) = is_of_job id d || has_letter id ds

abbrev pub has_key : ℕ → List DeadLetter → Bool
has_key id [] = false
has_key id (d ∷ ds) = has_dl_id id d || has_key id ds

-- The primary key of dead_letters.
abbrev pub LetterKeys : List DeadLetter → Type 0
LetterKeys [] = Unit
LetterKeys (d ∷ ds) = (has_key d.id ds ≡ false) × LetterKeys ds

-- A job in DEAD_LETTER has a dead letter.
abbrev pub is_filed : List DeadLetter → Job → Bool
is_filed ds j = not (is_status j.status dead_letter) || has_letter j.id ds

abbrev pub IsFiled : List DeadLetter → Job → Type 0
IsFiled ds j = is_filed ds j ≡ true

abbrev pub IsArchived : Db → Type 0
IsArchived db = LetterKeys db.dead_letters × All (IsFiled db.dead_letters) db.jobs

pub has_letter-append :
    (id : ℕ) (ds es : List DeadLetter)
    → has_letter id (ds ++ es) ≡ (has_letter id ds || has_letter id es)
has_letter-append id [] es = refl
has_letter-append id (d ∷ ds) es = ground (arith, has_letter-append id ds es)

pub has_key-append :
    (id : ℕ) (ds es : List DeadLetter) → has_key id (ds ++ es) ≡ (has_key id ds || has_key id es)
has_key-append id [] es = refl
has_key-append id (d ∷ ds) es = ground (arith, has_key-append id ds es)

pub has_key-none :
    (id : ℕ) (ds : List DeadLetter) → find_row (has_dl_id id) ds ≡ none → has_key id ds ≡ false
unfolding find_row
has_key-none id [] e = refl
has_key-none id (d ∷ ds) e = ground (arith, has_key-none id ds)

has_key-some :
    (q : DeadLetter → Bool) (ds : List DeadLetter) (d : DeadLetter)
    → find_row q ds ≡ some d
    → has_key d.id ds ≡ true
unfolding find_row
has_key-some q [] d e = cc
has_key-some q (x ∷ ds) d e = ground (arith, has_key-some q ds d)

pub LetterKeys-snoc :
    (ds : List DeadLetter) (d : DeadLetter)
    → LetterKeys ds
    → has_key d.id ds ≡ false
    → LetterKeys (ds ++ d ∷ [])
LetterKeys-snoc [] d k h = (refl, tt)
LetterKeys-snoc (x ∷ ds) d k h =
    (has_key-append x.id ds (d ∷ []) ∙ ground arith, LetterKeys-snoc ds d k.1 (ground arith))

has_key-select :
    (id : ℕ) (p : DeadLetter → Bool) (ds : List DeadLetter)
    → has_key id ds ≡ false
    → has_key id (select p ds) ≡ false
unfolding select
has_key-select id p [] h = refl
has_key-select id p (d ∷ ds) h = ground (arith, has_key-select id p ds)

pub LetterKeys-select :
    (p : DeadLetter → Bool) (ds : List DeadLetter) → LetterKeys ds → LetterKeys (select p ds)
unfolding select
LetterKeys-select p [] k = tt
LetterKeys-select p (d ∷ ds) k = elim (Bool-cases (p d)) [
  | inl e ↦ rw e (has_key-select d.id p ds k.0, LetterKeys-select p ds k.1)
  | inr e ↦ rw e (LetterKeys-select p ds k.1)
]

-- A deletion by key leaves the rows of other keys.
has_letter-absent :
    (id key : ℕ) (ds : List DeadLetter)
    → has_key key ds ≡ false
    → has_letter id (select (λ x. not (has_dl_id key x)) ds) ≡ has_letter id ds
unfolding select
has_letter-absent id key [] h = refl
has_letter-absent id key (d ∷ ds) h = ground (arith, has_letter-absent id key ds)

-- A deletion of one row leaves the dead letters of other jobs.
pub has_letter-delete :
    (id : ℕ) (q : DeadLetter → Bool) (ds : List DeadLetter) (d : DeadLetter)
    → LetterKeys ds
    → find_row q ds ≡ some d
    → (d.job_id == id) ≡ false
    → has_letter id (select (λ x. not (has_dl_id d.id x)) ds) ≡ has_letter id ds
unfolding select find_row
has_letter-delete id q [] d k e ne = cc
has_letter-delete id q (x ∷ ds) d k e ne = elim (Bool-cases (q x)) [
  | inl hit ↦ ground (arith, has_letter-absent id d.id ds)
  | inr miss ↦ ground (arith, has_letter-delete id q ds d k.1, has_key-some q ds d)
]

pub All-append {ℓ κ} :
    {A : Type ℓ} (P : A → Type κ) (xs : List A) (x : A) → All P xs → P x → All P (xs ++ x ∷ [])
All-append P [] x h p = (p, tt)
All-append P (y ∷ xs) x h p = (h.0, All-append P xs x h.1 p)

pub All-rows {ℓ κ} :
    {R : Type ℓ} (P Q : R → Type κ) (p : R → Bool) (f : R → R) (rs : List R)
    → ((r : R) → p r ≡ true → P r → Q (f r))
    → ((r : R) → p r ≡ false → P r → Q r)
    → All P rs
    → All Q (update_where p f rs)
unfolding update_where
All-rows P Q p f [] h g all = tt
All-rows P Q p f (r ∷ rs) h g all = elim (Bool-cases (p r)) [
  | inl e ↦ rw e (h r e all.0, All-rows P Q p f rs h g all.1)
  | inr e ↦ rw e (g r e all.0, All-rows P Q p f rs h g all.1)
]
