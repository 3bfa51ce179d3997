-- ===== src/Api/Statuses.antt =====
-- The six statuses as the keys of the counts.
use distribu_q.Base.{ℕ, ◌≡◌, refl, inl, inr, true, false, List, arith, if◌then◌else◌, Bool-cases}
use distribu_q.Schema.{
  pending, running, success, failed, retrying, dead_letter, JobStatus, is_status, Job,
}
use distribu_q.Api.Counts.{put_count, JobCounts, count_of, direct}

abbrev pub count_in : JobStatus → JobCounts → ℕ
count_in pending c = c.pending_count
count_in running c = c.running_count
count_in success c = c.success_count
count_in failed c = c.failed_count
count_in retrying c = c.retrying_count
count_in dead_letter c = c.dead_letter_count

pub is_status-eq : (s t : JobStatus) → is_status s t ≡ true → s ≡ t
is_status-eq pending pending e = refl
is_status-eq pending running e = absurd (ground arith)
is_status-eq pending success e = absurd (ground arith)
is_status-eq pending failed e = absurd (ground arith)
is_status-eq pending retrying e = absurd (ground arith)
is_status-eq pending dead_letter e = absurd (ground arith)
is_status-eq running pending e = absurd (ground arith)
is_status-eq running running e = refl
is_status-eq running success e = absurd (ground arith)
is_status-eq running failed e = absurd (ground arith)
is_status-eq running retrying e = absurd (ground arith)
is_status-eq running dead_letter e = absurd (ground arith)
is_status-eq success pending e = absurd (ground arith)
is_status-eq success running e = absurd (ground arith)
is_status-eq success success e = refl
is_status-eq success failed e = absurd (ground arith)
is_status-eq success retrying e = absurd (ground arith)
is_status-eq success dead_letter e = absurd (ground arith)
is_status-eq failed pending e = absurd (ground arith)
is_status-eq failed running e = absurd (ground arith)
is_status-eq failed success e = absurd (ground arith)
is_status-eq failed failed e = refl
is_status-eq failed retrying e = absurd (ground arith)
is_status-eq failed dead_letter e = absurd (ground arith)
is_status-eq retrying pending e = absurd (ground arith)
is_status-eq retrying running e = absurd (ground arith)
is_status-eq retrying success e = absurd (ground arith)
is_status-eq retrying failed e = absurd (ground arith)
is_status-eq retrying retrying e = refl
is_status-eq retrying dead_letter e = absurd (ground arith)
is_status-eq dead_letter pending e = absurd (ground arith)
is_status-eq dead_letter running e = absurd (ground arith)
is_status-eq dead_letter success e = absurd (ground arith)
is_status-eq dead_letter failed e = absurd (ground arith)
is_status-eq dead_letter retrying e = absurd (ground arith)
is_status-eq dead_letter dead_letter e = refl

is_status_refl : (s : JobStatus) → is_status s s ≡ true
is_status_refl pending = refl
is_status_refl running = refl
is_status_refl success = refl
is_status_refl failed = refl
is_status_refl retrying = refl
is_status_refl dead_letter = refl

pub count_in-put_count :
    (s t : JobStatus) (n : ℕ) (c : JobCounts)
    → count_in t (put_count s n c) ≡ (if is_status s t then n else count_in t c)
count_in-put_count pending pending n c = refl
count_in-put_count pending running n c = refl
count_in-put_count pending success n c = refl
count_in-put_count pending failed n c = refl
count_in-put_count pending retrying n c = refl
count_in-put_count pending dead_letter n c = refl
count_in-put_count running pending n c = refl
count_in-put_count running running n c = refl
count_in-put_count running success n c = refl
count_in-put_count running failed n c = refl
count_in-put_count running retrying n c = refl
count_in-put_count running dead_letter n c = refl
count_in-put_count success pending n c = refl
count_in-put_count success running n c = refl
count_in-put_count success success n c = refl
count_in-put_count success failed n c = refl
count_in-put_count success retrying n c = refl
count_in-put_count success dead_letter n c = refl
count_in-put_count failed pending n c = refl
count_in-put_count failed running n c = refl
count_in-put_count failed success n c = refl
count_in-put_count failed failed n c = refl
count_in-put_count failed retrying n c = refl
count_in-put_count failed dead_letter n c = refl
count_in-put_count retrying pending n c = refl
count_in-put_count retrying running n c = refl
count_in-put_count retrying success n c = refl
count_in-put_count retrying failed n c = refl
count_in-put_count retrying retrying n c = refl
count_in-put_count retrying dead_letter n c = refl
count_in-put_count dead_letter pending n c = refl
count_in-put_count dead_letter running n c = refl
count_in-put_count dead_letter success n c = refl
count_in-put_count dead_letter failed n c = refl
count_in-put_count dead_letter retrying n c = refl
count_in-put_count dead_letter dead_letter n c = refl

pub not_status : (s t : JobStatus) → is_status s t ≡ false → is_status t s ≡ false
not_status s t e = elim (Bool-cases (is_status t s)) [
  | inr f ↦ f
  | inl f ↦
      let same : t ≡ s = is_status-eq t s f in
      let bad : is_status s s ≡ false = rw same at e in absurd (cc (is_status_refl s))
]

pub direct_is : (t : JobStatus) (jobs : List Job) → count_of t jobs ≡ count_in t (direct jobs)
direct_is pending jobs = refl
direct_is running jobs = refl
direct_is success jobs = refl
direct_is failed jobs = refl
direct_is retrying jobs = refl
direct_is dead_letter jobs = refl

pub by_fields : (b c : JobCounts) → ((t : JobStatus) → count_in t b ≡ count_in t c) → b ≡ c
by_fields b c e =
    let p = e pending in
    let r = e running in
    let s = e success in let f = e failed in let y = e retrying in let d = e dead_letter in cc
