-- ===== src/Worker/EventJournal/Sequence.antt =====
-- The sequence numbers of packages/worker/src/eventJournal.ts over appends and crashes.
use kross.Base.{
  ◌∙◌, some_inj, subst, ap, Bool-cases, ltb, Option-cases, ℕ, ◌+◌, ◌≤◌, ◌<◌, ◌≡◌, refl, ◌⊎◌, inl,
  inr, max, Bool, false, none, some, List, [], ◌∷◌, arith,
}
use kross.Worker.EventJournal.{
  ensure_range, issue_envelope, should_persist, persist, reserve_sequence_range, ServerEvent,
  Envelope, limited, Disk, Memory, Journal, forgotten, read, last_seq_of, read_reservation,
  reserve_step, load_last_seq, last_seq, append_after, append, crash,
}

-- The memory holds the number `l`, within the limit that memory and disk agree on.
pub record Live (l : ℕ) (j : Journal) : Type 0 where
  pub bound : ℕ
  pub last : j.memory.last ≡ some l
  pub limit : j.memory.limit ≡ some bound
  pub reservation : j.disk.reservation ≡ some (limited bound)
  pub within : l ≤ bound

-- The memory is empty, and the disk reserves the numbers up to `n`.
pub record Resting (n : ℕ) (j : Journal) : Type 0 where
  pub cold : j.memory ≡ forgotten
  pub reserved : read_reservation j.disk.reservation ≡ some n

-- The memory or, where it is empty, the sequence file records a number that is at least `high`.
abbrev Covers : ℕ → Journal → Type 0
Covers high j = ((l : ℕ) × (high ≤ l) × Live l j) ⊎ ((n : ℕ) × (high ≤ n) × Resting n j)

load_last_seq-Live :
    (j k : Journal) (n l : ℕ) → Resting n j → load_last_seq j ≡ some (l, k) → (n ≤ l) × Live l k
unfolding load_last_seq
load_last_seq-Live j k n l v h = elim (Option-cases (read j.disk.lines)) [
  | inl e ↦ cc (rw (e, load_last_seq) at h)
  | inr (events, e) ↦
      subst (λ (p : ℕ × Journal). (n ≤ p.0) × Live p.0 p.1)
        (some_inj (rw (e, v.reserved, load_last_seq) at h))
        (
          omega arith,
          record {
            bound = max (last_seq_of events) n + reserve_step;
            last = refl;
            limit = refl;
            reservation = refl;
            within = omega arith;
          },
        )
]

last_seq-Live :
    (high l : ℕ) (j k : Journal) → Covers high j → last_seq j ≡ some (l, k) → (high ≤ l) × Live l k
unfolding last_seq
last_seq-Live high l j k (inl (m, g, v)) h =
    subst (λ (p : ℕ × Journal). (high ≤ p.0) × Live p.0 p.1) (some_inj (rw (v.last, last_seq) at h))
      (g, v)
last_seq-Live high l j k (inr (n, g, v)) h =
    let (a, b) =
      load_last_seq-Live j k n l v (rw (ap (λ (m : Memory). m.last) v.cold, last_seq) at h) in
    (omega arith, b)

persist-reservation : (e : Envelope) (d : Disk) → (persist e d).reservation ≡ d.reservation
unfolding persist should_persist
persist-reservation e d = ground arith

-- The next number is within the range.
record Room (l : ℕ) (j : Journal) : Type 0 where
  bound : ℕ
  limit : j.memory.limit ≡ some bound
  reservation : j.disk.reservation ≡ some (limited bound)
  within : l + 1 ≤ bound

ensure_range-Room : (l : ℕ) (j : Journal) → Live l j → Room l (ensure_range l j)
unfolding ensure_range reserve_sequence_range
ensure_range-Room l j v = elim (Bool-cases (ltb v.bound (l + 1))) [
  | inl h ↦
      rw (v.limit, h)
        (record {
          bound = l + reserve_step;
          limit = refl;
          reservation = refl;
          within = omega arith;
        })
  | inr h ↦
      rw (v.limit, h)
        (record {
          bound = v.bound;
          limit = refl;
          reservation = v.reservation;
          within = ground arith;
        })
]

append_after-Live :
    (event : ServerEvent) (l : ℕ) (j : Journal)
    → Live l j
    → ((append_after event l j).0.seq ≡ l + 1) × Live (l + 1) (append_after event l j).1
unfolding append_after
append_after-Live event l j v =
    let room = ensure_range-Room l j v in
    (
      refl,
      record {
        bound = room.bound;
        last = refl;
        limit = room.limit;
        reservation =
            persist-reservation (issue_envelope event l) (ensure_range l j).disk ∙ room.reservation;
        within = room.within;
      },
    )

-- An event gets a number above all that were issued, and the journal knows it.
append-Covers :
    (event : ServerEvent) (high : ℕ) (j k : Journal) (e : Envelope)
    → Covers high j
    → append event j ≡ some (e, k)
    → (high < e.seq) × Covers e.seq k
unfolding append
append-Covers event high j k e v h = elim (Option-cases (last_seq j)) [
  | inl n ↦ cc (rw (n, append) at h)
  | inr ((l, j'), n) ↦
      let (g, w) = last_seq-Live high l j j' v n in
      let (q, w') = append_after-Live event l j' w in
      subst (λ (p : Envelope × Journal). (high < p.0.seq) × Covers p.0.seq p.1)
        (some_inj (rw (n, append) at h)) (omega (arith, q), inl (l + 1, omega (arith, q), w'))
]

-- A crash empties the memory; the numbers that were issued lie below the disk's limit.
crash-Covers : (cut : Bool) (high : ℕ) (j : Journal) → Covers high j → Covers high (crash cut j)
unfolding crash read_reservation
crash-Covers cut high j (inl (l, g, v)) = inr (
  v.bound,
  omega (arith, v.within),
  record { cold = refl; reserved = ground (arith, v.reservation) },
)
crash-Covers cut high j (inr (n, g, v)) = inr (n, g, record { cold = refl; reserved = v.reserved })

pub data Op : Type 0 where
  append_event : ServerEvent → Op
  crash_at : Bool → Op

-- The life of a session's journal: the envelopes that it issues, until an operation throws.
pub issue : List Op → Journal → List Envelope
issue [] j = []
issue (crash_at cut ∷ ops) j = issue ops (crash cut j)
issue (append_event event ∷ ops) j = elim (append event j) [
  | none ↦ []
  | some (e, k) ↦ e ∷ issue ops k
]

-- The numbers rise, from above `high`.
abbrev pub Ascending : ℕ → List Envelope → Type 0
Ascending high [] = Unit
Ascending high (e ∷ es) = (high < e.seq) × Ascending e.seq es

-- If the memory of a journal holds a last number of at least `high`, within a limit that the
-- sequence file records too, or the memory is empty and the sequence file, where a missing one
-- counts as 0, reserves the numbers up to one of at least `high`, then along any list of appends
-- and crashes each envelope that is issued has a number above `high` and above the numbers of all
-- envelopes before it.
pub issue-Ascending :
    (ops : List Op) (high : ℕ) (j : Journal) → Covers high j → Ascending high (issue ops j)
unfolding issue
issue-Ascending [] high j v = tt
issue-Ascending (crash_at cut ∷ ops) high j v =
    issue-Ascending ops high (crash cut j) (crash-Covers cut high j v)
issue-Ascending (append_event event ∷ ops) high j v = elim (Option-cases (append event j)) [
  | inl h ↦ rw (h, issue) tt
  | inr ((e, k), h) ↦
      let (g, w) = append-Covers event high j k e v h in
      rw (h, issue) (g, issue-Ascending ops e.seq k w)
]

-- A session that has no files yet.
abbrev pub fresh : Journal
fresh = record {
  disk = record { lines = []; torn = false; reservation = none };
  memory = forgotten;
}

pub fresh-Covers : Covers 0 fresh
unfolding read_reservation
fresh-Covers = inr (0, omega arith, record { cold = refl; reserved = refl })
