-- ===== src/Worker/EventJournal/Replay.antt =====
-- `append` and `replay` of packages/worker/src/eventJournal.ts, on a whole file and behind a cut-
-- off line.
use kross.Base.{
  ◌≢◌, sym, ℕ, ◌<◌, ◌≡◌, refl, true, false, some, List, [], ◌∷◌, ◌++◌, arith, filter_by,
  filter_by-append, ltb, some_inj, subst, ap, Option-cases, inl, inr, ◌∙◌,
}
use kross.Worker.EventJournal.{
  EventType, session_snapshot, ServerEvent, Envelope, Line, blank, malformed, unsupported, invalid,
  envelope, Disk, Journal, should_persist, read, persist, append_after, append, last_seq, replay,
  ensure_range,
}

read-append :
    (lines : List Line) (e : Envelope) (es : List Envelope)
    → read lines ≡ some es
    → read (lines ++ envelope e ∷ []) ≡ some (es ++ e ∷ [])
unfolding read
read-append [] e es h = ground arith
read-append (blank ∷ lines) e es h = read-append lines e es h
read-append (malformed ∷ lines) e es h = read-append lines e es h
read-append (unsupported ∷ lines) e es h = cc
read-append (invalid ∷ lines) e es h = read-append lines e es h
read-append (envelope d ∷ lines) e es h = elim (Option-cases (read lines)) [
  | inl k ↦ cc (rw (k, read) at h)
  | inr (fs, k) ↦
      rw (read-append lines e fs k) (ap (λ gs. some (gs ++ e ∷ [])) (some_inj (rw (k, read) at h)))
]

read-malformed : (lines : List Line) → read (lines ++ malformed ∷ []) ≡ read lines
unfolding read
read-malformed [] = refl
read-malformed (blank ∷ lines) = read-malformed lines
read-malformed (malformed ∷ lines) = read-malformed lines
read-malformed (unsupported ∷ lines) = refl
read-malformed (invalid ∷ lines) = read-malformed lines
read-malformed (envelope d ∷ lines) = rw (read-malformed lines)

-- What the file keeps beside a new event: nothing beside a snapshot.
abbrev pub kept : EventType → List Envelope → List Envelope
kept session_snapshot es = []
kept _ es = es

persist-read :
    (e : Envelope) (disk : Disk) (es : List Envelope)
    → disk.torn ≡ false
    → read disk.lines ≡ some es
    → should_persist e.event.type ≡ true
    → read (persist e disk).lines ≡ some (kept e.event.type es ++ e ∷ [])
unfolding persist should_persist read
persist-read e disk es t h p = ground (arith, read-append disk.lines e es h)

persist-read_torn :
    (e : Envelope) (disk : Disk)
    → disk.torn ≡ true
    → e.event.type ≢ session_snapshot
    → read (persist e disk).lines ≡ read disk.lines
unfolding persist should_persist
persist-read_torn e disk t p = ground (arith, read-malformed disk.lines)

ensure_range-disk :
    (n : ℕ) (j : Journal)
    → ((ensure_range n j).disk.lines ≡ j.disk.lines) × ((ensure_range n j).disk.torn ≡ j.disk.torn)
unfolding ensure_range
ensure_range-disk n j = ground arith

last_seq-disk :
    (j k : Journal) (n : ℕ)
    → last_seq j ≡ some (n, k)
    → (k.disk.lines ≡ j.disk.lines) × (k.disk.torn ≡ j.disk.torn)
unfolding last_seq
last_seq-disk j k n h = ground arith

append_cases :
    (event : ServerEvent) (j k : Journal) (e : Envelope)
    → append event j ≡ some (e, k)
    → (d : Disk) × (d.lines ≡ j.disk.lines)
      × (d.torn ≡ j.disk.torn)
      × (k.disk ≡ persist e d)
      × (e.event ≡ event)
unfolding append append_after
append_cases event j k e h = elim (Option-cases (last_seq j)) [
  | inl q ↦ cc (rw (q, append) at h)
  | inr ((n, j'), q) ↦
      let (l, u) = last_seq-disk j j' n q in
      let (l', u') = ensure_range-disk n j' in
      subst
        (λ (p : Envelope × Journal).
          (d : Disk) × (d.lines ≡ j.disk.lines)
          × (d.torn ≡ j.disk.torn)
          × (p.1.disk ≡ persist p.0 d)
          × (p.0.event ≡ event))
        (some_inj (rw (q, append) at h)) ((ensure_range n j').disk, l' ∙ l, u' ∙ u, refl, refl)
]

replay_of_read :
    (cursor : ℕ) (k : Journal) (es : List Envelope)
    → read k.disk.lines ≡ some es
    → replay cursor k ≡ some (filter_by (λ x. ltb cursor x.seq) es)
unfolding replay
replay_of_read cursor k es h = rw (h, replay)

filter-append_last :
    (cursor : ℕ) (es : List Envelope) (e : Envelope)
    → cursor < e.seq
    → filter_by (λ x. ltb cursor x.seq) (es ++ e ∷ [])
      ≡ filter_by (λ x. ltb cursor x.seq) es ++ e ∷ []
filter-append_last cursor es e lt =
    filter_by-append (λ x. ltb cursor x.seq) es (e ∷ []) ∙ ground arith

-- If the event file is whole and readable and an event of a persisted type is appended, a client
-- whose cursor lies below the new number is replayed the kept events above its cursor, none for a
-- snapshot and else those that were in the file, and then the new event, last.
pub replay-append :
    (event : ServerEvent) (j k : Journal) (e : Envelope) (es : List Envelope) (cursor : ℕ)
    → j.disk.torn ≡ false
    → read j.disk.lines ≡ some es
    → should_persist event.type ≡ true
    → append event j ≡ some (e, k)
    → cursor < e.seq
    → replay cursor k ≡ some (filter_by (λ x. ltb cursor x.seq) (kept event.type es) ++ e ∷ [])
replay-append event j k e es cursor t r p h lt =
    let (d, l, u, q, v) = append_cases event j k e h in
    let whole =
      ap (λ (x : Disk). read x.lines) q
      ∙ persist-read e d es (u ∙ t) (ap read l ∙ r)
          (subst (λ (x : ServerEvent). should_persist x.type ≡ true) (sym v) p) in
    replay_of_read cursor k (kept e.event.type es ++ e ∷ []) whole
    ∙ ap some (filter-append_last cursor (kept e.event.type es) e lt)
    ∙ ap (λ (x : ServerEvent). some (filter_by (λ x. ltb cursor x.seq) (kept x.type es) ++ e ∷ []))
        v

-- If the last line of an event file was cut off and an event that is no snapshot is appended, then
-- a replay from any cursor gives what it gave before the append: the event is lost.
pub replay-append_torn :
    (event : ServerEvent) (j k : Journal) (e : Envelope) (cursor : ℕ)
    → j.disk.torn ≡ true
    → event.type ≢ session_snapshot
    → append event j ≡ some (e, k)
    → replay cursor k ≡ replay cursor j
unfolding replay
replay-append_torn event j k e cursor t p h =
    let (d, l, u, q, v) = append_cases event j k e h in
    let same =
      ap (λ (x : Disk). read x.lines) q
      ∙ persist-read_torn e d (u ∙ t)
          (subst (λ (x : ServerEvent). x.type ≢ session_snapshot) (sym v) p)
      ∙ ap read l in
    rw (same, replay)
