-- ===== src/Delivery/Dispatch.antt =====
-- The steps of the dispatch loop keep the invariant.
use csar_core.Prelude.{
  ◌+◌, ◌≤◌, ◌<◌, ◌≡◌, refl, ◌∙◌, ◌⊎◌, inl, inr, Bool, true, false, List, [], ◌∷◌, ◌++◌, arith, ltb,
  leb, Bool-cases, length, List-cases, length-append, All-append,
}
use csar_core.Prelude.Counts.{count, count-append, count-append_all}
use csar_core.Delivery.Client.{max_batch, Client, log_fallback, flush, receive, tick, count_all}
use csar_core.Delivery.Flow.{Inv}

module _ {E : Type 0} where
  pub count_all-append :
      (p : E → Bool) (bs : List (List E)) (b : List E)
      → count_all p (bs ++ b ∷ []) ≡ count_all p bs + count p b
  count_all-append p [] b = omega arith
  count_all-append p (x ∷ bs) b = omega (arith, count_all-append p bs b)

  -- A batch goes to the workers. `out` takes what `events` and `batch` give up.
  pub emit-Inv :
      (c : Client E) (rest out : List E)
      → Inv c
      → c.dispatching ≡ true
      → length c.batches < c.out_cap
      → length out ≤ max_batch
      → length rest ≤ length c.events
      → ((p : E → Bool) → count p rest + count p out ≡ count p c.events + count p c.batch)
      → Inv (record c { events = rest; batch = []; batches = c.batches ++ out ∷ [] })
  emit-Inv c rest out v runs room fits fewer same = record {
    closing = v.closing;
    safe = v.safe;
    queue = omega (arith, v.queue);
    gathered = omega arith;
    waiting = omega (arith, length-append c.batches (out ∷ []));
    busy = v.busy;
    small = All-append _ c.batches (out ∷ []) v.small (fits, tt);
    stopped = inl runs;
    conserved = λ p. omega (arith, v.conserved p, same p, count_all-append p c.batches out);
  }

  -- A batch is lost, since the channel to the workers is full.
  pub lose-Inv :
      (c : Client E) (rest out logged : List E)
      → Inv c
      → c.dispatching ≡ true
      → length rest ≤ length c.events
      → ((p : E → Bool) → count p rest + count p out ≡ count p c.events + count p c.batch)
      → Inv (record c { events = rest; batch = []; lost = c.lost ++ out; logged = logged })
  lose-Inv c rest out logged v runs fewer same = record {
    closing = v.closing;
    safe = v.safe;
    queue = omega (arith, v.queue);
    gathered = omega arith;
    waiting = v.waiting;
    busy = v.busy;
    small = v.small;
    stopped = inl runs;
    conserved = λ p. omega (arith, v.conserved p, same p, count-append_all p c.lost out);
  }

  -- An event joins the batch.
  pub gather-Inv :
      (c : Client E) (e : E) (rest : List E)
      → Inv c
      → c.dispatching ≡ true
      → c.events ≡ e ∷ rest
      → length c.batch + 1 < max_batch
      → Inv (record c { events = rest; batch = c.batch ++ e ∷ [] })
  gather-Inv c e rest v runs got fits = record {
    closing = v.closing;
    safe = v.safe;
    queue = ground (arith, v.queue);
    gathered = omega (arith, length-append c.batch (e ∷ []));
    waiting = v.waiting;
    busy = v.busy;
    small = v.small;
    stopped = inl runs;
    conserved = λ p. ground (arith, v.conserved p, count-append p c.batch e);
  }

  pub halt-Inv :
      (c : Client E)
      → Inv c
      → c.events ≡ []
      → c.batch ≡ []
      → c.events_closed ≡ true
      → Inv (record c { dispatching = false })
  halt-Inv c v q b over = record {
    closing = v.closing;
    safe = v.safe;
    queue = v.queue;
    gathered = v.gathered;
    waiting = v.waiting;
    busy = v.busy;
    small = v.small;
    stopped = inr (q, b, ground (arith, v.closing));
    conserved = v.conserved;
  }

  pub flush_cases :
      (c : Client E)
      → ((c.batch ≡ []) × (flush c ≡ c))
        ⊎ ((length c.batches < c.out_cap)
            × (flush c ≡ record c { batch = []; batches = c.batches ++ c.batch ∷ [] }))
        ⊎ (flush c
            ≡ record c { batch = []; lost = c.lost ++ c.batch; logged = log_fallback c c.batch })
  unfolding flush
  flush_cases c = elim (List-cases c.batch) [
    | inl none_left ↦ inl (none_left, ground arith)
    | inr (b, bs, e) ↦ elim (Bool-cases (ltb (length c.batches) c.out_cap)) [
      | inl room ↦ inr (inl (ground arith, ground arith))
      | inr full ↦ inr (inr (ground arith))
    ]
  ]

  pub flush_keeps :
      (c : Client E) → ((flush c).events ≡ c.events) × ((flush c).events_closed ≡ c.events_closed)
  unfolding flush
  flush_keeps c = (ground arith, ground arith)

  pub flush-Inv :
      (c : Client E) → Inv c → c.dispatching ≡ true → Inv (flush c) × ((flush c).batch ≡ [])
  flush-Inv c v on = elim (flush_cases c) [
    | inl (none_left, e) ↦ rw e (v, none_left)
    | inr (inl (room, e)) ↦ rw e (
      emit-Inv c c.events c.batch v on room (omega (arith, v.gathered)) (omega arith) (λ p. refl),
      refl,
    )
    | inr (inr e) ↦ rw e (lose-Inv c c.events c.batch _ v on (omega arith) (λ p. refl), refl)
  ]

  pub tick-Inv : (c : Client E) → Inv c → Inv (tick c)
  unfolding tick
  tick-Inv c v = elim (Bool-cases c.dispatching) [
    | inr off ↦ let same : tick c ≡ c = ground arith in rw same v
    | inl on ↦ let same : tick c ≡ flush c = ground arith in rw same (flush-Inv c v on).0
  ]

  -- The event moves into the batch.
  abbrev pub gathered : Client E → E → List E → Client E
  gathered c e rest = record c { events = rest; batch = c.batch ++ e ∷ [] }

  pub receive_cases :
      (c : Client E)
      → ((receive c ≡ c) × ((c.dispatching ≡ false) ⊎ (c.events_closed ≡ false)))
        ⊎ ((c.dispatching ≡ true)
            × (e : E) × (rest : List E) × (c.events ≡ e ∷ rest)
            × (length c.batch + 1 < max_batch)
            × (receive c ≡ gathered c e rest))
        ⊎ ((c.dispatching ≡ true)
            × (e : E) × (rest : List E) × (c.events ≡ e ∷ rest)
            × (receive c ≡ flush (gathered c e rest)))
        ⊎ ((c.dispatching ≡ true)
            × (c.events ≡ [])
            × (c.events_closed ≡ true)
            × (receive c ≡ record (flush c) { dispatching = false }))
  unfolding receive
  receive_cases c = elim (Bool-cases c.dispatching) [
    | inr off ↦ inl (ground arith, inl off)
    | inl on ↦ elim (List-cases c.events) [
      | inl q ↦ elim (Bool-cases c.events_closed) [
        | inl over ↦ inr (inr (inr (on, q, over, ground arith)))
        | inr live ↦ inl (ground arith, inr live)
      ]
      | inr (e, rest, q) ↦ elim (List-cases c.batch) [
        | inl b ↦ inr (inl (on, e, rest, q, ground arith, ground arith))
        | inr (x, xs, b) ↦ elim (Bool-cases (leb max_batch (length (c.batch ++ e ∷ [])))) [
          | inl full ↦ inr (inr (inl (on, e, rest, q, ground arith)))
          | inr room ↦
              inr
                (inl (on, e, rest, q, ground (arith, length-append c.batch (e ∷ [])), ground arith))
        ]
      ]
    ]
  ]

  full-Inv :
      (c : Client E) (e : E) (rest : List E)
      → Inv c
      → c.dispatching ≡ true
      → c.events ≡ e ∷ rest
      → Inv (flush (gathered c e rest))
  full-Inv c e rest v on q =
      let d = gathered c e rest in
      let grows = length-append c.batch (e ∷ []) in
      let fewer : length rest ≤ length c.events = ground arith in
      let same : (p : E → Bool)
          → count p rest + count p (c.batch ++ e ∷ []) ≡ count p c.events + count p c.batch =
        λ p. ground (arith, count-append p c.batch e) in
      elim (flush_cases d) [
        | inl (none_left, f) ↦ absurd (ground (arith, grows))
        | inr (inl (room, f)) ↦ rw f (
            emit-Inv c rest (c.batch ++ e ∷ []) v on room (omega (arith, v.gathered, grows)) fewer
              same)
        | inr (inr f) ↦ rw f (lose-Inv c rest (c.batch ++ e ∷ []) _ v on fewer same)
      ]

  pub receive-Inv : (c : Client E) → Inv c → Inv (receive c)
  receive-Inv c v = elim (receive_cases c) [
    | inl (e, _) ↦ rw e v
    | inr (inl (on, e, rest, q, room, f)) ↦ rw f (gather-Inv c e rest v on q room)
    | inr (inr (inl (on, e, rest, q, f))) ↦ rw f (full-Inv c e rest v on q)
    | inr (inr (inr (on, q, over, f))) ↦
        let (w, bare) = flush-Inv c v on in
        let kept = flush_keeps c in rw f (halt-Inv (flush c) w (kept.0 ∙ q) bare (kept.1 ∙ over))
  ]

  pub receive_keeps : (c : Client E) → (receive c).events_closed ≡ c.events_closed
  receive_keeps c = elim (receive_cases c) [
    | inl (e, _) ↦ rw e refl
    | inr (inl (on, e, rest, q, room, f)) ↦ rw f refl
    | inr (inr (inl (on, e, rest, q, f))) ↦ rw f (flush_keeps (gathered c e rest)).1
    | inr (inr (inr (on, q, over, f))) ↦ rw f (flush_keeps c).1
  ]
