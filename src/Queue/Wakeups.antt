-- ===== src/Queue/Wakeups.antt =====
-- Threads on one queue: no wake-up is lost, and the items keep their order and their bound.
use platform_system_libhidl.Queue
use platform_system_libhidl.Queue.{SynchronizedQueue}
use platform_system_libhidl.Queue.Threads.{
  Phase, outside, notifying, sleeping, woken, System, init, push_section, pop_section, notify,
  notify_nobody, wake, asleep, busy, At, Inside, retries, notifies, notifies_nobody, Step, inside,
  pushes, pops, wakes, Reach, start, later,
}
use platform_system_libhidl.Queue.Counts.{total-notify, total-find, total-outside, busy_cases}
use platform_system_libhidl.Prelude.{
  ltb, Bool-cases, length, get_elem?, set, length-append, total, total-set, total-get_elem?, ℕ,
  refl, sym, ap, inl, inr, some, List, [], append_assoc, arith, ◌≤◌, ◌<◌, ◌≡◌, ◌∙◌, ◌⊎◌, ◌∷◌, ◌++◌,
}

module _ {ℓ} {T : Type ℓ} where
  -- The invariant. While a thread is blocked, each waiting item has a thread that is on its way to
  -- notify or to take it.
  pub record Inv (limit : ℕ) (s : System T) : Type ℓ where
    pub noticed : (total asleep s.threads ≡ 0) ⊎ (length s.queue.items ≤ total busy s.threads)
    pub ordered : s.taken ++ s.queue.items ≡ s.accepted
    pub kept : s.queue.limit ≡ limit
    pub bounded : length s.queue.items ≤ limit

  Inv-push :
      (limit : ℕ) (s : System T) (i : ℕ) (item : T)
      → At s i outside
      → Inv limit s
      → Inv limit (push_section i item s)
  unfolding push_section Queue.push
  Inv-push limit s i item e inv = record {
    noticed = ground (
      arith,
      inv.noticed,
      total-set asleep s.threads i outside notifying e,
      total-set busy s.threads i outside notifying e,
      length-append s.queue.items (item ∷ []),
    );
    ordered = elim (Bool-cases (ltb (length s.queue.items) s.queue.limit)) [
      | inl room ↦ rw room (
          sym (append_assoc s.taken s.queue.items (item ∷ []))
          ∙ ap (λ xs. xs ++ item ∷ []) inv.ordered)
      | inr full ↦ rw full inv.ordered
    ];
    kept = ground (arith, inv.kept);
    bounded = ground (arith, inv.bounded, inv.kept, length-append s.queue.items (item ∷ []));
  }

  abbrev system : List T → ℕ → List Phase → (accepted taken : List T) → System T
  system items limit threads accepted taken = record {
    queue = record { items = items; limit = limit };
    threads = threads;
    accepted = accepted;
    taken = taken;
  }

  Inv-pop_system :
      (limit : ℕ) (items : List T) (n : ℕ) (ps : List Phase) (accepted taken : List T) (i : ℕ)
      (p : Phase)
      → get_elem? ps i ≡ some p
      → busy p ≤ 1
      → asleep p ≡ 0
      → Inv limit (system items n ps accepted taken)
      → Inv limit (pop_section i (system items n ps accepted taken))
  unfolding pop_section
  Inv-pop_system limit [] n ps accepted taken i p e b a inv = record {
    noticed = inr (omega arith);
    ordered = inv.ordered;
    kept = inv.kept;
    bounded = inv.bounded;
  }
  Inv-pop_system limit (x ∷ items) n ps accepted taken i p e b a inv = record {
    noticed =
        ground
          (arith, inv.noticed, total-set asleep ps i p outside e, total-set busy ps i p outside e);
    ordered = append_assoc taken (x ∷ []) items ∙ inv.ordered;
    kept = inv.kept;
    bounded = omega (arith, inv.bounded);
  }

  Inv-pop :
      (limit : ℕ) (s : System T) (i : ℕ) (p : Phase)
      → At s i p
      → busy p ≤ 1
      → asleep p ≡ 0
      → Inv limit s
      → Inv limit (pop_section i s)
  Inv-pop limit s i p e b a inv =
      Inv-pop_system limit s.queue.items s.queue.limit s.threads s.accepted s.taken i p e b a inv

  -- A step that changes phases only.
  Inv-threads :
      (limit : ℕ) (s : System T) (ps : List Phase)
      → ((total asleep ps ≡ 0) ⊎ (length s.queue.items ≤ total busy ps))
      → Inv limit s
      → Inv limit (record s { threads = ps })
  Inv-threads limit s ps noticed inv = record {
    noticed = noticed;
    ordered = inv.ordered;
    kept = inv.kept;
    bounded = inv.bounded;
  }

  Inside-Inv : {limit : ℕ} {s t : System T} → Inside s t → Inv limit s → Inv limit t
  Inside-Inv {limit} {s} (retries i e) inv = Inv-pop limit s i woken e (omega arith) refl inv
  Inside-Inv {limit} {s} (notifies i j e f) inv =
      unfold notify in
      Inv-threads limit s (set (set s.threads i outside) j woken)
        (ground (
          arith,
          inv.noticed,
          total-notify asleep s.threads i j e f,
          total-notify busy s.threads i j e f,
        ))
        inv
  Inside-Inv {limit} {s} (notifies_nobody i e none_asleep) inv =
      unfold notify_nobody in
      Inv-threads limit s (set s.threads i outside)
        (inl (omega (arith, total-set asleep s.threads i notifying outside e, none_asleep))) inv

  pub Step-Inv : {limit : ℕ} {s t : System T} → Step s t → Inv limit s → Inv limit t
  Step-Inv (inside st) inv = Inside-Inv st inv
  Step-Inv {limit} {s} (pushes i item e) inv = Inv-push limit s i item e inv
  Step-Inv {limit} {s} (pops i e) inv = Inv-pop limit s i outside e (omega arith) refl inv
  Step-Inv {limit} {s} (wakes i e) inv =
      unfold wake in
      Inv-threads limit s (set s.threads i woken)
        (ground (
          arith,
          inv.noticed,
          total-set asleep s.threads i sleeping woken e,
          total-set busy s.threads i sleeping woken e,
        ))
        inv

  Inv-init : (k limit : ℕ) → Inv limit (init k limit)
  unfolding Queue.make_queue
  Inv-init k limit = record {
    noticed = inl (total-outside asleep k refl);
    ordered = refl;
    kept = refl;
    bounded = omega arith;
  }

  pub Reach-Inv : {k limit : ℕ} {s : System T} → Reach k limit s → Inv limit s
  Reach-Inv {k} {limit} start = Inv-init k limit
  Reach-Inv (later r st) = Step-Inv st (Reach-Inv r)

  -- In every reachable state of any number of threads: if a thread is blocked while an item waits,
  -- another one is about to notify or has been woken, so no wake-up is lost.
  pub no_wakeup_lost :
      {k limit : ℕ} (s : System T) (i : ℕ)
      → Reach k limit s
      → At s i sleeping
      → 0 < length s.queue.items
      → (j : ℕ) × (At s j notifying ⊎ At s j woken)
  no_wakeup_lost s i r e waits =
      let inv = Reach-Inv r in
      let blocked = total-get_elem? asleep s.threads i sleeping e in
      let (j, p, f, h) = total-find busy s.threads (ground (arith, inv.noticed)) in
      (j, elim (busy_cases p h) [ inl q ↦ inl (f ∙ ap some q) | inr q ↦ inr (f ∙ ap some q) ])

  -- In every reachable state of any number of threads, the items that were taken, followed by those
  -- that wait, are the accepted ones in the order of their acceptance, and no more items wait than
  -- the limit.
  pub accepted_lem :
      {k limit : ℕ} (s : System T)
      → Reach k limit s
      → (s.taken ++ s.queue.items ≡ s.accepted) × (length s.queue.items ≤ limit)
  accepted_lem s r = let inv = Reach-Inv r in (inv.ordered, inv.bounded)
