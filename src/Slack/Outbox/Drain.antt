-- ===== src/Slack/Outbox/Drain.antt =====
-- The drain ends, counts what it sent, and leaves nothing behind unless the port failed.
use fund.Base.{
  ℕ, ◌⊎◌, ◌≡◌, refl, ◌==◌, Bool, true, false, ◌&&◌, ◌||◌, none, some, List, [], ◌∷◌, any, select,
  All, All-append, All-imp, length, length-append, update_where, arith, if◌then◌else◌, is_empty,
  Bool-cases, inl, inr, Option, suc, select-is_empty,
}
use fund.State.Rows.{Time, Db, Event, Body}
use fund.Slack.Outbox.{
  is_unposted, is_projection_error, dead_letter, Delivery, posted, permanent, transient, Pass,
  deliver, drain_row, drain_rows, drain_loop, drain, first_pass,
}

-- An unposted event that neither stands in `rows` nor, where `allow` says so, is a projection error.
abbrev IsCovered : Bool → List Event → Event → Type 0
IsCovered allow rows e =
    is_unposted e ≡ true
    → (any (λ (r : Event). e.id == r.id) rows || (allow && is_projection_error e.body)) ≡ true

-- A row whose dead letter leaves nothing that is not covered.
abbrev IsReady : Bool → Event → Type 0
IsReady allow r = (allow || is_projection_error r.body) ≡ true

mark-IsCovered :
    (allow : Bool) (now : Time) (r : Event) (rows es : List Event)
    → All (IsCovered allow (r ∷ rows)) es
    → All
        (IsCovered allow rows)
        (update_where (λ (e : Event). e.id == r.id) (λ e. record e { posted_at = some now }) es)
mark-IsCovered allow now r rows [] h = tt
mark-IsCovered allow now r rows (e ∷ es) h = ground (arith, mark-IsCovered allow now r rows es h.1)

dead_letter-IsCovered :
    (allow : Bool) (now : Time) (r : Event) (rows : List Event) (db : Db)
    → IsReady allow r
    → All (IsCovered allow (r ∷ rows)) db.events
    → All (IsCovered allow rows) (dead_letter r now db).events
unfolding dead_letter
dead_letter-IsCovered allow now r rows db ready h = elim (Bool-cases (is_projection_error r.body)) [
  | inl e ↦ rw e (mark-IsCovered allow now r rows db.events h)
  | inr e ↦
      rw e (All-append _ _ _ (mark-IsCovered allow now r rows db.events h) (λ _. ground arith, tt))
]

any-cons :
    (t r : Event) (rows : List Event) (b : Bool) (rest : Bool)
    → (any (λ (r : Event). t.id == r.id) rows || rest) ≡ true
    → (any (λ (r : Event). t.id == r.id) (if b then r ∷ rows else rows) || rest) ≡ true
any-cons t r rows true rest h = ground arith
any-cons t r rows false rest h = h

snapshot-IsCovered :
    (allow : Bool) (es : List Event) → All (IsCovered allow (select is_unposted es)) es
snapshot-IsCovered allow [] = tt
snapshot-IsCovered allow (e ∷ es) = (
  λ fresh. rw fresh (ground arith),
  All-imp _ _ es (λ u h fresh. any-cons u e _ (is_unposted e) _ (h fresh))
      (snapshot-IsCovered allow es),
)

All-IsReady : (es : List Event) → All (IsReady true) es
All-IsReady [] = tt
All-IsReady (e ∷ es) = (refl, All-IsReady es)

IsReady-of_covered :
    (es : List Event) → All (IsCovered true []) es → All (IsReady false) (select is_unposted es)
IsReady-of_covered [] h = tt
IsReady-of_covered (e ∷ es) h = elim (Bool-cases (is_unposted e)) [
  | inl fresh ↦ rw fresh (h.0 fresh, IsReady-of_covered es h.1)
  | inr old ↦ rw old (IsReady-of_covered es h.1)
]

nothing_left :
    (es : List Event) → All (IsCovered false []) es → is_empty (select is_unposted es) ≡ true
nothing_left [] h = refl
nothing_left (e ∷ es) h = elim (Bool-cases (is_unposted e)) [
  | inl fresh ↦ cc (h.0 fresh)
  | inr old ↦ rw old (nothing_left es h.1)
]

module _ {W : Type 0} (renders : Body → Bool) (post : Event → W → Delivery × W) where
  deliver-IsCovered :
      (allow : Bool) (now : Time) (r : Event) (rows : List Event) (p : Pass W) (d : Delivery × W)
      → IsReady allow r
      → All (IsCovered allow (r ∷ rows)) p.db.events
      → (deliver renders post r now d p).stopped ≡ false
      → All (IsCovered allow rows) (deliver renders post r now d p).db.events
  unfolding deliver
  deliver-IsCovered allow now r rows p (posted, w) ready h go =
      mark-IsCovered allow now r rows p.db.events h
  deliver-IsCovered allow now r rows p (permanent, w) ready h go =
      dead_letter-IsCovered allow now r rows p.db ready h
  deliver-IsCovered allow now r rows p (transient, w) ready h go = cc

  drain_row-IsCovered :
      (allow : Bool) (now : Time) (r : Event) (rows : List Event) (p : Pass W)
      → IsReady allow r
      → All (IsCovered allow (r ∷ rows)) p.db.events
      → (drain_row renders post r now p).stopped ≡ false
      → All (IsCovered allow rows) (drain_row renders post r now p).db.events
  unfolding drain_row
  drain_row-IsCovered allow now r rows p ready h go = elim (Bool-cases (renders r.body)) [
    | inr no_render ↦ rw no_render (dead_letter-IsCovered allow now r rows p.db ready h)
    | inl rendered ↦
        rw rendered
          (deliver-IsCovered allow now r rows p (post r p.port) ready h (rw rendered at go))
  ]

  drain_rows-IsCovered :
      (allow : Bool) (now : Time) (rows : List Event) (p : Pass W)
      → All (IsReady allow) rows
      → All (IsCovered allow rows) p.db.events
      → p.stopped ≡ false
      → (drain_rows renders post rows now p).stopped ≡ false
      → All (IsCovered allow []) (drain_rows renders post rows now p).db.events
  unfolding drain_rows
  drain_rows-IsCovered allow now [] p ready h start go = h
  drain_rows-IsCovered allow now (r ∷ rows) p ready h start go =
      elim (Bool-cases (drain_row renders post r now p).stopped) [
        | inl halted ↦ cc (rw halted at go)
        | inr on ↦ rw on (
            drain_rows-IsCovered allow now rows (drain_row renders post r now p) ready.1
              (drain_row-IsCovered allow now r rows p ready.0 h on) on (rw on at go))
      ]

  drain_row-counted :
      (now : Time) (r : Event) (p : Pass W)
      → p.count ≡ length p.sent
      → (drain_row renders post r now p).count ≡ length (drain_row renders post r now p).sent
  unfolding drain_row
  drain_row-counted now r p h = ground (arith, length-append p.sent (r ∷ []))

  drain_rows-counted :
      (now : Time) (rows : List Event) (p : Pass W)
      → p.count ≡ length p.sent
      → (drain_rows renders post rows now p).count
        ≡ length (drain_rows renders post rows now p).sent
  unfolding drain_rows
  drain_rows-counted now [] p h = h
  drain_rows-counted now (r ∷ rows) p h =
      let c = drain_row-counted now r p h in
      elim (Bool-cases (drain_row renders post r now p).stopped) [
        | inl halted ↦ rw halted c
        | inr on ↦ rw on (drain_rows-counted now rows (drain_row renders post r now p) c)
      ]

  -- The port's last answer was a failure for now.
  abbrev pub Failing : Pass W → Type 0
  Failing p = (e : Event) × (w : W) × (post e w ≡ (transient, p.port))

  deliver-Failing :
      (r : Event) (now : Time) (d : Delivery × W) (p : Pass W) (w : W)
      → post r w ≡ d
      → p.stopped ≡ false
      → (deliver renders post r now d p).stopped ≡ true
      → Failing (deliver renders post r now d p)
  unfolding deliver
  deliver-Failing r now (posted, v) p w answered start halted = cc
  deliver-Failing r now (permanent, v) p w answered start halted = cc
  deliver-Failing r now (transient, v) p w answered start halted = (r, w, answered)

  drain_row-Failing :
      (r : Event) (now : Time) (p : Pass W)
      → p.stopped ≡ false
      → (drain_row renders post r now p).stopped ≡ true
      → Failing (drain_row renders post r now p)
  unfolding drain_row
  drain_row-Failing r now p start halted = elim (Bool-cases (renders r.body)) [
    | inr no_render ↦ cc (rw no_render at halted)
    | inl rendered ↦
        rw rendered
          (deliver-Failing r now (post r p.port) p p.port refl start (rw rendered at halted))
  ]

  drain_rows-Failing :
      (now : Time) (rows : List Event) (p : Pass W)
      → p.stopped ≡ false
      → (drain_rows renders post rows now p).stopped ≡ true
      → Failing (drain_rows renders post rows now p)
  unfolding drain_rows
  drain_rows-Failing now [] p start halted = cc
  drain_rows-Failing now (r ∷ rows) p start halted =
      elim (Bool-cases (drain_row renders post r now p).stopped) [
        | inl here ↦ rw here (drain_row-Failing r now p start here)
        | inr on ↦
            rw on
              (drain_rows-Failing now rows (drain_row renders post r now p) on (rw on at halted))
      ]

  -- How a drain ends: with a result that counts what was sent, and with every event posted unless the
  -- port's last answer was a failure for now.
  abbrev pub Finished : Option (Pass W) → Type 0
  Finished none = ⊥
  Finished (some p) =
      (p.count ≡ length p.sent) × (Failing p ⊎ All (λ e. is_unposted e ≡ false) p.db.events)

  abbrev pass : Time → Pass W → Pass W
  pass now p = drain_rows renders post (select is_unposted p.db.events) now p

  pass-counted :
      (now : Time) (p : Pass W)
      → p.count ≡ length p.sent
      → (pass now p).count ≡ length (pass now p).sent
  pass-counted now p h = drain_rows-counted now _ p h

  loop-Finished :
      (fuel : ℕ) (now : Time) (p : Pass W)
      → p.stopped ≡ false
      → p.count ≡ length p.sent
      → (is_empty (select is_unposted p.db.events) ≡ false
          → (pass now p).stopped ≡ false
          → Finished (drain_loop renders post fuel now (pass now p)))
      → Finished (drain_loop renders post (suc fuel) now p)
  unfolding drain_loop
  loop-Finished fuel now p start counted next =
      elim (Bool-cases (is_empty (select is_unposted p.db.events))) [
        | inl none_left ↦
            rw none_left (counted, inr (select-is_empty is_unposted p.db.events none_left))
        | inr some_left ↦ elim (Bool-cases (pass now p).stopped) [
          | inl halted ↦
              rw (some_left, halted)
                (pass-counted now p counted, inl (drain_rows-Failing now _ p start halted))
          | inr on ↦ rw (some_left, on) (next some_left on)
        ]
      ]

  -- A pass that runs to its end over the unposted rows covers what it leaves.
  pass-IsCovered :
      (allow : Bool) (now : Time) (p : Pass W)
      → All (IsReady allow) (select is_unposted p.db.events)
      → p.stopped ≡ false
      → (pass now p).stopped ≡ false
      → All (IsCovered allow []) (pass now p).db.events
  pass-IsCovered allow now p ready start go =
      drain_rows-IsCovered allow now _ p ready (snapshot-IsCovered allow p.db.events) start go

  drain_loop-Finished :
      (now : Time) (p : Pass W)
      → p.stopped ≡ false
      → p.count ≡ length p.sent
      → Finished (drain_loop renders post 3 now p)
  drain_loop-Finished now p start counted =
      let c1 = pass-counted now p counted in
      let c2 = pass-counted now (pass now p) c1 in
      loop-Finished 2 now p start counted λ _ on1. loop-Finished 1 now (pass now p) on1 c1 λ _ on2.
        loop-Finished 0 now (pass now (pass now p)) on2 c2 λ more on3. cc (
          nothing_left (pass now (pass now p)).db.events (
              pass-IsCovered false now (pass now p)
                (IsReady-of_covered (pass now p).db.events
                  (pass-IsCovered true now p (All-IsReady _) start on1))
                on1 on2),
          more,
        )

  -- A drain always ends, its count is the number of events that the port accepted during it, and
  -- unless the port's last answer was a failure for now it leaves no event unposted: neither those that it found nor the
  -- projection errors that it wrote itself.
  pub drain-Finished : (now : Time) (db : Db) (w : W) → Finished (drain renders post now db w)
  unfolding drain
  drain-Finished now db w = drain_loop-Finished now (first_pass db w) refl refl
