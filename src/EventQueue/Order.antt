-- ===== src/EventQueue/Order.antt =====
-- The order in which the queue gives out its events.
use sim_kv.Prelude.{
  ℕ, ◌≡◌, ◌≢◌, refl, sym, ap, ◌∙◌, List, [], ◌∷◌, true, false, All, Bool-cases, inl, inr, arith,
}
use sim_kv.OrdMap.{OrdMap, nat_ord, erase}
use sim_kv.OrdMap.Laws.{IsSorted, erase-IsSorted, find-erase_self, find-erase_ne}
use sim_kv.EventQueue.{Event, EventQueue, has, goes_first, insert_event, push, take_event}

has-erase_self : (id : ℕ) (ids : OrdMap ℕ (Unit {0})) → IsSorted ids → has id (erase id ids) ≡ false
has-erase_self id ids s = rw (has, find-erase_self id ids s) refl

has-erase_ne :
    (seq id : ℕ) (ids : OrdMap ℕ (Unit {0}))
    → id ≢ seq
    → IsSorted ids
    → has id (erase seq ids) ≡ has id ids
has-erase_ne seq id ids n s = rw (has, find-erase_ne seq id ids n s) refl

module _ {ℓ} {A : Type ℓ} where
  -- No event stands behind one that goes after it.
  abbrev pub IsOrdered : List (Event A) → Type 0
  IsOrdered [] = Unit
  IsOrdered (e ∷ es) = All (λ f. goes_first e f ≡ true) es × IsOrdered es

  -- The heap is in order, and its events are not flagged.
  pub record IsValid (q : EventQueue A) : Type 0 where
    pub ordered : IsOrdered q.heap
    pub unflagged : All (λ e. e.cancelled ≡ false) q.heap
    pub sorted : IsSorted q.cancelled

  goes_first_trans :
      (d e f : Event A) → goes_first d e ≡ true → goes_first e f ≡ true → goes_first d f ≡ true
  goes_first_trans d e f h k = ground arith

  goes_first_total : (e f : Event A) → goes_first e f ≡ false → goes_first f e ≡ true
  goes_first_total e f h = ground arith

  goes_first-All :
      (d e : Event A) (es : List (Event A))
      → goes_first d e ≡ true
      → All (λ f. goes_first e f ≡ true) es
      → All (λ f. goes_first d f ≡ true) es
  goes_first-All d e [] h k = tt
  goes_first-All d e (f ∷ es) h k = (goes_first_trans d e f h k.0, goes_first-All d e es h k.1)

  pub insert_event-All {κ} :
      (P : Event A → Type κ) (e : Event A) (es : List (Event A))
      → P e
      → All P es
      → All P (insert_event e es)
  unfolding insert_event
  insert_event-All P e [] p h = (p, tt)
  insert_event-All P e (f ∷ es) p h = elim (Bool-cases (goes_first e f)) [
    | inl first ↦ rw first (p, h)
    | inr after ↦ rw after (h.0, insert_event-All P e es p h.1)
  ]

  insert_event-IsOrdered :
      (e : Event A) (es : List (Event A)) → IsOrdered es → IsOrdered (insert_event e es)
  unfolding insert_event
  insert_event-IsOrdered e [] h = (tt, tt)
  insert_event-IsOrdered e (f ∷ es) h = elim (Bool-cases (goes_first e f)) [
    | inl first ↦ rw first ((first, goes_first-All e f es first h.0), h)
    | inr after ↦
        rw after (
          insert_event-All _ e es (goes_first_total e f after) h.0,
          insert_event-IsOrdered e es h.1,
        )
  ]

  -- A push keeps the queue valid, whatever the time and the number of the event, and gives back its
  -- number as the id.
  pub push-IsValid :
      (time seq : ℕ) (action : A) (q : EventQueue A)
      → IsValid q
      → IsValid (push time seq action q).0 × ((push time seq action q).1 ≡ seq)
  unfolding push
  push-IsValid time seq action q v =
      let e : Event A = record { time = time; seq = seq; action = action; cancelled = false } in
      (
        record {
          ordered = insert_event-IsOrdered e q.heap v.ordered;
          unflagged = insert_event-All _ e q.heap refl v.unflagged;
          sorted = v.sorted;
        },
        refl,
      )

  -- What a pop gives out and leaves: the event is one of the queue's, up to its flag, and the others
  -- stay; its id is forgotten, and the other ids stay.
  pub record IsPopped (q : EventQueue A) (e : Event A) (q' : EventQueue A) : Type ℓ where
    pub valid : IsValid q'
    pub first : All (λ f. goes_first e f ≡ true) q'.heap
    pub flag : e.cancelled ≡ has e.seq q.cancelled
    pub taken : q.heap ≡ record e { cancelled = false } ∷ q'.heap
    pub forgotten : has e.seq q'.cancelled ≡ false
    pub others : (id : ℕ) → id ≢ e.seq → has id q'.cancelled ≡ has id q.cancelled

  pub take_event-IsPopped :
      (e : Event A) (es : List (Event A)) (ids : OrdMap ℕ (Unit {0}))
      → IsValid (record { heap = e ∷ es; cancelled = ids })
      → IsPopped
          (record { heap = e ∷ es; cancelled = ids })
          (take_event e es ids).0
          (take_event e es ids).1
  unfolding take_event
  take_event-IsPopped e es ids v = elim (Bool-cases (has e.seq ids)) [
    | inl dropped ↦
        rw (dropped, take_event)
          (record {
            valid = record {
              ordered = v.ordered.1;
              unflagged = v.unflagged.1;
              sorted = erase-IsSorted e.seq ids v.sorted;
            };
            first = v.ordered.0;
            flag = sym dropped;
            taken = ap (λ b. record e { cancelled = b } ∷ es) v.unflagged.0;
            forgotten = has-erase_self e.seq ids v.sorted;
            others = λ id n. has-erase_ne e.seq id ids n v.sorted;
          })
    | inr live ↦
        rw (live, take_event)
          (record {
            valid = record { ordered = v.ordered.1; unflagged = v.unflagged.1; sorted = v.sorted };
            first = v.ordered.0;
            flag = v.unflagged.0 ∙ sym live;
            taken = ap (λ b. record e { cancelled = b } ∷ es) v.unflagged.0;
            forgotten = live;
            others = λ id n. refl;
          })
  ]
