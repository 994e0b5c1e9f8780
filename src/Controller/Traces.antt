-- ===== src/Controller/Traces.antt =====
-- What a handler may do, as a predicate on the calls it makes and on how it ends, and the rules
-- that follow the shape of a handler.
use spicedb_operator.Base.{In, Option, String, at_head, at_tail, inl, inr, none, some, ◌∷◌, ◌⊎◌}
use spicedb_operator.Controller.Types.{
  Call, Context, HandlerKey, Outcome, hand_on, done, requeue, requeue_after, requeue_err,
  requeue_api_err, Trace, Run, Server, perform, perform_or, finish, record_event, event,
}

-- The calls that a run adds to those of `t` satisfy `P`, and its outcome satisfies `Q`.
pub record Meets (P : Call → Type 0) (Q : Outcome → Type 0) (t : Trace) (r : Run) : Type 0 where
  pub adds : (c : Call) → In c r.trace → In c t ⊎ P c
  pub ends : Q r.outcome

module _ {P : Call → Type 0} {Q : Outcome → Type 0} where
  pub finish-Meets : (o : Outcome) (t : Trace) → Q o → Meets P Q t (finish o t)
  finish-Meets o t q = record { adds = λ _ m. inl m; ends = q }

  -- One more call, of which `P` holds.
  pub Meets-later : (c : Call) (t : Trace) (r : Run) → P c → Meets P Q (c ∷ t) r → Meets P Q t r
  Meets-later c t r p h = record { adds = λ d m. place d (h.adds d m); ends = h.ends }
    where
      place : (d : Call) → In d (c ∷ t) ⊎ P d → In d t ⊎ P d
      place d (inl (at_head e)) = inr (rw e p)
      place d (inl (at_tail m)) = inl m
      place d (inr q) = inr q

  pub perform_or-Meets :
      (server : Server) (c : Call) (failed : String → Trace → Run) (rest : Trace → Run) (t : Trace)
      → P c
      → ((e : String) (u : Trace) → Meets P Q u (failed e u))
      → ((u : Trace) → Meets P Q u (rest u))
      → Meets P Q t (perform_or server c failed rest t)
  perform_or-Meets server c failed rest t p f k = split (server t c)
    where
      split :
          (answer : Option String)
          → Meets P Q t (elim answer [ none ↦ rest (c ∷ t) | some e ↦ failed e (c ∷ t) ])
      split none = Meets-later c t (rest (c ∷ t)) p (k (c ∷ t))
      split (some e) = Meets-later c t (failed e (c ∷ t)) p (f e (c ∷ t))

  pub perform-Meets :
      (server : Server) (c : Call) (failed : String → Outcome) (rest : Trace → Run) (t : Trace)
      → P c
      → ((e : String) → Q (failed e))
      → ((u : Trace) → Meets P Q u (rest u))
      → Meets P Q t (perform server c failed rest t)
  perform-Meets server c failed rest t p f k =
      perform_or-Meets server c (λ e. finish (failed e)) rest t p
        (λ e u. finish-Meets (failed e) u (f e)) k

  pub record_event-Meets :
      (reason : String) (rest : Trace → Run) (t : Trace)
      → P (event reason)
      → ((u : Trace) → Meets P Q u (rest u))
      → Meets P Q t (record_event reason rest t)
  record_event-Meets reason rest t p k =
      Meets-later (event reason) t (rest (event reason ∷ t)) p (k (event reason ∷ t))

-- `handler.Handle(ctx)` of the handlers that a table names: what runs after a handler.
unfoldable pub follow : (HandlerKey → Context → Trace → Run) → Run → Run
follow table r = elim r.outcome [
  | hand_on k c ↦ table k c r.trace
  | done ↦ r
  | requeue ↦ r
  | requeue_after n ↦ r
  | requeue_err e ↦ r
  | requeue_api_err e ↦ r
]

-- The outcome is an operation of the queue.
unfoldable pub IsFinal : Outcome → Type 0
IsFinal (hand_on k c) = ⊥
IsFinal done = Unit
IsFinal requeue = Unit
IsFinal (requeue_after n) = Unit
IsFinal (requeue_err e) = Unit
IsFinal (requeue_api_err e) = Unit

module _ {P P' : Call → Type 0} {Q Q' : Outcome → Type 0} (calls : (c : Call) → P c → P' c) where
  pub weaken-Meets :
      ((o : Outcome) → Q o → Q' o) → (t : Trace) (r : Run) → Meets P Q t r → Meets P' Q' t r
  weaken-Meets ends t r h = record {
    adds = λ c m. weaken c (h.adds c m);
    ends = ends r.outcome h.ends;
  }
    where
      weaken : (c : Call) → In c t ⊎ P c → In c t ⊎ P' c
      weaken c (inl m) = inl m
      weaken c (inr p) = inr (calls c p)

  -- A handler and those that follow it.
  pub follow-Meets :
      (table : HandlerKey → Context → Trace → Run) (t : Trace) (r : Run)
      → Meets P Q t r
      → ((o : Outcome) → IsFinal o → Q o → Q' o)
      → ((k : HandlerKey) (c : Context)
          → Q (hand_on k c)
          → (u : Trace) → Meets P' Q' u (table k c u))
      → Meets P' Q' t (follow table r)
  unfolding follow IsFinal
  follow-Meets table t r h final next = go r.trace r.outcome h.adds h.ends
    where
      Adds : Trace → Type 0
      Adds u = (c : Call) → In c u → In c t ⊎ P c

      keep :
          (u : Trace) (o : Outcome)
          → Adds u
          → Q' o
          → Meets P' Q' t (record { trace = u; outcome = o })
      keep u o a q = record { adds = λ c m. weaken c (a c m); ends = q }
        where
          weaken : (c : Call) → In c t ⊎ P c → In c t ⊎ P' c
          weaken c (inl m) = inl m
          weaken c (inr p) = inr (calls c p)

      go :
          (u : Trace) (o : Outcome)
          → Adds u
          → Q o
          → Meets P' Q' t (follow table (record { trace = u; outcome = o }))
      go u (hand_on k c) a q =
          let n = next k c q u in record { adds = λ d m. join d (n.adds d m); ends = n.ends }
        where
          join : (d : Call) → In d u ⊎ P' d → In d t ⊎ P' d
          join d (inl m) = weaken (a d m)
            where
              weaken : In d t ⊎ P d → In d t ⊎ P' d
              weaken (inl i) = inl i
              weaken (inr p) = inr (calls d p)
          join d (inr p) = inr p
      go u done a q = keep u done a (final done tt q)
      go u requeue a q = keep u requeue a (final requeue tt q)
      go u (requeue_after n) a q = keep u (requeue_after n) a (final (requeue_after n) tt q)
      go u (requeue_err e) a q = keep u (requeue_err e) a (final (requeue_err e) tt q)
      go u (requeue_api_err e) a q = keep u (requeue_api_err e) a (final (requeue_api_err e) tt q)
