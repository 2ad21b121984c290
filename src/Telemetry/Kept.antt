-- ===== src/Telemetry/Kept.antt =====
-- The history of the queue of uis/backoffice/services/telemetry-service.ts: the batches that left it
-- and then what is queued, and what it is for later states to keep it.
use miguel_n_ai_trackflow_pr.Common.{
  Bool, List, Option, [], ap, append-nil, append_assoc, arith, none, some, subst, sym, ◌++◌, ◌∙◌,
  ◌∷◌, ◌≡◌, ◌≤◌,
}
use miguel_n_ai_trackflow_pr.Telemetry.Defs.{Event, Ids, Options, Service}
use miguel_n_ai_trackflow_pr.Telemetry.Growth.{Fresh, Fresh-append, Grows}

module _ {E : Type 0} where
  -- The events of the batches that have left the queue, in order.
  abbrev pub departed : List (Bool × List E) → List E
  departed [] = []
  departed ((taken, batch) ∷ log) = batch ++ departed log

  pub departed-concat :
      (log : List (Bool × List E)) (d : Bool) (b : List E)
      → departed (log ++ (d, b) ∷ []) ≡ departed log ++ b
  departed-concat [] d b = append-nil b
  departed-concat ((e, c) ∷ log) d b =
      ap (λ xs. c ++ xs) (departed-concat log d b) ∙ sym (append_assoc c (departed log) b)

  -- The awaited batch still stands at the front of the queue.
  abbrev pub AtFront : Option (List E) → List E → Type 0
  AtFront none q = Unit
  AtFront (some b) q = (rest : List E) × (q ≡ b ++ rest)

  pub AtFront-append : (f : Option (List E)) (q xs : List E) → AtFront f q → AtFront f (q ++ xs)
  AtFront-append none q xs h = tt
  AtFront-append (some b) q xs (rest, e) =
      (rest ++ xs, ap (λ ys. ys ++ xs) e ∙ append_assoc b rest xs)

module _ {N : Type 0} where
  -- Every event that was ever queued, in the order in which it was.
  abbrev pub history : Service N → List (Event N)
  history s = departed s.log ++ s.queue

module _ {N : Type 0} (o : Options N) where
  -- The awaited batch is still in front, and the history of `t` is that of `s` with new events after
  -- it: each bears an id that was drawn since, a later draw than the one before it.
  pub record Keeps (s t : Service N) : Type 0 where
    pub front : AtFront t.flight t.queue
    pub added : List (Event N)
    pub extends : history t ≡ history s ++ added
    pub fresh : Fresh o s.ids.drawn t.ids.drawn added

  pub Keeps-drawn :
      {s t : Service N}
      → AtFront t.flight t.queue
      → history t ≡ history s
      → s.ids.drawn ≤ t.ids.drawn
      → Keeps s t
  Keeps-drawn {s} f e d = record {
    front = f;
    added = [];
    extends = e ∙ sym (append-nil (history s));
    fresh = d;
  }

  pub Keeps-here :
      {s t : Service N}
      → AtFront t.flight t.queue
      → history t ≡ history s
      → t.ids ≡ s.ids
      → Keeps s t
  Keeps-here {s} {t} f e same =
      Keeps-drawn f e (subst (λ (ids : Ids). s.ids.drawn ≤ ids.drawn) (sym same) (omega arith))

  pub Keeps-trans : {s t u : Service N} → Keeps s t → Keeps t u → Keeps s u
  Keeps-trans {s} {t} {u} k l = record {
    front = l.front;
    added = k.added ++ l.added;
    extends =
        l.extends ∙ ap (λ xs. xs ++ l.added) k.extends ∙ append_assoc (history s) k.added l.added;
    fresh = Fresh-append o s.ids.drawn t.ids.drawn u.ids.drawn k.added l.added k.fresh l.fresh;
  }

  pub Keeps-Grows : {s t : Service N} → AtFront s.flight s.queue → Grows o s t → Keeps s t
  Keeps-Grows {s} {t} f g = record {
    front = rw (g.flight, g.queue) (AtFront-append s.flight s.queue g.added f);
    added = g.added;
    extends = rw (g.log, g.queue) (sym (append_assoc (departed s.log) s.queue g.added));
    fresh = g.fresh;
  }
