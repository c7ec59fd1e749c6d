-- ===== src/FastServer/Worker/Batches.antt =====
-- The order and the number of the services that `worker` starts.
use wander.Base.{
  ℕ, ◌≤◌, ◌<◌, ◌≡◌, refl, ◌∙◌, sym, ap, Bool, List, [], ◌∷◌, ◌++◌, length, arith, append_assoc,
  append-nil, length-append, sum, sum-append, Bool-cases, inl, inr,
}
use wander.FastServer.Worker.{
  Accept, connection, timeout, failure, Turn, Worker, is_onload, flush, add_batch, after_accept,
  worker, with_accept, accepted_conns,
}

module _ (batch_accept_len : ℕ) where
  -- What is started is what `acceptedCh` is told of.
  abbrev pub IsTold : Worker → Type 0
  IsTold w = sum w.accepted_ch ≡ length w.started

  abbrev pub HasBatch : Worker → Type 0
  HasBatch w = length w.conn_batch ≤ batch_accept_len

  flush-IsTold : (ticked : Bool) (w : Worker) → IsTold w → IsTold (flush batch_accept_len ticked w)
  unfolding flush
  flush-IsTold ticked w h = elim (Bool-cases (is_onload batch_accept_len ticked w)) [
    | inl on ↦ rw on (
        omega (
          arith,
          h,
          sum-append w.accepted_ch (length w.conn_batch ∷ []),
          length-append w.started w.conn_batch,
        ))
    | inr off ↦ rw off h
  ]

  flush-HasBatch :
      (ticked : Bool) (w : Worker)
      → 0 < batch_accept_len
      → HasBatch w
      → length (flush batch_accept_len ticked w).conn_batch < batch_accept_len
  unfolding flush
  flush-HasBatch ticked w pos h = ground arith

  flush-order :
      (ticked : Bool) (w : Worker)
      → (flush batch_accept_len ticked w).started ++ (flush batch_accept_len ticked w).conn_batch
        ≡ w.started ++ w.conn_batch
  unfolding flush
  flush-order ticked w = elim (Bool-cases (is_onload batch_accept_len ticked w)) [
    | inl on ↦ rw on (append-nil (w.started ++ w.conn_batch))
    | inr off ↦ rw off refl
  ]

  -- How the loop ends: in the order in which the connections were accepted, their services were
  -- started, up to those that are left in the batch.
  pub record IsBatched (w : Worker) (conns : List ℕ) (end : Worker) : Type 0 where
    pub order : end.started ++ end.conn_batch ≡ (w.started ++ w.conn_batch) ++ conns
    pub told : IsTold end
    pub left : HasBatch end

  after_accept-IsBatched :
      (a : Accept) (next : Worker → Worker) (turns : List Turn) (w : Worker)
      → ((v : Worker) → IsTold v → HasBatch v → IsBatched v (accepted_conns turns) (next v))
      → IsTold w
      → length w.conn_batch < batch_accept_len
      → IsBatched w (with_accept a (accepted_conns turns)) (after_accept a next w)
  after_accept-IsBatched (connection nfd) next turns w goes told h =
      let r =
        goes (add_batch nfd w) told (omega (arith, h, length-append w.conn_batch (nfd ∷ []))) in
      record {
        order =
            r.order
            ∙ (ap (λ s. s ++ accepted_conns turns)
                  (sym (append_assoc w.started w.conn_batch (nfd ∷ [])))
                ∙ append_assoc (w.started ++ w.conn_batch) (nfd ∷ []) (accepted_conns turns));
        told = r.told;
        left = r.left;
      }
  after_accept-IsBatched timeout next turns w goes told h = goes w told (omega (arith, h))
  after_accept-IsBatched failure next turns w goes told h = record {
    order = sym (append-nil (w.started ++ w.conn_batch));
    told = told;
    left = omega (arith, h);
  }

  -- If a batch has room for a connection, then from any state in which `acceptedCh` was told of the
  -- services that were started and the batch is not over its length, and whatever is accepted and
  -- whenever the ticker ticks, `worker` starts the services of the accepted connections in
  -- their order and each once, but for those left in the batch at the end, never more than the
  -- length of a batch, which are neither started nor closed; and what `acceptedCh` is told adds up to the
  -- number of services started.
  pub worker-IsBatched :
      (turns : List Turn) (w : Worker)
      → 0 < batch_accept_len
      → IsTold w
      → HasBatch w
      → IsBatched w (accepted_conns turns) (worker batch_accept_len turns w)
  unfolding worker
  worker-IsBatched [] w pos told h = record {
    order = sym (append-nil (w.started ++ w.conn_batch));
    told = told;
    left = h;
  }
  worker-IsBatched (turn ∷ turns) w pos told h =
      let r =
        after_accept-IsBatched turn.accept (worker batch_accept_len turns) turns
          (flush batch_accept_len turn.ticked w) (λ v. worker-IsBatched turns v pos)
          (flush-IsTold turn.ticked w told) (flush-HasBatch turn.ticked w pos h) in
      record {
        order = r.order ∙ ap (λ s. s ++ accepted_conns (turn ∷ turns)) (flush-order turn.ticked w);
        told = r.told;
        left = r.left;
      }
