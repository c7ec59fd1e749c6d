-- ===== src/QpsServer/Stream/Laws.antt =====
-- What a read takes from the connection and what a write gives it, and how many answers they need.
use wander.Base.{
  ℕ, zero, suc, ◌+◌, ◌≤◌, ◌<◌, ◌≡◌, ◌↔◌, refl, ◌∙◌, sym, ap, true, false, List, [], ◌∷◌, ◌++◌,
  arith, length, take, drop, ltb, ◌==◌, if◌then◌else◌, append_assoc, take-append-drop,
  length-append, length-take, length-drop,
}
use wander.Base.Bytes.{Bytes}
use wander.QpsServer.Event.{is_read_done, is_write_done}
use wander.QpsServer.Conn.{
  ReadAnswer, got, read_again, read_broken, WriteAnswer, took_all, write_again, write_broken, Info,
  After, After-if, notify_conn,
}
use wander.QpsServer.Stream.{
  read_count, read_loop, http_read_raw_stream, write_count, write_failure, with_writes, transmit,
  write_loop, http_write_responser,
}

-- What a read leaves behind, of `n` bytes.
pub record IsRead (before : Info) (n : ℕ) (after : Info) : Type 0 where
  pub whole :
      after.read_raw_stream ++ after.conn.incoming ≡ before.read_raw_stream ++ before.conn.incoming
  pub counted : length after.read_raw_stream ≡ length before.read_raw_stream + n
  pub tells : is_read_done after.state ≡ ltb 0 n
  pub fails : after.io_error ≡ (if ltb 0 n then false else true)
  pub answers : length after.conn.reads < length before.conn.reads

receive_lem :
    (k : ℕ) (raw incoming : Bytes)
    → let n = read_count k incoming in
      ((raw ++ take n incoming) ++ drop n incoming ≡ raw ++ incoming)
      × (length (raw ++ take n incoming) ≡ length raw + n)
receive_lem k raw incoming =
    let n = read_count k incoming in
    (
      append_assoc raw (take n incoming) (drop n incoming)
          ∙ ap (λ t. raw ++ t) (take-append-drop n incoming),
      ground (arith, length-append raw (take n incoming), length-take n incoming),
    )

read_loop-IsRead :
    (t tries : ℕ) (answers : List ReadAnswer) (before info : Info)
    → info.read_raw_stream ≡ before.read_raw_stream
    → info.conn.incoming ≡ before.conn.incoming
    → info.io_error ≡ false
    → length answers ≤ length before.conn.reads
    → After (λ r. IsRead before r.0 r.1) (read_loop t tries answers info)
unfolding read_loop notify_conn
read_loop-IsRead t tries [] before info p q e h = tt
read_loop-IsRead t tries (got k ∷ rest) before info p q e h =
    ground (arith, receive_lem k before.read_raw_stream before.conn.incoming)
read_loop-IsRead t tries (read_again ∷ rest) before info p q e h =
    ground (arith, read_loop-IsRead t (suc tries) rest before info p q e)
read_loop-IsRead t tries (read_broken ∷ rest) before info p q e h = ground arith

pub http_read_raw_stream-IsRead :
    (t : ℕ) (info : Info) → After (λ r. IsRead info r.0 r.1) (http_read_raw_stream t info)
unfolding http_read_raw_stream
http_read_raw_stream-IsRead t info =
    read_loop-IsRead t 0 info.conn.reads info (record info { io_error = false }) refl refl refl
      (omega arith)

-- What a write leaves behind: it sent all but `left` of the text.
pub record IsWritten (before : Info) (text : Bytes) (left : Bytes) (after : Info) : Type 0 where
  pub whole : after.conn.sent ++ left ≡ before.conn.sent ++ text
  pub tells : (is_write_done after.state ≡ true) ↔ (left ≡ [])
  pub kept : after.conn.reads ≡ before.conn.reads
  pub unread : after.conn.incoming ≡ before.conn.incoming
  pub keep : after.keepalive ≡ before.keepalive
  pub body : after.response_body_text ≡ before.response_body_text

sent_part : (n : ℕ) (sent text : Bytes) → (sent ++ take n text) ++ drop n text ≡ sent ++ text
sent_part n sent text =
    append_assoc sent (take n text) (drop n text) ∙ ap (λ t. sent ++ t) (take-append-drop n text)

drop-eq-nil : (n : ℕ) (text : Bytes) → (n == length text) ≡ true → drop n text ≡ []
drop-eq-nil zero [] h = refl
drop-eq-nil zero (c ∷ text) h = absurd (ground arith)
drop-eq-nil (suc n) [] h = refl
drop-eq-nil (suc n) (c ∷ text) h = drop-eq-nil n text (ground arith)

write_count-le : (a : WriteAnswer) (text : Bytes) → write_count a text ≤ length text
write_count-le took_all text = omega arith
write_count-le (write_again k) text = omega arith
write_count-le (write_broken k) text = omega arith

drop-ne-nil :
    (n : ℕ) (text : Bytes) → n ≤ length text → (n == length text) ≡ false → drop n text ≡ [] → ⊥
drop-ne-nil n text h k e = ground (arith, length-drop n text, ap length e)

-- The failure of a round.
pub record IsFailure (before after : Info) : Type 0 where
  pub same : after.conn.sent ≡ before.conn.sent
  pub reads : after.conn.reads ≡ before.conn.reads
  pub unread : after.conn.incoming ≡ before.conn.incoming
  pub keep : after.keepalive ≡ before.keepalive
  pub body : after.response_body_text ≡ before.response_body_text
  pub state : after.io_error ≡ true → is_write_done after.state ≡ false

write_failure-IsFailure :
    (t tries : ℕ) (a : WriteAnswer) (rest : List WriteAnswer) (info : Info)
    → info.io_error ≡ false
    → IsFailure info (write_failure t tries a (with_writes rest info))
unfolding notify_conn
write_failure-IsFailure t tries took_all rest info e = ground arith
write_failure-IsFailure t tries (write_again k) rest info e = ground arith
write_failure-IsFailure t tries (write_broken k) rest info e = ground arith

-- The text that a write leaves.
abbrev pub Written : Info → Bytes → Info → Type 0
Written before text after = (left : Bytes) × IsWritten before text left after

write_loop-Written :
    (t tries : ℕ) (text all : Bytes) (answers : List WriteAnswer) (before info : Info)
    → info.conn.sent ++ text ≡ before.conn.sent ++ all
    → info.conn.reads ≡ before.conn.reads
    → info.conn.incoming ≡ before.conn.incoming
    → info.keepalive ≡ before.keepalive
    → info.response_body_text ≡ before.response_body_text
    → info.io_error ≡ false
    → After (Written before all) (write_loop t tries text answers info)
unfolding write_loop notify_conn
write_loop-Written t tries text all [] before info p q r k b e = tt
write_loop-Written t tries text all (a ∷ rest) before info p q r k b e =
    After-if (Written before all) (n == length text) _ _
      (λ full. (
        [],
        record {
          whole = ap (λ left. info'.conn.sent ++ left) (sym (drop-eq-nil n text full)) ∙ moved;
          tells = (λ _. refl, λ _. refl);
          kept = failure.reads ∙ q;
          unread = failure.unread ∙ r;
          keep = failure.keep ∙ k;
          body = failure.body ∙ b;
        },
      ))
      (λ part.
        After-if (Written before all) info'.io_error _ _
          (λ failed. (
            drop n text,
            record {
              whole = moved;
              tells = (
                λ h. absurd (ground (arith, failure.state failed)),
                λ h. absurd (drop-ne-nil n text (write_count-le a text) part h),
              );
              kept = failure.reads ∙ q;
              unread = failure.unread ∙ r;
              keep = failure.keep ∙ k;
              body = failure.body ∙ b;
            },
          ))
          (λ fine.
            write_loop-Written t (suc tries) (drop n text) all rest before info' moved
              (failure.reads ∙ q) (failure.unread ∙ r) (failure.keep ∙ k) (failure.body ∙ b) fine))
  where
    n : ℕ
    n = write_count a text

    failure : IsFailure info (write_failure t (suc tries) a (with_writes rest info))
    failure = write_failure-IsFailure t (suc tries) a rest info e

    info' : Info
    info' = transmit (take n text) (write_failure t (suc tries) a (with_writes rest info))

    moved : info'.conn.sent ++ drop n text ≡ before.conn.sent ++ all
    moved =
        ap (λ sent. (sent ++ take n text) ++ drop n text) failure.same
        ∙ (sent_part n info.conn.sent text ∙ p)

pub http_write_responser-Written :
    (text : Bytes) (t : ℕ) (info : Info)
    → After (Written info text) (http_write_responser text t info)
unfolding http_write_responser
http_write_responser-Written text t info =
    write_loop-Written t 0 text text info.conn.writes info (record info { io_error = false }) refl
      refl refl refl refl refl
