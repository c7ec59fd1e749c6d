-- ===== src/QpsServer/Stream/Ends.antt =====
-- That a read and a write end.
use Prim.Native.Nat.{min}
use wander.Base.{
  ℕ, suc, ◌+◌, ◌≤◌, ◌<◌, ◌≡◌, refl, Bool, true, false, List, [], ◌∷◌, arith, length, take, drop,
  ltb, leb, ◌==◌, if◌then◌else◌,
}
use wander.Base.Bytes.{Bytes}
use wander.QpsServer.Conn.{
  ReadAnswer, got, read_again, read_broken, WriteAnswer, took_all, write_again, write_broken, Info,
  Run, done,
}
use wander.QpsServer.Stream.{
  read_count, read_loop, http_read_raw_stream, write_failure, with_writes, transmit, write_loop,
  http_write_responser,
}

-- A call that returns.
abbrev pub Ends {ℓ} : {A : Type ℓ} → Run A → Type ℓ
Ends {A} r = (a : A) × (r ≡ done a)

pub Ends-if :
    {A : Type 0} (b : Bool) (x y : Run A)
    → (b ≡ true → Ends x)
    → (b ≡ false → Ends y)
    → Ends (if b then x else y)
Ends-if true x y h k = h refl
Ends-if false x y h k = k refl

read_loop-Ends :
    (t tries : ℕ) (answers : List ReadAnswer) (info : Info)
    → 1 ≤ length answers
    → 5 ≤ tries + length answers
    → Ends (read_loop t tries answers info)
unfolding read_loop
read_loop-Ends t tries [] info h k = absurd (omega arith)
read_loop-Ends t tries (got n ∷ rest) info h k =
    Ends-if (read_count n info.conn.incoming == 0) _ _ (λ _. (_, refl)) (λ _. (_, refl))
read_loop-Ends t tries (read_broken ∷ rest) info h k = (_, refl)
read_loop-Ends t tries (read_again ∷ rest) info h k =
    Ends-if (ltb 0 t) _ _
      (λ _.
        Ends-if (leb 5 (suc tries)) _ _ (λ _. (_, refl))
          (λ few. read_loop-Ends t (suc tries) rest info (ground arith) (omega arith)))
      (λ _. (_, refl))

-- Five answers are enough for a read.
pub http_read_raw_stream-Ends :
    (t : ℕ) (info : Info) → 5 ≤ length info.conn.reads → Ends (http_read_raw_stream t info)
unfolding http_read_raw_stream
http_read_raw_stream-Ends t info h =
    read_loop-Ends t 0 info.conn.reads (record info { io_error = false }) (omega arith)
      (omega arith)

again_ends :
    (t tries k : ℕ) (rest : List WriteAnswer) (info : Info)
    → 5 ≤ tries
    → (write_failure t tries (write_again k) (with_writes rest info)).io_error ≡ true
again_ends t tries k rest info h = ground arith

write_loop-Ends :
    (t tries : ℕ) (text : Bytes) (answers : List WriteAnswer) (info : Info)
    → 1 ≤ length answers
    → 5 ≤ tries + length answers
    → Ends (write_loop t tries text answers info)
unfolding write_loop
write_loop-Ends t tries text [] info h k = absurd (omega arith)
write_loop-Ends t tries text (took_all ∷ rest) info h k =
    Ends-if (length text == length text) _ _ (λ _. (_, refl)) (λ e. absurd (ground arith))
write_loop-Ends t tries text (write_broken n ∷ rest) info h k =
    Ends-if (min n (length text) == length text) _ _ (λ _. (_, refl)) (λ _. (_, refl))
write_loop-Ends t tries text (write_again n ∷ rest) info h k =
    Ends-if (min n (length text) == length text) _ _ (λ _. (_, refl))
      (λ _.
        Ends-if (write_failure t (suc tries) (write_again n) (with_writes rest info)).io_error _ _
          (λ _. (_, refl))
          (λ fine.
            let few : suc tries < 5 = ground (arith, again_ends t (suc tries) n rest info) in
            write_loop-Ends t (suc tries) (drop (min n (length text)) text) rest
              (transmit (take (min n (length text)) text)
                (write_failure t (suc tries) (write_again n) (with_writes rest info)))
              (omega arith) (omega arith)))

-- Five answers are enough for a write.
pub http_write_responser-Ends :
    (text : Bytes) (t : ℕ) (info : Info)
    → 5 ≤ length info.conn.writes
    → Ends (http_write_responser text t info)
unfolding http_write_responser
http_write_responser-Ends text t info h =
    write_loop-Ends t 0 text info.conn.writes (record info { io_error = false }) (omega arith)
      (omega arith)
