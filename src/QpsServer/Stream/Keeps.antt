-- ===== src/QpsServer/Stream/Keeps.antt =====
-- Reading from a connection and writing to it neither close it nor say so.
use wander.Base.{
  ℕ, suc, ◌+◌, ◌≤◌, ◌≡◌, refl, Bool, true, false, List, [], ◌∷◌, ◌++◌, arith, length, take, drop,
  ltb, leb, ◌==◌, if◌then◌else◌,
}
use wander.Base.Bytes.{Bytes}
use wander.QpsServer.Event.{Event, is_destroyed}
use wander.QpsServer.Conn.{
  ReadAnswer, got, read_again, read_broken, WriteAnswer, took_all, write_again, write_broken, Conn,
  Info, After, After-if, notify_conn,
}
use wander.QpsServer.Stream.{
  read_count, with_writes, write_count, write_failure, transmit, read_loop, http_read_raw_stream,
  write_loop, http_write_responser,
}

-- How many of the events say that the connection is destroyed.
abbrev pub destroyed_count : List Event → ℕ
destroyed_count [] = 0
destroyed_count (e ∷ events) = let n = destroyed_count events in if is_destroyed e then suc n else n

pub destroyed_count-append :
    (events : List Event) (e : Event)
    → destroyed_count (events ++ e ∷ [])
      ≡ destroyed_count events + (if is_destroyed e then 1 else 0)
destroyed_count-append [] e = ground arith
destroyed_count-append (d ∷ events) e = ground (arith, destroyed_count-append events e)

-- What the steps between the start and the end of a connection leave alone.
pub record Keeps (c d : Conn) : Type 0 where
  pub closed : d.closed ≡ c.closed
  pub destroyed : destroyed_count d.events ≡ destroyed_count c.events
  pub reads : length d.reads ≤ length c.reads

pub Keeps-refl : (c : Conn) → Keeps c c
Keeps-refl c = omega arith

pub Keeps-trans : {a b c : Conn} → Keeps a b → Keeps b c → Keeps a c
Keeps-trans h k = omega arith

-- An event that is not the last one.
pub notify_conn-Keeps :
    (e : Event) {c d : Conn} → is_destroyed e ≡ false → Keeps c d → Keeps c (notify_conn e d)
unfolding notify_conn
notify_conn-Keeps e {d} h k = ground (arith, destroyed_count-append d.events e)

-- The infos that keep what `c` has.
abbrev pub KeepsInfo : Conn → Info → Type 0
KeepsInfo c info = Keeps c info.conn

pub if_holds :
    {A : Type 0} (P : A → Type 0) (b : Bool) {x y : A} → P x → P y → P (if b then x else y)
if_holds P true h k = h
if_holds P false h k = k

-- Not the event that a connection is destroyed.
abbrev pub NotLast : Event → Type 0
NotLast e = is_destroyed e ≡ false

read_loop-Keeps :
    (t tries : ℕ) (answers : List ReadAnswer) (c : Conn) (info : Info)
    → Keeps c info.conn
    → length answers ≤ length c.reads
    → After (λ r. KeepsInfo c r.1) (read_loop t tries answers info)
unfolding read_loop
read_loop-Keeps t tries [] c info k h = tt
read_loop-Keeps t tries (got n ∷ rest) c info k h =
    After-if _ (read_count n info.conn.incoming == 0) _ _
      (λ _. notify_conn-Keeps _ refl (omega arith)) (λ _. notify_conn-Keeps _ refl (omega arith))
read_loop-Keeps t tries (read_broken ∷ rest) c info k h = notify_conn-Keeps _ refl (omega arith)
read_loop-Keeps t tries (read_again ∷ rest) c info k h =
    After-if _ (ltb 0 t) _ _
      (λ _.
        After-if _ (leb 5 (suc tries)) _ _ (λ _. notify_conn-Keeps _ refl (omega arith))
          (λ _. read_loop-Keeps t (suc tries) rest c info k (omega arith)))
      (λ _. notify_conn-Keeps _ refl (omega arith))

pub http_read_raw_stream-Keeps :
    (t : ℕ) (c : Conn) (info : Info)
    → Keeps c info.conn
    → After (λ r. KeepsInfo c r.1) (http_read_raw_stream t info)
unfolding http_read_raw_stream
http_read_raw_stream-Keeps t c info k =
    read_loop-Keeps t 0 info.conn.reads c (record info { io_error = false }) k k.reads

write_failure-Keeps :
    (t tries : ℕ) (a : WriteAnswer) (rest : List WriteAnswer) (c : Conn) (info : Info)
    → Keeps c info.conn
    → KeepsInfo c (write_failure t tries a (with_writes rest info))
write_failure-Keeps t tries took_all rest c info k = omega arith
write_failure-Keeps t tries (write_again n) rest c info k =
    if_holds (KeepsInfo c) (ltb 0 t)
      (if_holds (KeepsInfo c) (leb 5 tries) (notify_conn-Keeps _ refl (omega arith)) (omega arith))
      (notify_conn-Keeps _ refl (omega arith))
write_failure-Keeps t tries (write_broken n) rest c info k = notify_conn-Keeps _ refl (omega arith)

write_loop-Keeps :
    (t tries : ℕ) (text : Bytes) (answers : List WriteAnswer) (c : Conn) (info : Info)
    → Keeps c info.conn
    → After (KeepsInfo c) (write_loop t tries text answers info)
unfolding write_loop
write_loop-Keeps t tries text [] c info k = tt
write_loop-Keeps t tries text (a ∷ rest) c info k =
    After-if (KeepsInfo c) (write_count a text == length text) _ _
      (λ _. notify_conn-Keeps _ refl moved)
      (λ _.
        After-if (KeepsInfo c) failed.io_error _ _ (λ _. moved)
          (λ _.
            write_loop-Keeps t (suc tries) (drop (write_count a text) text) rest c
              (transmit (take (write_count a text) text) failed) moved))
  where
    failed : Info
    failed = write_failure t (suc tries) a (with_writes rest info)

    moved : KeepsInfo c (transmit (take (write_count a text) text) failed)
    moved = omega (arith, write_failure-Keeps t (suc tries) a rest c info k)

pub http_write_responser-Keeps :
    (text : Bytes) (t : ℕ) (c : Conn) (info : Info)
    → Keeps c info.conn
    → After (KeepsInfo c) (http_write_responser text t info)
unfolding http_write_responser
http_write_responser-Keeps text t c info k =
    write_loop-Keeps t 0 text info.conn.writes c (record info { io_error = false }) k
